-- ===== src/Upload/BucketEnds.antt =====
-- The loop of the browser's upload against the bucket.
use better_pingvin_share.Prelude.{
  ℕ, suc, ◌+◌, ◌≤◌, ◌<◌, ◌≡◌, ◌⊎◌, refl, arith, String, true, false, Option, none, some, List, ◌++◌,
  inl, inr, Bool-cases, length, all, ltb, ◌==◌, ===-refl,
}
use better_pingvin_share.Http.{done}
use better_pingvin_share.Prisma.{Prisma}
use better_pingvin_share.Schema.{Db, Share, Bytes}
use better_pingvin_share.World.{World}
use better_pingvin_share.FileStore.S3
use better_pingvin_share.FileStore.Local.{chosen_id}
use better_pingvin_share.Upload.{
  Delivery, arrives, request_lost, Progress, running, finished, round, advance, upload_file,
  post_chunk,
}
use better_pingvin_share.FileStore.S3.{begin_upload}
use better_pingvin_share.Share.Request.{Request}
use better_pingvin_share.Upload.{answer}
use better_pingvin_share.Upload.Admits.{Admits, Admits-same, posted_s3}
use better_pingvin_share.Upload.Pieces.{chunk_count_pos}
use better_pingvin_share.Upload.Server.{chunks, chunk_at, piece, file_row}
use better_pingvin_share.Upload.Rounds.{none_known}
use better_pingvin_share.Upload.Schedule.{answers, replicate, Nearing, run_nearing}
use better_pingvin_share.Upload.ToBucket.{
  BucketHost, Room, Remembers, begun, longer, registered, create_next, create_last, get_registered,
  begun-Room,
}

bucket_id :
    {w : World} {file : Bytes} → BucketHost w file → chosen_id w (some w.fresh_id) ≡ done w.fresh_id
unfolding chosen_id
bucket_id host = rw (host.not_empty, host.uuid) refl

module _ {P : Prisma} (w : World) (request : Request) (share_id name : String) (file : Bytes)
    (s : Share) where
  -- The bucket has the whole file, and the table its row.
  abbrev pub Stored : Db P → Type 0
  Stored db = S3.get share_id w.fresh_id db ≡ done (file_row w share_id name file, some file)

  abbrev pub step : Delivery → Progress → Db P → Progress × Db P
  step = advance w.config.chunk_size file (post_chunk w request share_id name)

  -- How a client and the bucket stand to each other; `n` rounds without a loss are enough.
  data Sends (n : ℕ) : Progress → Db P → Type 0 where
    sending :
        (k : ℕ) (id : Option String) (db : Db P)
        → Room w share_id name file s db
        → Admits w request share_id s db
        → (k ≡ 0) ⊎ Remembers w share_id name file k db
        → k < chunks w file
        → chosen_id w id ≡ done w.fresh_id
        → chunks w file ≤ n + k
        → Sends n (running (record { file_id = id; index = k })) db
    arrived : (db : Db P) → Stored db → Sends n (finished true) db

  module _ (host : BucketHost w file) where
    longer-Room :
        (k : ℕ) (db : Db P)
        → Room w share_id name file s db
        → Room w share_id name file s
            (longer w share_id name file k (begun w share_id name file k db))
    longer-Room k db room =
        let still = begun-Room w share_id name file k s db room in
        record { share = still.share; unused = still.unused }

    -- The next piece is remembered.
    longer-Remembers :
        (k : ℕ) (db : Db P)
        → Remembers w share_id name file
            (k + 1)
            (longer w share_id name file k (begun w share_id name file k db))
    longer-Remembers k db =
        let e : k + 1 ≡ suc k = omega arith in rw e (simp (P.find-write, ===-refl))

    -- The chunk comes to the bucket.
    sent_on :
        (k : ℕ) (id : Option String) (db : Db P)
        → Room w share_id name file s db
        → Admits w request share_id s db
        → post_chunk w request share_id name id (chunk_at w file k) (piece w file k) db
          ≡ answer (
              S3.create w
                (piece w file k)
                (chunk_at w file k)
                (record { id = id; name = name })
                share_id
                db)
    sent_on k id db room a =
        posted_s3 w request share_id s name id (chunk_at w file k) (piece w file k) db a room.share
          host.bucket

    longer-Admits :
        (k : ℕ) (db : Db P)
        → Admits w request share_id s db
        → Admits w request share_id s
            (longer w share_id name file k (begun w share_id name file k db))
    unfolding begin_upload
    longer-Admits k db a = elim (Bool-cases (k == 0)) [
      | inl first ↦ Admits-same w request share_id s db _ (rw first refl) (rw first refl) a
      | inr later ↦ Admits-same w request share_id s db _ (rw later refl) (rw later refl) a
    ]

    round_next :
        (k : ℕ) (id : Option String) (db : Db P)
        → Room w share_id name file s db
        → Admits w request share_id s db
        → (k ≡ 0) ⊎ Remembers w share_id name file k db
        → chosen_id w id ≡ done w.fresh_id
        → suc k < chunks w file
        → step arrives (running (record { file_id = id; index = k })) db ≡ (
          running (record { file_id = some w.fresh_id; index = k + 1 }),
          longer w share_id name file k (begun w share_id name file k db),
        )
    unfolding round
    round_next k id db room a held known more =
        let later : ltb (k + 1) (chunks w file) ≡ true = ground arith in
        rw
          (
            sent_on k id db room a,
            create_next w share_id name file k id s db room held known more,
            later,
          )
          refl

    round_last :
        (k : ℕ) (id : Option String) (db : Db P)
        → Room w share_id name file s db
        → Admits w request share_id s db
        → (k ≡ 0) ⊎ Remembers w share_id name file k db
        → chosen_id w id ≡ done w.fresh_id
        → suc k ≡ chunks w file
        → step arrives (running (record { file_id = id; index = k })) db
          ≡ (finished true, registered w share_id name file k (begun w share_id name file k db))
    unfolding round
    round_last k id db room a held known over =
        let ended : ltb (k + 1) (chunks w file) ≡ false = ground arith in
        rw
          (
            sent_on k id db room a,
            create_last w share_id name file k id s db host room held known over,
            ended,
          )
          refl

    round_lost :
        (k : ℕ) (id : Option String) (db : Db P)
        → step request_lost (running (record { file_id = id; index = k })) db
          ≡ (running (record { file_id = id; index = 0 }), db)
    unfolding round
    round_lost k id db =
        let inside : ltb 0 (chunks w file) ≡ true =
          ground (arith, chunk_count_pos (length file) w.config.chunk_size) in
        rw inside refl

    arrives-Sends :
        (n : ℕ) (p : Progress) (db : Db P)
        → Sends (suc n) p db
        → Sends n (step arrives p db).0 (step arrives p db).1
    arrives-Sends n _ _ (arrived db is) = arrived db is
    arrives-Sends n _ _ (sending k id db room a held below known enough) =
        elim (Bool-cases (suc k == chunks w file)) [
          | inl over ↦
              rw (round_last k id db room a held known (ground arith))
                (arrived _ (get_registered w share_id name file k _))
          | inr not_yet ↦ rw (round_next k id db room a held known (ground arith)) (
              sending (k + 1) (some w.fresh_id) _ (longer-Room k db room) (longer-Admits k db a)
                (inr (longer-Remembers k db)) (ground arith) (bucket_id host)
                (omega (arith, enough)))
        ]

    lost-Sends :
        (n : ℕ) (p : Progress) (db : Db P)
        → Sends n p db
        → Sends (chunks w file) (step request_lost p db).0 (step request_lost p db).1
    lost-Sends n _ _ (arrived db is) = arrived db is
    lost-Sends n _ _ (sending k id db room a held below known enough) =
        rw (round_lost k id db)
          (sending 0 id db room a (inl refl) (omega (arith, below)) known (omega arith))

    weaken : (n m : ℕ) (p : Progress) (db : Db P) → n ≤ m → Sends n p db → Sends m p db
    weaken n m _ _ le (arrived db is) = arrived db is
    weaken n m _ _ le (sending k id db room a held below known enough) =
        sending k id db room a held below known (omega (arith, enough))

    Sends-Nearing : Nearing Sends (chunks w file) step
    Sends-Nearing = record { arrive = arrives-Sends; lose = lost-Sends; weaken = weaken }

    none_left : (p : Progress) (db : Db P) → Sends 0 p db → (p ≡ finished true) × Stored db
    none_left _ _ (arrived db is) = (refl, is)
    none_left _ _ (sending k id db room a held below known enough) =
        absurd (omega (arith, below, enough))

    -- The state of both after a schedule and then enough rounds without a loss
    abbrev pub sent : List Delivery → Db P → Progress × Db P
    sent net db =
        upload_file w.config.chunk_size file (post_chunk w request share_id name)
          (net ++ replicate (chunks w file) arrives) db

    -- Over the bucket the upload's loop ends too: whatever requests the network loses at first, once
    -- it has delivered as many requests in a row as the file has chunks, the loop has returned true,
    -- and the bucket has the whole file, with its row. It is asked that no response is lost, that
    -- the share is there, not removed and not expired, that whoever sends the requests may create shares,
    -- is taken for the owner of this one and created it, if anybody did, that the id is new and the host
    -- takes it, that files are kept in the bucket, and that it takes pieces of these sizes. Nothing is
    -- asked of the lock and the limits: the file is also taken where the share was completed, and where
    -- the file is beyond the limits on the share's size.
    pub s3_upload_ends :
        (net : List Delivery) (db : Db P)
        → all answers net ≡ true
        → Room w share_id name file s db
        → Admits w request share_id s db
        → ((sent net db).0 ≡ finished true)
          × (S3.get share_id w.fresh_id (sent net db).1
              ≡ done (file_row w share_id name file, some file))
    unfolding upload_file
    s3_upload_ends net db e room a =
        let some_chunk = chunk_count_pos (length file) w.config.chunk_size in
        let inside : ltb 0 (chunks w file) ≡ true = ground arith in
        rw inside (
          none_left _ _ (
            run_nearing w.config.chunk_size file (post_chunk w request share_id name) Sends
              (chunks w file) Sends-Nearing net _ db e
              (sending 0 none db room a (inl refl) some_chunk (none_known w) (omega arith))))

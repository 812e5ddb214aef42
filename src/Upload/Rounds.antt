-- ===== src/Upload/Rounds.antt =====
-- How the browser and the server stand to each other after each round of an upload.
use better_pingvin_share.Prelude.{
  ℕ, suc, ◌+◌, ◌≤◌, ◌<◌, ◌≡◌, ◌≢◌, refl, arith, String, true, false, none, some, inl, inr,
  Bool-cases, length, ltb, ◌==◌, if◌then◌else◌,
}
use better_pingvin_share.Http.{done}
use better_pingvin_share.Prisma.{Prisma}
use better_pingvin_share.Schema.{Db, Share, Bytes}
use better_pingvin_share.World.{World}
use better_pingvin_share.FileStore.Local.{chosen_id, get}
use better_pingvin_share.Upload.{
  Delivery, arrives, request_lost, Client, Progress, running, finished, round, advance, post_chunk,
}
use better_pingvin_share.Share.Request.{Request}
use better_pingvin_share.Upload.Admits.{Admits, Admits-same, posted_local}
use better_pingvin_share.Upload.Pieces.{chunk_count_pos}
use better_pingvin_share.Upload.Server.{
  Host, Held, chunks, chunk_at, piece, with_chunks, file_row, stored, grown, create_receives,
  receive_next, receive_last, receive_other, grown-Held, get-stored,
}

known_id :
    {w : World} {file : Bytes} → Host w file → chosen_id w (some w.fresh_id) ≡ done w.fresh_id
unfolding chosen_id
known_id host = rw (host.not_empty, host.uuid) refl

pub none_known : (w : World) → chosen_id w none ≡ done w.fresh_id
unfolding chosen_id
none_known w = refl

-- The client after a chunk that the server took
abbrev next : World → Client → Client
next w c = record { file_id = some w.fresh_id; index = c.index + 1 }

module _ {P : Prisma} (w : World) (request : Request) (share_id name : String) (file : Bytes)
    (s : Share) where
  -- The server has the whole file under the id that it drew, with its row.
  abbrev pub Complete : Db P → Type 0
  Complete db = get share_id w.fresh_id db ≡ done (file_row w share_id name file, some file)

  abbrev pub step : Delivery → Progress → Db P → Progress × Db P
  step = advance w.config.chunk_size file (post_chunk w request share_id name)

  -- How a client and the server stand to each other; `n` rounds without a loss are enough.
  pub data Stands (n : ℕ) : Progress → Db P → Type 0 where
    sending :
        (k : ℕ) (c : Client) (db : Db P)
        → Held w share_id name file s k db
        → Admits w request share_id s db
        → k < chunks w file
        → chosen_id w c.file_id ≡ done w.fresh_id
        → chunks w file + (if k == c.index then 0 else 1) ≤ n + k
        → Stands n (running c) db
    arrived : (db : Db P) → Complete db → Stands n (finished true) db

  module _ (host : Host w file) (k : ℕ) (c : Client) (db : Db P)
      (h : Held w share_id name file s k db) (a : Admits w request share_id s db)
      (below : k < chunks w file) (known : chosen_id w c.file_id ≡ done w.fresh_id) where
    round_next :
        c.index ≡ k
        → k + 1 < chunks w file
        → step arrives (running c) db
          ≡ (running (next w c), grown w share_id name file s k db h.dir)
    unfolding round
    round_next turn more =
        let later : ltb (k + 1) (chunks w file) ≡ true = ground arith in
        rw
          (
            turn,
            posted_local w request share_id s name c.file_id (chunk_at w file k) (piece w file k) db
                a h.share host.local,
            create_receives w share_id name file s k c.file_id (chunk_at w file k) (piece w file k)
                db h known,
            receive_next w share_id name file s k db host h more,
            later,
          )
          refl

    round_last :
        c.index ≡ k
        → k + 1 ≡ chunks w file
        → step arrives (running c) db ≡ (
          finished true,
          stored w share_id name file s
              (with_chunks P w file (k + 1) h.dir)
              (grown w share_id name file s k db h.dir),
        )
    unfolding round
    round_last turn over =
        let ended : ltb (k + 1) (chunks w file) ≡ false = ground arith in
        rw
          (
            turn,
            posted_local w request share_id s name c.file_id (chunk_at w file k) (piece w file k) db
                a h.share host.local,
            create_receives w share_id name file s k c.file_id (chunk_at w file k) (piece w file k)
                db h known,
            receive_last w share_id name file s k db host h over,
            ended,
          )
          refl

    round_other : k ≢ c.index → step arrives (running c) db ≡ (running (record c { index = k }), db)
    unfolding round
    round_other other =
        let inside : ltb k (chunks w file) ≡ true = ground arith in
        rw
          (
            posted_local w request share_id s name c.file_id (chunk_at w file c.index)
                (piece w file c.index) db a h.share host.local,
            create_receives w share_id name file s k c.file_id (chunk_at w file c.index)
                (piece w file c.index) db h known,
            receive_other w share_id name file s k c.index (piece w file c.index) db host h below
                other,
            inside,
          )
          refl

    round_lost : step request_lost (running c) db ≡ (running (record c { index = 0 }), db)
    unfolding round
    round_lost =
        let inside : ltb 0 (chunks w file) ≡ true =
          ground (arith, chunk_count_pos (length file) w.config.chunk_size) in
        rw inside refl

  module _ (host : Host w file) where
    -- A round that arrives brings the client nearer to its end.
    pub arrives-Stands :
        (n : ℕ) (p : Progress) (db : Db P)
        → Stands (suc n) p db
        → Stands n (step arrives p db).0 (step arrives p db).1
    arrives-Stands n _ _ (arrived db done_with) = arrived db done_with
    arrives-Stands n _ _ (sending k c db h a below known enough) =
        elim (Bool-cases (k == c.index)) [
          | inr other ↦
              rw (round_other host k c db h a below known (ground arith))
                (sending k (record c { index = k }) db h a below known (ground arith))
          | inl turn ↦
              let same : c.index ≡ k = ground arith in
              elim (Bool-cases (k + 1 == chunks w file)) [
                | inl over ↦
                    rw (round_last host k c db h a below known same (ground arith))
                      (arrived _ (get-stored w share_id name file s _ _))
                | inr not_yet ↦ rw (round_next host k c db h a below known same (ground arith)) (
                    sending (k + 1) (next w c) _ (grown-Held w share_id name file s k db h)
                      (Admits-same w request share_id s db _ refl refl a) (ground arith)
                      (known_id host) (ground arith))
              ]
        ]

    pub lost-Stands :
        (n : ℕ) (p : Progress) (db : Db P)
        → Stands n p db
        → Stands (chunks w file + 1) (step request_lost p db).0 (step request_lost p db).1
    lost-Stands n _ _ (arrived db done_with) = arrived db done_with
    lost-Stands n _ _ (sending k c db h a below known enough) =
        rw (round_lost host k c db h a below known)
          (sending k (record c { index = 0 }) db h a below known (ground arith))

    pub weaken : (n m : ℕ) (p : Progress) (db : Db P) → n ≤ m → Stands n p db → Stands m p db
    weaken n m _ _ le (arrived db done_with) = arrived db done_with
    weaken n m _ _ le (sending k c db h a below known enough) =
        sending k c db h a below known (omega (arith, enough))

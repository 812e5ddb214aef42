-- ===== src/Upload/Ends.antt =====
-- The upload of a file over a network that loses requests ends with the whole file on the server.
use better_pingvin_share.Prelude.{
  ◌+◌, ◌≡◌, refl, arith, String, true, none, some, List, ◌++◌, length, all, ltb,
}
use better_pingvin_share.Http.{done}
use better_pingvin_share.Prisma.{Prisma}
use better_pingvin_share.Schema.{Db, Share, Bytes}
use better_pingvin_share.World.{World}
use better_pingvin_share.FileStore.Local.{get}
use better_pingvin_share.Upload.{Delivery, arrives, Progress, finished, upload_file, post_chunk}
use better_pingvin_share.Share.Request.{Request}
use better_pingvin_share.Upload.Admits.{Admits}
use better_pingvin_share.Upload.Pieces.{chunk_count_pos}
use better_pingvin_share.Upload.Server.{Host, Held, chunks, file_row}
use better_pingvin_share.Upload.Rounds.{
  Complete, step, Stands, sending, arrived, none_known, arrives-Stands, lost-Stands, weaken,
}
use better_pingvin_share.Upload.Schedule.{answers, replicate, Nearing, run_nearing}

module _ {P : Prisma} (w : World) (request : Request) (share_id name : String) (file : Bytes)
    (s : Share) (host : Host w file) where
  Stands-Nearing :
      Nearing
        (Stands {P = P} w request share_id name file s)
        (chunks w file + 1)
        (step w request share_id name file s)
  Stands-Nearing = record {
    arrive = arrives-Stands w request share_id name file s host;
    lose = lost-Stands w request share_id name file s host;
    weaken = weaken w request share_id name file s host;
  }

  no_round_left :
      (p : Progress) (db : Db P)
      → Stands w request share_id name file s 0 p db
      → (p ≡ finished true) × Complete w request share_id name file s db
  no_round_left _ _ (arrived db done_with) = (refl, done_with)
  no_round_left _ _ (sending k c db h a below known enough) = absurd (ground arith)

  -- The state of both after a schedule and then enough rounds without a loss
  abbrev pub uploaded : List Delivery → Db P → Progress × Db P
  uploaded net db =
      upload_file w.config.chunk_size file (post_chunk w request share_id name)
        (net ++ replicate (chunks w file + 1) arrives) db

  -- Whatever requests the network loses at first, once it has delivered as many requests in a row
  -- as the file has chunks, and one more, the loop has returned true, and the file that the server
  -- gives under the id that it drew has all bytes of the client's file, in their order, with its
  -- name and its size. It is asked that no response is lost, that the share is there, unlocked, not removed and
  -- not expired, with a directory that has no part of the file yet, that whoever sends the requests may
  -- create shares, is taken for the owner of this one and created it, if anybody did, that the id is new
  -- and the host takes it, that files are kept on the disk, and that the file fits into the limits of the
  -- share and on the disk.
  pub upload_file_ends :
      (net : List Delivery) (db : Db P)
      → all answers net ≡ true
      → Held w share_id name file s 0 db
      → Admits w request share_id s db
      → ((uploaded net db).0 ≡ finished true)
        × (get share_id w.fresh_id (uploaded net db).1
            ≡ done (file_row w share_id name file, some file))
  unfolding upload_file
  upload_file_ends net db e h a =
      let some_chunk = chunk_count_pos (length file) w.config.chunk_size in
      let inside : ltb 0 (chunks w file) ≡ true = ground arith in
      rw inside (
        no_round_left _ _ (
          run_nearing w.config.chunk_size file (post_chunk w request share_id name)
            (Stands w request share_id name file s) (chunks w file + 1) Stands-Nearing net _ db e
            (sending 0 (record { file_id = none; index = 0 }) db h a some_chunk (none_known w)
              (ground arith))))

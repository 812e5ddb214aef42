-- ===== src/Upload/Server.antt =====
-- What the server makes of the chunks of one file, in the order of the file or not.
use better_pingvin_share.Prelude.{
  ℕ, ◌+◌, ◌*◌, ◌≤◌, ◌<◌, ◌≡◌, ◌≢◌, ap, refl, arith, String, true, false, Option, none, some, ◌++◌,
  length, length-take, take, take_all, ===-refl, ◌===◌,
}
use better_pingvin_share.Http.{done, throw, unexpected_chunk}
use better_pingvin_share.Prisma.{Prisma}
use better_pingvin_share.Schema.{Db, Share, File, Bytes}
use better_pingvin_share.World.{World}
use better_pingvin_share.Store.{files_of, find_reverse_share}
use better_pingvin_share.FileStore.Local.{
  Chunk, Created, temporary, chosen_id, size_sum, too_large, check, or_empty, put_directory,
  append_file, finish_file, is_last, receive, create, read_file, get,
}
use better_pingvin_share.FileStore.Local.Disk.{
  read_file_there, read_file_written, append_file_there, rename_there, create_file_new,
}
use better_pingvin_share.Upload.{chunk_count, slice}
use better_pingvin_share.Upload.Pieces.{
  ceil_div-mul, chunk_count_below, chunk_count_enough, append-slice, length-slice,
}
use better_pingvin_share.Upload.Turn.{too_large_monotone, check_chunk_passes, check_chunk_refuses}

-- What the theorems ask of the host for a file: chunks have a size, the id that is drawn is one that
-- the server accepts, and there is space on the disk,
-- where the configuration keeps files.
pub record Host (w : World) (file : Bytes) : Type 0 where
  pub chunk_size : 0 < w.config.chunk_size
  pub uuid : w.is_uuid w.fresh_id ≡ true
  pub not_empty : (w.fresh_id === "") ≡ false
  pub space : length file ≤ w.available_space
  pub local : w.config.s3_enabled ≡ false

module _ (w : World) (file : Bytes) where
  abbrev pub chunks : ℕ
  chunks = chunk_count (length file) w.config.chunk_size

  abbrev pub chunk_at : ℕ → Chunk
  chunk_at i = record { index = i; total = chunks }

  abbrev pub piece : ℕ → Bytes
  piece i = slice w.config.chunk_size i file

module _ (w : World) (share_id name : String) (file : Bytes) where
  -- The answer to a chunk, and the file's row
  abbrev pub created : Created
  created = record { id = w.fresh_id; name = name }

  abbrev pub file_row : File
  file_row = record { name = name; size = length file; share_id = share_id }

module _ (P : Prisma) (w : World) (file : Bytes) where
  -- The directory with the file's chunks so far, and with the whole file
  abbrev pub with_chunks : ℕ → P.Table Bytes → P.Table Bytes
  with_chunks k dir = P.write (temporary w.fresh_id) (take (k * w.config.chunk_size) file) dir

  abbrev pub with_file : P.Table Bytes → P.Table Bytes
  with_file dir = P.write w.fresh_id file (P.erase (temporary w.fresh_id) dir)

module _ {P : Prisma} where
  find_reverse_share-put :
      (o : Option String) (db : Db P) (share_id : String) (dir : P.Table Bytes)
      → find_reverse_share o (put_directory share_id dir db) ≡ find_reverse_share o db
  find_reverse_share-put none db share_id dir = refl
  find_reverse_share-put (some id) db share_id dir = refl

module _ {P : Prisma} (w : World) (share_id name : String) (file : Bytes) (s : Share) where
  -- The server holds the first `k` chunks of the file, in a share that has room for it.
  pub record Held (k : ℕ) (db : Db P) : Type 0 where
    pub share : P.find share_id db.shares ≡ some s
    pub unlocked : s.upload_locked ≡ false
    pub dir : P.Table Bytes
    pub there : P.find share_id db.disk ≡ some dir
    pub bytes : or_empty (P.find (temporary w.fresh_id) dir) ≡ take (k * w.config.chunk_size) file
    pub fits :
        too_large w
          (find_reverse_share s.reverse_share_id db)
          (size_sum (files_of share_id db) + length file)
        ≡ false
    pub unused : P.find w.fresh_id db.files ≡ none

  -- The bytes on the disk, counted
  bytes_counted :
      (k : ℕ) (db : Db P) (host : Host w file) (h : Held k db)
      → k < chunks w file
      → length (or_empty (read_file share_id (temporary w.fresh_id) db)) ≡ k * w.config.chunk_size
  bytes_counted k db host h below =
      rw (read_file_there share_id h.dir db (temporary w.fresh_id) h.there, h.bytes)
        (length-take (k * w.config.chunk_size) file (chunk_count_below _ _ k host.chunk_size below))

  check_turn :
      (k : ℕ) (db : Db P) (host : Host w file) (h : Held k db)
      → k < chunks w file
      → check w s share_id w.fresh_id (chunk_at w file k) (length (piece w file k)) db
        ≡ (done tt, db)
  unfolding check
  check_turn k db host h below =
      let inside = chunk_count_below _ _ k host.chunk_size below in
      let fit = length-slice w.config.chunk_size k file inside in
      ap (λ r. (r, db))
        (rw (bytes_counted k db host h below) (
          check_chunk_passes w s _ _ _ k (length (piece w file k)) h.unlocked
            (ceil_div-mul k w.config.chunk_size host.chunk_size) (omega (arith, host.space))
            (too_large_monotone w _ _ _ (omega arith) h.fits)))

  check_other :
      (k i n : ℕ) (db : Db P) (host : Host w file) (h : Held k db)
      → k < chunks w file
      → k ≢ i
      → check w s share_id w.fresh_id (chunk_at w file i) n db ≡ (throw (unexpected_chunk k), db)
  unfolding check
  check_other k i n db host h below other =
      ap (λ r. (r, db))
        (rw (bytes_counted k db host h below) (
          check_chunk_refuses w s _ _ _ i n k h.unlocked
            (ceil_div-mul k w.config.chunk_size host.chunk_size) other))

  append_piece :
      (k : ℕ) (db : Db P) (h : Held k db)
      → append_file share_id (temporary w.fresh_id) (piece w file k) db
        ≡ (done tt, put_directory share_id (with_chunks P w file (k + 1) h.dir) db)
  append_piece k db h =
      let joined : or_empty (P.find (temporary w.fresh_id) h.dir) ++ piece w file k
          ≡ take ((k + 1) * w.config.chunk_size) file =
        rw h.bytes (append-slice w.config.chunk_size k file) in
      rw (append_file_there share_id h.dir db (temporary w.fresh_id) (piece w file k) h.there)
        (rw joined refl)

  -- The state after the last chunk, from the directory that holds all of them
  abbrev pub stored : P.Table Bytes → Db P → Db P
  stored dir db = record (put_directory share_id (with_file P w file dir) db) {
    files = P.write w.fresh_id (file_row w share_id name file) db.files;
  }

  read_renamed :
      (dir : P.Table Bytes) (db : Db P)
      → read_file share_id w.fresh_id (put_directory share_id (with_file P w file dir) db)
        ≡ some file
  read_renamed dir db =
      read_file_written share_id w.fresh_id file (P.erase (temporary w.fresh_id) dir) db

  finish_stored :
      (dir : P.Table Bytes) (db : Db P)
      → P.find share_id db.disk ≡ some dir
      → P.find (temporary w.fresh_id) dir ≡ some file
      → P.find w.fresh_id db.files ≡ none
      → finish_file share_id w.fresh_id name db ≡ (done tt, stored dir db)
  unfolding finish_file
  finish_stored dir db there whole unused =
      rw
        (
          rename_there share_id dir db (temporary w.fresh_id) w.fresh_id file there whole,
          read_renamed dir db,
          create_file_new w.fresh_id (file_row w share_id name file)
              (put_directory share_id (with_file P w file dir) db) unused,
        )
        refl

  abbrev pub grown : ℕ → (db : Db P) → P.Table Bytes → Db P
  grown k db dir = put_directory share_id (with_chunks P w file (k + 1) dir) db

  pub receive_next :
      (k : ℕ) (db : Db P) (host : Host w file) (h : Held k db)
      → k + 1 < chunks w file
      → receive w s share_id w.fresh_id name (chunk_at w file k) (piece w file k) db
        ≡ (done (created w share_id name file), grown k db h.dir)
  unfolding receive
  receive_next k db host h below =
      let early : is_last (chunk_at w file k) ≡ false = ground arith in
      rw (check_turn k db host h (omega arith), append_piece k db h, early) refl

  pub receive_last :
      (k : ℕ) (db : Db P) (host : Host w file) (h : Held k db)
      → k + 1 ≡ chunks w file
      → receive w s share_id w.fresh_id name (chunk_at w file k) (piece w file k) db ≡ (
        done (created w share_id name file),
        stored (with_chunks P w file (k + 1) h.dir) (grown k db h.dir),
      )
  unfolding receive
  receive_last k db host h e =
      let last : is_last (chunk_at w file k) ≡ true = ground arith in
      let dir = with_chunks P w file (k + 1) h.dir in
      let all : take ((k + 1) * w.config.chunk_size) file ≡ file =
        take_all _ file (rw e (chunk_count_enough _ _ host.chunk_size)) in
      rw
        (
          check_turn k db host h (omega arith),
          append_piece k db h,
          last,
          finish_stored dir (grown k db h.dir) (simp (P.find-write, ===-refl))
              (simp (P.find-write, ===-refl, all)) h.unused,
        )
        refl

  pub receive_other :
      (k i : ℕ) (b : Bytes) (db : Db P) (host : Host w file) (h : Held k db)
      → k < chunks w file
      → k ≢ i
      → receive w s share_id w.fresh_id name (chunk_at w file i) b db
        ≡ (throw (unexpected_chunk k), db)
  unfolding receive
  receive_other k i b db host h below other =
      rw (check_other k i (length b) db host h below other) refl

  -- What the client posts comes to `receive`, whether it knows the file's id or not.
  pub create_receives :
      (k : ℕ) (id : Option String) (chunk : Chunk) (b : Bytes) (db : Db P) (h : Held k db)
      → chosen_id w id ≡ done w.fresh_id
      → create w b chunk (record { id = id; name = name }) share_id db
        ≡ receive w s share_id w.fresh_id name chunk b db
  unfolding create
  create_receives k id chunk b db h e = rw (e, h.share) refl

  pub grown-Held : (k : ℕ) (db : Db P) (h : Held k db) → Held (k + 1) (grown k db h.dir)
  grown-Held k db h = record {
    share = h.share;
    unlocked = h.unlocked;
    dir = with_chunks P w file (k + 1) h.dir;
    there = simp (P.find-write, ===-refl);
    bytes = simp (P.find-write, ===-refl);
    fits =
        rw
          (find_reverse_share-put s.reverse_share_id db share_id
            (with_chunks P w file (k + 1) h.dir))
          h.fits;
    unused = h.unused;
  }

  -- What is on the server then
  pub get-stored :
      (dir : P.Table Bytes) (db : Db P)
      → get share_id w.fresh_id (stored dir db) ≡ done (file_row w share_id name file, some file)
  unfolding get
  get-stored dir db =
      let row : P.find w.fresh_id (stored dir db).files ≡ some (file_row w share_id name file) =
        simp (P.find-write, ===-refl) in
      rw (row, get) (rw (read_renamed dir db) refl)

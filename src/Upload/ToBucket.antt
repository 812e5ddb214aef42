-- ===== src/Upload/ToBucket.antt =====
-- The upload of a file to the bucket, over a network that loses requests.
use better_pingvin_share.Prelude.{
  ℕ, zero, suc, ◌<◌, ◌≡◌, ◌⊎◌, refl, arith, String, true, false, Option, none, some, inl, inr,
  Bool-cases, ◌==◌, ===-refl, ◌===◌,
}
use better_pingvin_share.Http.{done}
use better_pingvin_share.Prisma.{Prisma}
use better_pingvin_share.Schema.{Db, Share, Bytes, MultipartUpload}
use better_pingvin_share.World.{World, numbered}
use better_pingvin_share.FileStore.S3
use better_pingvin_share.FileStore.S3.{
  begin_upload, upload_part, complete_upload, create_row, create_row_if, with_part, put_upload,
  drop_upload, put_object, objects_of, read_object,
}
use better_pingvin_share.FileStore.Local.{chosen_id, is_last}
use better_pingvin_share.FileStore.Local.Disk.{create_file_new}
use better_pingvin_share.Upload.Server.{chunks, chunk_at, piece, file_row, created}
use better_pingvin_share.Upload.Parts.{pieces, complete-pieces, with_part-pieces}

-- What the theorem asks of the host and the bucket for a file
pub record BucketHost (w : World) (file : Bytes) : Type 0 where
  pub chunk_size : 0 < w.config.chunk_size
  pub uuid : w.is_uuid w.fresh_id ≡ true
  pub not_empty : (w.fresh_id === "") ≡ false
  pub bucket : w.config.s3_enabled ≡ true
  pub sizes : w.bucket.takes_sizes (pieces w file (chunks w file)) ≡ true

abbrev pub parts_at : World → Bytes → ℕ → MultipartUpload
parts_at w file k = record { parts = numbered 0 (pieces w file k) }

module _ {P : Prisma} (w : World) (share_id name : String) (file : Bytes) where
  -- The share is there, and the id is new.
  pub record Room (s : Share) (db : Db P) : Type 0 where
    pub share : P.find share_id db.shares ≡ some s
    pub unused : P.find w.fresh_id db.files ≡ none

  -- The service remembers the first `k` pieces.
  abbrev pub Remembers : ℕ → Db P → Type 0
  Remembers k db = P.find w.fresh_id db.multipart_uploads ≡ some (parts_at w file k)

  abbrev pub begun : ℕ → Db P → Db P
  begun k db = begin_upload (chunk_at w file k) w.fresh_id db

  begun-Remembers : (k : ℕ) (db : Db P) → (k ≡ 0) ⊎ Remembers k db → Remembers k (begun k db)
  unfolding begin_upload
  begun-Remembers zero db h = simp (P.find-write, ===-refl)
  begun-Remembers (suc k) db (inl first) = absurd (omega arith)
  begun-Remembers (suc k) db (inr held) =
      let later : (suc k == 0) ≡ false = ground arith in rw later held

  pub begun-Room : (k : ℕ) (s : Share) (db : Db P) → Room s db → Room s (begun k db)
  unfolding begin_upload
  begun-Room k s db room = elim (Bool-cases (k == 0)) [
    | inl first ↦ rw first (record { share = room.share; unused = room.unused })
    | inr later ↦ rw later room
  ]

  -- One part more, and the last one
  abbrev pub longer : ℕ → Db P → Db P
  longer k db = put_upload w.fresh_id (parts_at w file (suc k)) db

  abbrev pub completed : ℕ → Db P → Db P
  completed k db = drop_upload w.fresh_id (put_object share_id name file (longer k db))

  upload_part_next :
      (k : ℕ) (db : Db P)
      → Remembers k db
      → is_last (chunk_at w file k) ≡ false
      → upload_part w share_id w.fresh_id name (chunk_at w file k) (piece w file k) db
        ≡ (done tt, longer k db)
  unfolding upload_part
  upload_part_next k db held early =
      rw (held, upload_part) (rw (early, with_part-pieces w file k) refl)

  whole :
      (k : ℕ) (db : Db P)
      → BucketHost w file
      → suc k ≡ chunks w file
      → complete_upload w share_id w.fresh_id name (parts_at w file (suc k)) (longer k db)
        ≡ (done tt, completed k db)
  unfolding complete_upload
  whole k db host over =
      let joined : w.bucket.complete (numbered 0 (pieces w file (suc k))) ≡ some file =
        complete-pieces w file (suc k) host.chunk_size host.sizes over in
      rw (joined, complete_upload) refl

  upload_part_last :
      (k : ℕ) (db : Db P)
      → BucketHost w file
      → Remembers k db
      → suc k ≡ chunks w file
      → upload_part w share_id w.fresh_id name (chunk_at w file k) (piece w file k) db
        ≡ (done tt, completed k db)
  unfolding upload_part
  upload_part_last k db host held over =
      let last : is_last (chunk_at w file k) ≡ true = ground arith in
      rw (held, upload_part) (rw (last, with_part-pieces w file k) (whole k db host over))

  -- The row of the file, of the size of the object
  abbrev pub registered : ℕ → Db P → Db P
  registered k db = record (completed k db) {
    files = P.write w.fresh_id (file_row w share_id name file) db.files;
  }

  read_object_put :
      (db : Db P) → read_object share_id name (put_object share_id name file db) ≡ some file
  read_object_put db =
      let there : P.find share_id (put_object share_id name file db).bucket
          ≡ some (P.write name file (objects_of share_id db)) =
        simp (P.find-write, ===-refl) in
      rw (there, read_object) (simp (P.find-write, ===-refl))

  create_row_done :
      (k : ℕ) (s : Share) (db : Db P)
      → Room s db
      → create_row share_id w.fresh_id name (completed k db) ≡ (done tt, registered k db)
  unfolding create_row
  create_row_done k s db room =
      rw (room.share, create_row)
        (rw (read_object_put (longer k db))
          (create_file_new w.fresh_id (file_row w share_id name file) (completed k db) room.unused))

  -- The server's answer to the piece at its turn: more are to come, or it was the last one.
  pub create_next :
      (k : ℕ) (id : Option String) (s : Share) (db : Db P)
      → Room s db
      → (k ≡ 0) ⊎ Remembers k db
      → chosen_id w id ≡ done w.fresh_id
      → suc k < chunks w file
      → S3.create w
          (piece w file k)
          (chunk_at w file k)
          (record { id = id; name = name })
          share_id
          db
        ≡ (done (created w share_id name file), longer k (begun k db))
  unfolding S3.create
  create_next k id s db room held known more =
      let early : is_last (chunk_at w file k) ≡ false = ground arith in
      rw (known, upload_part_next k (begun k db) (begun-Remembers k db held) early) (rw early refl)

  pub create_last :
      (k : ℕ) (id : Option String) (s : Share) (db : Db P)
      → BucketHost w file
      → Room s db
      → (k ≡ 0) ⊎ Remembers k db
      → chosen_id w id ≡ done w.fresh_id
      → suc k ≡ chunks w file
      → S3.create w
          (piece w file k)
          (chunk_at w file k)
          (record { id = id; name = name })
          share_id
          db
        ≡ (done (created w share_id name file), registered k (begun k db))
  unfolding S3.create
  create_last k id s db host room held known over =
      let last : is_last (chunk_at w file k) ≡ true = ground arith in
      rw (known, upload_part_last k (begun k db) host (begun-Remembers k db held) over)
        (rw (last, create_row_done k s (begun k db) (begun-Room k s db room)) refl)

  pub get_registered :
      (k : ℕ) (db : Db P)
      → S3.get share_id w.fresh_id (registered k db)
        ≡ done (file_row w share_id name file, some file)
  unfolding S3.get
  get_registered k db =
      let row : P.find w.fresh_id (registered k db).files ≡ some (file_row w share_id name file) =
        simp (P.find-write, ===-refl) in
      rw (row, S3.get) (rw (read_object_put (longer k db)) refl)

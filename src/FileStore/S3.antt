-- ===== src/FileStore/S3.antt =====
-- backend/src/file/s3.service.ts: the objects of a share in the bucket, whose keys are the share's id
-- and the file's name behind the configured path, and the multipart uploads that the service remembers by the file's id. The
-- bucket itself may refuse to complete an upload; its other calls succeed here.
use better_pingvin_share.Prelude.{
  ◌+◌, String, Bool, true, false, Option, none, some, [], ◌∷◌, ◌++◌, length, ◌==◌, if◌then◌else◌,
}
use better_pingvin_share.Http.{
  Outcome, done, throw, Handler, HttpError, not_found, type_error, system_error, prisma_error, pure,
  lift, modify, ◌>>=◌, ◌>>◌,
}
use better_pingvin_share.Prisma.{Prisma}
use better_pingvin_share.World.{World}
use better_pingvin_share.Schema.{Db, File, Bytes, MultipartUpload}
use better_pingvin_share.FileStore.Local.{
  Chunk, FileRef, Created, chosen_id, is_last, or_empty, create_file,
}

module _ {P : Prisma} where
  abbrev pub read_object : String → String → Db P → Option Bytes
  read_object share_id name db = elim (P.find share_id db.bucket) [
    | none ↦ none
    | some objects ↦ P.find name objects
  ]

  -- A deletion of an object that is not there is no error.
  abbrev pub delete_object : String → String → Db P → Db P
  delete_object share_id name db = elim (P.find share_id db.bucket) [
    | none ↦ db
    | some objects ↦ record db { bucket = P.write share_id (P.erase name objects) db.bucket }
  ]

  -- The size is that of the object.
  unfoldable pub get : String → String → Db P → Outcome (File × Option Bytes)
  get share_id id db = elim (P.find id db.files) [
    | none ↦ throw type_error
    | some f ↦ elim (read_object share_id f.name db) [
      | none ↦ throw (system_error "NoSuchKey")
      | some b ↦ done (record { name = f.name; size = length b; share_id = share_id }, some b)
    ]
  ]

  unfoldable pub remove : String → String → Handler (Db P) Unit
  remove share_id id db = elim (P.find id db.files) [
    | none ↦ (throw (not_found "File not found" none), db)
    | some f ↦ (done tt, record (delete_object share_id f.name db) { files = P.erase id db.files })
  ]

-- `parts.push(…)`
abbrev pub with_part : Chunk → Bytes → MultipartUpload → MultipartUpload
with_part chunk bytes u = record { parts = u.parts ++ (chunk.index + 1, bytes) ∷ [] }

-- What every error of the exchange with the bucket becomes, after the upload has been aborted
abbrev pub aborted : HttpError
aborted = system_error "Multipart upload failed. The upload has been aborted."

module _ {P : Prisma} where
  abbrev pub put_upload : String → MultipartUpload → Db P → Db P
  put_upload id u db = record db { multipart_uploads = P.write id u db.multipart_uploads }

  abbrev pub drop_upload : String → Db P → Db P
  drop_upload id db = record db { multipart_uploads = P.erase id db.multipart_uploads }

  -- An object under a key of the share
  abbrev pub objects_of : String → Db P → P.Table Bytes
  objects_of share_id db = elim (P.find share_id db.bucket) [ none ↦ P.empty | some t ↦ t ]

  abbrev pub put_object : String → String → Bytes → Db P → Db P
  put_object share_id name b db = record db {
    bucket = P.write share_id (P.write name b (objects_of share_id db)) db.bucket;
  }

  -- `chunk.index === 0`: the upload begins, and forgets an earlier one of the file.
  unfoldable pub begin_upload : Chunk → String → Db P → Db P
  begin_upload chunk id db =
      if chunk.index == 0 then put_upload id (record { parts = [] }) db else db

  -- The part is stored; the last one completes the upload.
  unfoldable pub complete_upload :
      World → String → String → String → MultipartUpload → Handler (Db P) Unit
  complete_upload w share_id id name u db = elim (w.bucket.complete u.parts) [
    | none ↦ (throw aborted, drop_upload id db)
    | some b ↦ (done tt, drop_upload id (put_object share_id name b db))
  ]

  unfoldable pub upload_part :
      World → String → String → String → Chunk → Bytes → Handler (Db P) Unit
  upload_part w share_id id name chunk bytes db = elim (P.find id db.multipart_uploads) [
    | none ↦ (throw aborted, db)
    | some u ↦
        let next = with_part chunk bytes u in
        if is_last chunk
        then complete_upload w share_id id name next (put_upload id next db)
        else (done tt, put_upload id next db)
  ]

  -- `getFileSize`, and the row of the file, in a share that must be there
  unfoldable pub create_row : String → String → String → Handler (Db P) Unit
  create_row share_id id name db = elim (P.find share_id db.shares) [
    | none ↦ (throw (prisma_error "P2025"), db)
    | some s ↦
        create_file id
          (record {
            name = name;
            size = length (or_empty (read_object share_id name db));
            share_id = share_id;
          })
          db
  ]

  abbrev pub create_row_if : Bool → String → String → String → Handler (Db P) Unit
  create_row_if false share_id id name db = (done tt, db)
  create_row_if true share_id id name db = create_row share_id id name db

  unfoldable pub create : World → Bytes → Chunk → FileRef → String → Handler (Db P) Created
  create w bytes chunk file share_id = do
    id ← lift (chosen_id w file.id)
    modify (begin_upload chunk id)
    upload_part w share_id id file.name chunk bytes
    create_row_if (is_last chunk) share_id id file.name
    pure (record { id = id; name = file.name })

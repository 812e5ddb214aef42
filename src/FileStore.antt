-- ===== src/FileStore.antt =====
-- backend/src/file: which storage holds the files of a share, and their removal. file.service.ts
-- chooses the storage; local.service.ts and s3.service.ts delete.
pub mod Local
pub mod S3
pub mod Isolation
pub mod Sample
pub mod Controller
use better_pingvin_share.Prelude.{String, Option, none, some, [], ◌∷◌, if◌then◌else◌, ◌===◌, truthy}
use better_pingvin_share.Http.{Outcome, done, throw, Handler, not_found, internal_server_error}
use better_pingvin_share.Prisma.{Prisma}
use better_pingvin_share.Schema.{Db, File, Bytes}
use better_pingvin_share.FileStore.Local
use better_pingvin_share.FileStore.S3
use better_pingvin_share.FileStore.Local.{Chunk, FileRef, Created}
use better_pingvin_share.World.{World}

-- A provider that is neither null nor empty
abbrev pub known : Option String → Option String
known p = if truthy p then p else none

module _ {P : Prisma} where
  -- `fs.rm(…, { recursive: true, force: true })`: no error where there is no directory.
  unfoldable pub delete_local_files : String → Handler (Db P) Unit
  delete_local_files id db = (done tt, record db { disk = P.erase id db.disk })

  -- The bucket's objects of a share. A share with none is an error.
  unfoldable pub delete_s3_files : String → Handler (Db P) Unit
  delete_s3_files id db = elim (P.find id db.bucket) [
    | none ↦ (throw (internal_server_error "Could not delete all files from S3"), db)
    | some objects ↦ elim (P.rows objects) [
      | [] ↦ (throw (internal_server_error "Could not delete all files from S3"), db)
      | f ∷ fs ↦ (done tt, record db { bucket = P.erase id db.bucket })
    ]
  ]

  -- The service that `getStorageService` gives for a provider, asked to delete
  abbrev pub delete_from : String → String → Handler (Db P) Unit
  delete_from provider id = if provider === "S3" then delete_s3_files id else delete_local_files id

  -- `deleteAllFiles` of the file service, with the provider that the caller knows or that of the row
  unfoldable pub delete_all_files : String → Option String → Handler (Db P) Unit
  delete_all_files id provider db = elim (known provider) [
    | some p ↦ delete_from p id db
    | none ↦ elim (P.find id db.shares) [
      | none ↦ (throw (not_found "Share not found" none), db)
      | some s ↦ delete_from s.storage_provider id db
    ]
  ]

  -- The row of a file, where it is one of the share
  abbrev pub file_in : String → String → Db P → Option File
  file_in share_id id db = elim (P.find id db.files) [
    | none ↦ none
    | some f ↦ if f.share_id === share_id then some f else none
  ]

  -- `get` of the file service: the row, and the stream of the bytes
  unfoldable pub get : String → String → Db P → Outcome (File × Option Bytes)
  get share_id id db = elim (file_in share_id id db) [
    | none ↦ throw (not_found "File not found" none)
    | some f ↦ elim (P.find share_id db.shares) [
      | none ↦ throw (not_found "Share not found" none)
      | some s ↦
          if s.storage_provider === "S3" then S3.get share_id id db else Local.get share_id id db
    ]
  ]

  -- `remove` of the file service
  unfoldable pub remove : String → String → Handler (Db P) Unit
  remove share_id id db = elim (file_in share_id id db) [
    | none ↦ (throw (not_found "File not found" none), db)
    | some f ↦ elim (P.find share_id db.shares) [
      | none ↦ (throw (not_found "Share not found" none), db)
      | some s ↦
          if s.storage_provider === "S3"
          then S3.remove share_id id db
          else Local.remove share_id id db
    ]
  ]

  -- `create` of the file service: the storage is that of the configuration, not that of the share.
  unfoldable pub create : World → Bytes → Chunk → FileRef → String → Handler (Db P) Created
  create w bytes chunk file share_id db =
      if w.config.s3_enabled
      then S3.create w bytes chunk file share_id db
      else Local.create w bytes chunk file share_id db

-- ===== src/FileStore/Isolation.antt =====
-- A share's files are read and removed through their own share only.
use better_pingvin_share.Prelude.{
  ◌≡◌, arith, String, false, some, inl, inr, Bool-cases, ◌===◌, eq_iff,
}
use better_pingvin_share.Prisma.{Prisma}
use better_pingvin_share.Schema.{Db, File}
use better_pingvin_share.FileStore
use better_pingvin_share.FileStore.{file_in}
use better_pingvin_share.FileStore.Local
use better_pingvin_share.FileStore.S3

module _ {P : Prisma} where
  local_remove_keeps :
      (share_id id j : String) (db : Db P)
      → (id === j) ≡ false
      → P.find j (Local.remove share_id id db).1.files ≡ P.find j db.files
  unfolding Local.remove Local.unlink
  local_remove_keeps share_id id j db other = ground (arith, P.find-erase id j db.files)

  s3_remove_keeps :
      (share_id id j : String) (db : Db P)
      → (id === j) ≡ false
      → P.find j (S3.remove share_id id db).1.files ≡ P.find j db.files
  unfolding S3.remove
  s3_remove_keeps share_id id j db other = ground (arith, P.find-erase id j db.files)

  file_in_found :
      (share_id id : String) (f g : File) (db : Db P)
      → P.find id db.files ≡ some f
      → file_in share_id id db ≡ some g
      → f.share_id ≡ share_id
  file_in_found share_id id f g db found inside = ground (arith, eq_iff f.share_id share_id)

  -- A file of one share is never removed through another share: whatever file id is asked for, the
  -- row of a file of another share stays as it was, also when the removal fails.
  pub remove_keeps_foreign :
      (share_id id j : String) (f : File) (db : Db P)
      → P.find j db.files ≡ some f
      → (f.share_id === share_id) ≡ false
      → P.find j (FileStore.remove share_id id db).1.files ≡ some f
  unfolding FileStore.remove
  remove_keeps_foreign share_id id j f db found foreign = elim (Bool-cases (id === j)) [
    | inl same ↦ ground (arith, eq_iff id j)
    | inr other ↦
        ground (arith, s3_remove_keeps share_id id j db, local_remove_keeps share_id id j db)
  ]

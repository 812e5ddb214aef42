-- ===== src/FileStore/Local/Disk.antt =====
-- The calls of the file system on a share's directory, and the row of a new file.
use better_pingvin_share.Prelude.{◌≡◌, ◌∙◌, refl, String, none, some, ◌++◌, ===-refl}
use better_pingvin_share.Http.{done, throw, prisma_error, system_error}
use better_pingvin_share.Prisma.{Prisma}
use better_pingvin_share.Schema.{Db, File, Bytes}
use better_pingvin_share.FileStore.Local.{
  or_empty, read_file, put_directory, append_file, rename, create_file,
}

module _ {P : Prisma} (share_id : String) (dir : P.Table Bytes) (db : Db P) where
  pub read_file_there :
      (name : String)
      → P.find share_id db.disk ≡ some dir
      → read_file share_id name db ≡ P.find name dir
  read_file_there name there = rw (there, read_file)

  pub find-put_directory : P.find share_id (put_directory share_id dir db).disk ≡ some dir
  find-put_directory = simp (P.find-write, ===-refl)

  pub append_file_there :
      (name : String) (bytes : Bytes)
      → P.find share_id db.disk ≡ some dir
      → append_file share_id name bytes db ≡ (
        done tt,
        put_directory share_id (P.write name (or_empty (P.find name dir) ++ bytes) dir) db,
      )
  unfolding append_file
  append_file_there name bytes there = rw (there, append_file) refl

  pub rename_there :
      (from to : String) (b : Bytes)
      → P.find share_id db.disk ≡ some dir
      → P.find from dir ≡ some b
      → rename share_id from to db
        ≡ (done tt, put_directory share_id (P.write to b (P.erase from dir)) db)
  unfolding rename
  rename_there from to b there found = rw (there, rename) (rw found refl)

module _ {P : Prisma} (share_id name : String) (b : Bytes) (dir : P.Table Bytes) (db : Db P) where
  pub read_file_written :
      read_file share_id name (put_directory share_id (P.write name b dir) db) ≡ some b
  read_file_written =
      read_file_there share_id (P.write name b dir) (put_directory share_id (P.write name b dir) db)
        name (find-put_directory share_id (P.write name b dir) db)
      ∙ simp (P.find-write, ===-refl)

module _ {P : Prisma} (share_id name : String) (db : Db P) where
  pub append_file_missing :
      (bytes : Bytes)
      → P.find share_id db.disk ≡ none
      → append_file share_id name bytes db ≡ (throw (system_error "ENOENT"), db)
  unfolding append_file
  append_file_missing bytes missing = rw (missing, append_file) refl

module _ {P : Prisma} (id : String) (f : File) (db : Db P) where
  pub create_file_new :
      P.find id db.files ≡ none
      → create_file id f db ≡ (done tt, record db { files = P.write id f db.files })
  unfolding create_file
  create_file_new unused = rw (unused, create_file) refl

  pub create_file_used :
      (old : File)
      → P.find id db.files ≡ some old
      → create_file id f db ≡ (throw (prisma_error "P2002"), db)
  unfolding create_file
  create_file_used old used = rw (used, create_file) refl

-- ===== src/FileStore/Local.antt =====
-- backend/src/file/local.service.ts: the files on the local disk. A file arrives in chunks, which are
-- appended to a temporary file that the last chunk renames. A file's body is a sequence of bytes: the
-- middleware of backend/src/app.setup.ts hands the body of an upload over as it is, so that
-- `Buffer.from(data, "base64")` copies it.

pub mod Disk
pub mod Limits
use better_pingvin_share.Prelude.{
  ℕ, ◌+◌, ◌-◌, ◌*◌, ◌/◌, String, Bool, true, false, not, ◌&&◌, ◌||◌, Option, none, some, List, [],
  ◌∷◌, ◌++◌, length, ltb, ◌==◌, ◌===◌, if◌then◌else◌, truthy,
}
use better_pingvin_share.Text.{◌⧺◌}
use better_pingvin_share.Http.{
  Outcome, done, throw, Handler, HttpError, bad_request, not_found, internal_server_error,
  payload_too_large, unexpected_chunk, system_error, type_error, prisma_error, pure, gets, lift,
  ◌>>=◌, ◌>>◌,
}
use better_pingvin_share.Prisma.{Prisma}
use better_pingvin_share.Schema.{Db, Share, ReverseShare, File, Bytes}
use better_pingvin_share.World.{World}
use better_pingvin_share.Store.{files_of, find_reverse_share}

-- The place of a chunk among all of its file, the file's name with its id where the client knows
-- one, and what the client is told.
pub record Chunk : Type 0 where
  pub index : ℕ
  pub total : ℕ

pub record FileRef : Type 0 where
  pub id : Option String
  pub name : String

pub record Created : Type 0 where
  pub id : String
  pub name : String

-- `Math.ceil(a / b)`
abbrev pub ceil_div : ℕ → ℕ → ℕ
ceil_div a b = (a + (b - 1)) / b

abbrev pub temporary : String → String
temporary id = id ⧺ ".tmp-chunk"

-- A new id where the client sends none, which an empty text is too
unfoldable pub chosen_id : World → Option String → Outcome String
chosen_id w none = done w.fresh_id
chosen_id w (some id) =
    if id === ""
    then done w.fresh_id
    else if w.is_uuid id
    then done id
    else throw (bad_request "Invalid file ID format")

abbrev pub size_sum : List (String × File) → ℕ
size_sum [] = 0
size_sum ((id, f) ∷ more) = f.size + size_sum more

-- `shareSizeSum > …`, for the configured limit and for that of the reverse share
abbrev pub exceeds_reverse_share : Option ReverseShare → ℕ → Bool
exceeds_reverse_share none n = false
exceeds_reverse_share (some r) n = ltb r.max_share_size n

abbrev pub too_large : World → Option ReverseShare → ℕ → Bool
too_large w r n = ltb w.config.max_size n || exceeds_reverse_share r n

-- The checks before a chunk of `n` bytes is written behind a temporary file of `held` bytes, in a
-- share whose complete files have `sum` bytes
unfoldable pub check_chunk :
    World → Share → Option ReverseShare → ℕ → ℕ → ℕ → ℕ → Outcome (Unit {0})
check_chunk w s r sum held index n =
    if s.upload_locked
    then throw (bad_request "Share is already completed")
    else if not (ceil_div held w.config.chunk_size == index)
    then throw (unexpected_chunk (ceil_div held w.config.chunk_size))
    else if ltb w.available_space n
    then throw (internal_server_error "Not enough space on the server")
    else if too_large w r (sum + held + n)
    then throw (payload_too_large "Max share size exceeded")
    else done tt

-- `chunk.index == chunk.total - 1`, where a total of 0 is one before every index
abbrev pub is_last : Chunk → Bool
is_last chunk = chunk.index + 1 == chunk.total

-- The bytes of a file, none where it is not there
abbrev pub or_empty : Option Bytes → Bytes
or_empty none = []
or_empty (some b) = b

module _ {P : Prisma} where
  -- A file of a share's directory
  abbrev pub read_file : String → String → Db P → Option Bytes
  read_file share_id name db = elim (P.find share_id db.disk) [
    | none ↦ none
    | some dir ↦ P.find name dir
  ]

  abbrev pub put_directory : String → P.Table Bytes → Db P → Db P
  put_directory share_id dir db = record db { disk = P.write share_id dir db.disk }

  -- `fs.appendFile`, which makes the file but not the directory
  unfoldable pub append_file : String → String → Bytes → Handler (Db P) Unit
  append_file share_id name bytes db = elim (P.find share_id db.disk) [
    | none ↦ (throw (system_error "ENOENT"), db)
    | some dir ↦ (
      done tt,
      put_directory share_id (P.write name (or_empty (P.find name dir) ++ bytes) dir) db,
    )
  ]

  -- `fs.rename` within the directory, over a file that is there
  unfoldable pub rename : String → String → String → Handler (Db P) Unit
  rename share_id from to db = elim (P.find share_id db.disk) [
    | none ↦ (throw (system_error "ENOENT"), db)
    | some dir ↦ elim (P.find from dir) [
      | none ↦ (throw (system_error "ENOENT"), db)
      | some b ↦ (done tt, put_directory share_id (P.write to b (P.erase from dir)) db)
    ]
  ]

  -- `fs.unlink`
  unfoldable pub unlink : String → String → Handler (Db P) Unit
  unlink share_id name db = elim (P.find share_id db.disk) [
    | none ↦ (throw (system_error "ENOENT"), db)
    | some dir ↦ elim (P.find name dir) [
      | none ↦ (throw (system_error "ENOENT"), db)
      | some b ↦ (done tt, put_directory share_id (P.erase name dir) db)
    ]
  ]

  -- `prisma.file.create({ data })`: the id is unique
  unfoldable pub create_file : String → File → Handler (Db P) Unit
  create_file id f db = elim (P.find id db.files) [
    | none ↦ (done tt, record db { files = P.write id f db.files })
    | some old ↦ (throw (prisma_error "P2002"), db)
  ]

  -- What the last chunk does: the file gets its name, and a row with the size that the disk tells.
  unfoldable pub finish_file : String → String → String → Handler (Db P) Unit
  finish_file share_id id name = do
    rename share_id (temporary id) id
    size ← gets (λ db. length (or_empty (read_file share_id id db)))
    create_file id (record { name = name; size = size; share_id = share_id })

  abbrev pub finish_if : Bool → String → String → String → Handler (Db P) Unit
  finish_if false share_id id name db = (done tt, db)
  finish_if true share_id id name db = finish_file share_id id name db

  unfoldable pub check : World → Share → String → String → Chunk → ℕ → Handler (Db P) Unit
  check w s share_id id chunk n db = (
    check_chunk w s (find_reverse_share s.reverse_share_id db) (size_sum (files_of share_id db))
        (length (or_empty (read_file share_id (temporary id) db))) chunk.index n,
    db,
  )

  unfoldable pub receive :
      World → Share → String → String → String → Chunk → Bytes → Handler (Db P) Created
  receive w s share_id id name chunk bytes = do
    check w s share_id id chunk (length bytes)
    append_file share_id (temporary id) bytes
    finish_if (is_last chunk) share_id id name
    pure (record { id = id; name = name })

  abbrev pub receive_in :
      World → Option Share → String → String → String → Chunk → Bytes → Handler (Db P) Created
  receive_in w none share_id id name chunk bytes db = (throw type_error, db)
  receive_in w (some s) share_id id name chunk bytes db =
      receive w s share_id id name chunk bytes db

  unfoldable pub create : World → Bytes → Chunk → FileRef → String → Handler (Db P) Created
  create w bytes chunk file share_id = do
    id ← lift (chosen_id w file.id)
    share ← gets (λ db. P.find share_id db.shares)
    receive_in w share share_id id file.name chunk bytes

  -- The row and the stream of its bytes. A file that is not there is an error of the stream.
  unfoldable pub get : String → String → Db P → Outcome (File × Option Bytes)
  get share_id id db = elim (P.find id db.files) [
    | none ↦ throw (not_found "File not found" none)
    | some f ↦ done (f, read_file share_id id db)
  ]

  unfoldable pub remove : String → String → Handler (Db P) Unit
  remove share_id id db = elim (P.find id db.files) [
    | none ↦ (throw (not_found "File not found" none), db)
    | some f ↦ (unlink share_id id >> λ d. (done tt, record d { files = P.erase id d.files })) db
  ]

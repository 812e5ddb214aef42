-- ===== src/Store.antt =====
-- Reads and writes of the tables, as the services make them through the database client: a read by
-- the key returns the row or null, an update of a row that is not there is the client's error
-- P2025, and a deletion cascades as backend/prisma/schema.prisma says.
pub mod First
use better_pingvin_share.Prelude.{String, Bool, Option, none, some, List, [], ◌∷◌, ◌++◌, ◌===◌}
use better_pingvin_share.Http.{done, throw, Handler, prisma_error}
use better_pingvin_share.Prisma.{Prisma}
use better_pingvin_share.Prisma.Keyed.{select}
use better_pingvin_share.Schema.{Db, Effect, Share, ReverseShare, File}

-- A clause that a row's owner is `id`.
abbrev pub owned_by : String → File → Bool
owned_by id f = f.share_id === id

abbrev pub first_row {ℓ} : {V : Type ℓ} → List (String × V) → Option (String × V)
first_row [] = none
first_row (r ∷ l) = some r

module _ {P : Prisma} where
  abbrev pub find_share : String → Handler (Db P) (Option Share)
  find_share id db = (done (P.find id db.shares), db)

  abbrev pub put_share : String → Share → Db P → Db P
  put_share id s db = record db { shares = P.write id s db.shares }

  -- `prisma.share.update({ where: { id }, data })`, where `data` says what becomes of a row
  abbrev pub update_share : String → (Share → Share) → Handler (Db P) Share
  update_share id f db = elim (P.find id db.shares) [
    | none ↦ (throw (prisma_error "P2025"), db)
    | some s ↦ (done (f s), put_share id (f s) db)
  ]

  -- The rows of a share's files go with the share.
  abbrev pub drop_share : String → Db P → Db P
  drop_share id db = record db {
    shares = P.erase id db.shares;
    files = P.erase_where (owned_by id) db.files;
  }

  -- `prisma.share.delete({ where: { id } })`
  abbrev pub delete_share : String → Handler (Db P) Unit
  delete_share id db = elim (P.find id db.shares) [
    | none ↦ (throw (prisma_error "P2025"), db)
    | some s ↦ (done tt, drop_share id db)
  ]

  -- The files of a share, in the order of the table.
  abbrev pub files_of : String → Db P → List (String × File)
  files_of id db = select (owned_by id) (P.rows db.files)

  abbrev pub find_reverse_share : Option String → Db P → Option ReverseShare
  find_reverse_share none db = none
  find_reverse_share (some id) db = P.find id db.reverse_shares

  -- `prisma.reverseShare.findUnique({ where: { token } })`
  abbrev pub reverse_share_by_token : String → Db P → Option (String × ReverseShare)
  reverse_share_by_token token db =
      first_row (select (λ r. r.token === token) (P.rows db.reverse_shares))

  -- `prisma.share.create({ data })`: the id is unique
  abbrev pub create_share : String → Share → Handler (Db P) Share
  create_share id s db = elim (P.find id db.shares) [
    | none ↦ (done s, put_share id s db)
    | some old ↦ (throw (prisma_error "P2002"), db)
  ]

  -- One more effect.
  abbrev pub start : Effect → Handler (Db P) Unit
  start e db = (done tt, record db { started = db.started ++ e ∷ [] })

  abbrev pub put_reverse_share : String → ReverseShare → Db P → Db P
  put_reverse_share id r db = record db { reverse_shares = P.write id r db.reverse_shares }

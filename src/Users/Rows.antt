-- ===== src/Users/Rows.antt =====
-- Reads and writes of the table of users by its other columns: `findFirst` by a clause, and `create` and
-- `update`, which refuse a row that repeats a unique column of another row
-- (backend/prisma/schema.prisma, model User). The services catch that error of the client alike.
use better_pingvin_share.Prelude.{
  String, Bool, true, false, ◌||◌, Option, none, some, List, [], ◌∷◌, if◌then◌else◌, ◌===◌, same_id,
}
use better_pingvin_share.Text.{◌⧺◌}
use better_pingvin_share.Http.{done, throw, Handler, HttpError, bad_request, prisma_error}
use better_pingvin_share.Prisma.{Prisma}
use better_pingvin_share.Prisma.Keyed.{select}
use better_pingvin_share.Schema.{Db, User}
use better_pingvin_share.Store.{first_row}
use better_pingvin_share.World.{World}

-- A user with the id of the row
abbrev pub Account : Type 0
Account = String × User

-- The rows of the others
abbrev pub others : String → List Account → List Account
others id [] = []
others id ((k, u) ∷ l) = if k === id then others id l else (k, u) ∷ others id l

abbrev pub any_row : (User → Bool) → List Account → Bool
any_row p [] = false
any_row p ((k, u) ∷ l) = p u || any_row p l

abbrev pub has_username : String → User → Bool
has_username name u = u.username === name

abbrev pub has_email : String → User → Bool
has_email email u = u.email === email

-- A column that is null repeats no other.
abbrev pub shares_ldap_dn : Option String → User → Bool
shares_ldap_dn none u = false
shares_ldap_dn (some dn) u = same_id u.ldap_dn (some dn)

-- The column of which an error P2002 speaks, by which of the three are repeated
abbrev pub repeated_column : World → Bool → Bool → Bool → Option String
repeated_column w false false false = none
repeated_column w true false false = some "username"
repeated_column w false true false = some "email"
repeated_column w false false true = some "ldapDN"
repeated_column w true true dn = some w.named_column
repeated_column w true false true = some w.named_column
repeated_column w false true true = some w.named_column

abbrev pub repeats : World → User → List Account → Option String
repeats w u l =
    repeated_column w (any_row (has_username u.username) l) (any_row (has_email u.email) l)
      (any_row (shares_ldap_dn u.ldap_dn) l)

abbrev pub already_exists : String → HttpError
already_exists column = bad_request ("A user with this " ⧺ column ⧺ " already exists")

module _ {P : Prisma} where
  -- `prisma.user.findFirst({ where })`
  abbrev pub first_user : (User → Bool) → Db P → Option Account
  first_user p db = first_row (select p (P.rows db.users))

  abbrev pub put_user : String → User → Db P → Db P
  put_user id u db = record db { users = P.write id u db.users }

  -- Another row with a column of this one
  abbrev pub conflict : World → String → User → Db P → Option String
  conflict w id u db = repeats w u (others id (P.rows db.users))

  -- `prisma.user.create({ data })` with the row's new id, its error P2002 as the services turn it
  unfoldable pub create_user : World → String → User → Handler (Db P) User
  create_user w id u db = elim (conflict w id u db) [
    | some column ↦ (throw (already_exists column), db)
    | none ↦ (done u, put_user id u db)
  ]

  -- `prisma.user.update({ where: { id }, data })`, where `data` says what becomes of the row
  unfoldable pub update_user : World → String → (User → User) → Handler (Db P) User
  update_user w id f db = elim (P.find id db.users) [
    | none ↦ (throw (prisma_error "P2025"), db)
    | some u ↦ elim (conflict w id (f u) db) [
      | some column ↦ (throw (already_exists column), db)
      | none ↦ (done (f u), put_user id (f u) db)
    ]
  ]

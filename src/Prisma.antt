-- ===== src/Prisma.antt =====
-- The database client is a package, so a table is a parameter: a type of tables for each type of
-- rows, the calls of the client that the services make on a table keyed by a unique text, and what
-- is documented of those calls. A directory of files is such a table too, keyed by the names.
use better_pingvin_share.Prelude.{String, Bool, Option, none, some, List, ◌≡◌, ◌===◌, if◌then◌else◌}
use better_pingvin_share.Prisma.Keyed.{lookup, keys, DistinctKeys}
pub mod Keyed
pub mod Assoc

-- A deletion by a `where` clause drops the row that passes the clause.
abbrev pub unless {ℓ} : {V : Type ℓ} → (V → Bool) → Option V → Option V
unless p none = none
unless p (some v) = if p v then none else some v

pub record Prisma : Type 1 where
  pub Table : Type 0 → Type 0
  pub empty : {V : Type 0} → Table V
  -- `findUnique` by the key
  pub find : {V : Type 0} → String → Table V → Option V
  -- `create`, and `update` with the whole new row
  pub write : {V : Type 0} → String → V → Table V → Table V
  -- `delete` by the key
  pub erase : {V : Type 0} → String → Table V → Table V
  -- `deleteMany` by a clause, which is also what a cascade does
  pub erase_where : {V : Type 0} → (V → Bool) → Table V → Table V
  -- `findMany` with no clause: all rows, with their keys
  pub rows : {V : Type 0} → Table V → List (String × V)
  pub find-empty : {V : Type 0} (k : String) → find k (empty {V = V}) ≡ none
  pub find-write :
      {V : Type 0} (k j : String) (v : V) (t : Table V)
      → find j (write k v t) ≡ (if k === j then some v else find j t)
  pub find-erase :
      {V : Type 0} (k j : String) (t : Table V)
      → find j (erase k t) ≡ (if k === j then none else find j t)
  pub find-erase_where :
      {V : Type 0} (p : V → Bool) (j : String) (t : Table V)
      → find j (erase_where p t) ≡ unless p (find j t)
  pub lookup-rows : {V : Type 0} (k : String) (t : Table V) → lookup k (rows t) ≡ find k t
  pub rows-DistinctKeys : {V : Type 0} (t : Table V) → DistinctKeys (rows t)

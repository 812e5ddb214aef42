-- ===== src/Prisma/Assoc.antt =====
-- Tables as association lists, to run the handlers on concrete data: the newest row of a key stands
-- first and hides older ones.
use better_pingvin_share.Prelude.{
  String, Bool, false, none, some, List, [], ◌∷◌, ◌≡◌, refl, arith, ◌===◌, if◌then◌else◌, includes,
  eq_iff,
}
use better_pingvin_share.Prisma.{Prisma, unless}
use better_pingvin_share.Prisma.Keyed.{lookup, keys, DistinctKeys, lookup_absent}

module _ {V : Type 0} where
  abbrev pub drop_key : String → List (String × V) → List (String × V)
  drop_key k [] = []
  drop_key k ((j, v) ∷ l) = if j === k then drop_key k l else (j, v) ∷ drop_key k l

  -- The rows that are not hidden.
  abbrev pub visible : List (String × V) → List (String × V)
  visible [] = []
  visible ((k, v) ∷ l) = (k, v) ∷ drop_key k (visible l)

  abbrev pub reject : (V → Bool) → List (String × V) → List (String × V)
  reject p [] = []
  reject p ((k, v) ∷ l) = if p v then reject p l else (k, v) ∷ reject p l

  pub lookup-drop_key :
      (k j : String) (l : List (String × V))
      → lookup j (drop_key k l) ≡ (if k === j then none else lookup j l)
  lookup-drop_key k j [] = ground arith
  lookup-drop_key k j ((i, v) ∷ l) =
      ground (arith, lookup-drop_key k j l, eq_iff k j, eq_iff i k, eq_iff i j)

  pub lookup-visible : (k : String) (l : List (String × V)) → lookup k (visible l) ≡ lookup k l
  lookup-visible k [] = refl
  lookup-visible k ((j, v) ∷ l) =
      ground (arith, lookup-drop_key j k (visible l), lookup-visible k l, eq_iff j k)

  includes-drop_key :
      (k j : String) (l : List (String × V))
      → includes (keys (drop_key k l)) j ≡ (if k === j then false else includes (keys l) j)
  includes-drop_key k j [] = ground arith
  includes-drop_key k j ((i, v) ∷ l) =
      ground (arith, includes-drop_key k j l, eq_iff k j, eq_iff i k, eq_iff i j)

  drop_key-DistinctKeys :
      (k : String) (l : List (String × V)) → DistinctKeys l → DistinctKeys (drop_key k l)
  drop_key-DistinctKeys k [] d = tt
  drop_key-DistinctKeys k ((j, v) ∷ l) (d, ds) =
      ground (arith, drop_key-DistinctKeys k l ds, includes-drop_key k j l)

  pub visible-DistinctKeys : (l : List (String × V)) → DistinctKeys (visible l)
  visible-DistinctKeys [] = tt
  visible-DistinctKeys ((k, v) ∷ l) = (
    ground (arith, includes-drop_key k k (visible l), eq_iff k k),
    drop_key-DistinctKeys k (visible l) (visible-DistinctKeys l),
  )

  lookup-reject :
      (p : V → Bool) (k : String) (l : List (String × V))
      → DistinctKeys l
      → lookup k (reject p l) ≡ unless p (lookup k l)
  lookup-reject p k [] d = refl
  lookup-reject p k ((j, v) ∷ l) (d, ds) =
      ground (arith, lookup-reject p k l ds, lookup_absent j l d, eq_iff j k)

-- The laws of `find` over these lists.
pub assoc-find-write :
    {V : Type 0} (k j : String) (v : V) (t : List (String × V))
    → lookup j ((k, v) ∷ t) ≡ (if k === j then some v else lookup j t)
assoc-find-write k j v t = refl

pub assoc-find-erase_where :
    {V : Type 0} (p : V → Bool) (k : String) (t : List (String × V))
    → lookup k (reject p (visible t)) ≡ unless p (lookup k t)
assoc-find-erase_where p k t =
    ground (arith, lookup-reject p k (visible t) (visible-DistinctKeys t), lookup-visible k t)

abbrev pub assoc : Prisma
assoc = record {
  Table = λ V. List (String × V);
  empty = [];
  find = λ k t. lookup k t;
  write = λ k v t. (k, v) ∷ t;
  erase = λ k t. drop_key k t;
  erase_where = λ p t. reject p (visible t);
  rows = λ t. visible t;
  find-empty = λ k. refl;
  find-write = assoc-find-write;
  find-erase = lookup-drop_key;
  find-erase_where = assoc-find-erase_where;
  lookup-rows = lookup-visible;
  rows-DistinctKeys = visible-DistinctKeys;
}

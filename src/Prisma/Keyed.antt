-- ===== src/Prisma/Keyed.antt =====
-- Lists of rows with their keys: the order in which a query returns rows.
use better_pingvin_share.Prelude.{
  true, inl, inr, Bool-cases, length, ◌==◌, String, false, Option, none, some, List, [], ◌∷◌, ◌≡◌,
  ◌===◌, if◌then◌else◌, includes, Bool, refl, arith, eq_iff,
}

module _ {ℓ} {V : Type ℓ} where
  abbrev pub lookup : String → List (String × V) → Option V
  lookup k [] = none
  lookup k ((j, v) ∷ l) = if j === k then some v else lookup k l

  abbrev pub keys : List (String × V) → List String
  keys [] = []
  keys ((j, v) ∷ l) = j ∷ keys l

  -- No key stands twice.
  abbrev pub DistinctKeys : List (String × V) → Type 0
  DistinctKeys [] = Unit
  DistinctKeys ((j, v) ∷ l) = (includes (keys l) j ≡ false) × DistinctKeys l

  -- The rows whose columns pass a clause, with their keys, in the order of the table.
  abbrev pub select : (V → Bool) → List (String × V) → List (String × V)
  select p [] = []
  select p ((k, v) ∷ l) = if p v then (k, v) ∷ select p l else select p l

  -- Is there a row, and does it pass the clause?
  abbrev pub passes : (V → Bool) → Option V → Bool
  passes p none = false
  passes p (some v) = p v

  pub lookup_absent :
      (k : String) (l : List (String × V)) → includes (keys l) k ≡ false → lookup k l ≡ none
  lookup_absent k [] h = refl
  lookup_absent k ((j, v) ∷ l) h = ground (arith, lookup_absent k l)

  -- Where no key stands twice, a key is among the selected rows exactly when its row passes.
  pub includes-keys-select :
      (p : V → Bool) (j : String) (l : List (String × V))
      → DistinctKeys l
      → includes (keys (select p l)) j ≡ passes p (lookup j l)
  includes-keys-select p j [] d = refl
  includes-keys-select p j ((k, v) ∷ l) (d, ds) =
      ground (arith, includes-keys-select p j l ds, lookup_absent k l d, eq_iff k j)

  -- The rows that a query selects are rows of the table.
  pub lookup-select :
      (p : V → Bool) (j : String) (l : List (String × V)) (v : V)
      → DistinctKeys l
      → lookup j (select p l) ≡ some v
      → lookup j l ≡ some v
  lookup-select p j [] v d h = h
  lookup-select p j ((k, u) ∷ l) v (d, ds) h = elim (Bool-cases (p u)) [
    | inl e ↦ ground (arith, lookup-select p j l v ds)
    | inr e ↦ ground (arith, lookup-select p j l v ds, lookup_absent k l d, eq_iff k j)
  ]

  pub select-DistinctKeys :
      (p : V → Bool) (l : List (String × V)) → DistinctKeys l → DistinctKeys (select p l)
  select-DistinctKeys p [] d = d
  select-DistinctKeys p ((k, u) ∷ l) (d, ds) =
      ground (arith, select-DistinctKeys p l ds, includes-keys-select p k l ds, lookup_absent k l d)

  pub select-passes :
      (p : V → Bool) (j : String) (l : List (String × V)) (v : V)
      → lookup j (select p l) ≡ some v
      → p v ≡ true
  select-passes p j [] v h = absurd (ground arith)
  select-passes p j ((k, u) ∷ l) v h = elim (Bool-cases (p u)) [
    | inl e ↦ ground (arith, select-passes p j l v)
    | inr e ↦ ground (arith, select-passes p j l v)
  ]

  pub select-keeps :
      (p : V → Bool) (j : String) (l : List (String × V)) (v : V)
      → lookup j l ≡ some v
      → p v ≡ true
      → lookup j (select p l) ≡ some v
  select-keeps p j [] v h e = h
  select-keeps p j ((k, u) ∷ l) v h e = elim (Bool-cases (k === j)) [
    | inl same ↦ ground arith
    | inr other ↦ ground (arith, select-keeps p j l v)
  ]

  -- Where more than one row is there, one is found under another key.
  pub another :
      (id : String) (m : List (String × V))
      → DistinctKeys m
      → includes (keys m) id ≡ true
      → (length m == 1) ≡ false
      → (k : String) × (v : V) × ((id === k) ≡ false) × (lookup k m ≡ some v)
  another id [] d h several = absurd (ground arith)
  another id (a ∷ []) d h several = absurd (ground arith)
  another id ((k, u) ∷ (j, v) ∷ more) (d, ds) h several = elim (Bool-cases (id === k)) [
    | inl same ↦ (
      j,
      v,
      ground (arith, eq_iff id k, eq_iff id j, eq_iff j k),
      ground (arith, eq_iff k j, eq_iff j k, eq_iff j j),
    )
    | inr other ↦ (k, u, other, ground (arith, eq_iff k k))
  ]

-- ===== src/Store/First.antt =====
-- `findFirst`: what the first row of a query is.
use better_pingvin_share.Prelude.{
  String, Bool, true, Option, none, some, List, [], ◌∷◌, ◌≡◌, ◌∙◌, inl, inr, arith, eq_iff,
  Option-cases,
}
use better_pingvin_share.Prisma.Keyed.{
  lookup, select, DistinctKeys, select-keeps, select-passes, lookup-select,
}
use better_pingvin_share.Store.{first_row}

module _ {ℓ} {V : Type ℓ} where
  pub nothing_selected :
      (l : List (String × V)) (k : String) (v : V) → first_row l ≡ none → lookup k l ≡ some v → ⊥
  nothing_selected [] k v e there = cc
  nothing_selected ((j, u) ∷ l) k v e there = cc

  lookup-first_row :
      (l : List (String × V)) (k : String) (v : V) → first_row l ≡ some (k, v) → lookup k l ≡ some v
  lookup-first_row [] k v e = cc
  lookup-first_row ((j, u) ∷ l) k v e = ground (arith, eq_iff j k, eq_iff k k)

  -- The first row of a query is a row that passes its clause.
  pub first_selected :
      (p : V → Bool) (l : List (String × V)) (k : String) (v : V)
      → DistinctKeys l
      → first_row (select p l) ≡ some (k, v)
      → (lookup k l ≡ some v) × (p v ≡ true)
  first_selected p l k v d e =
      let there = lookup-first_row (select p l) k v e in
      (lookup-select p k l v d there, select-passes p k l v there)

  same_value :
      (l : List (String × V)) (j k : String) (u v : V)
      → j ≡ k
      → lookup j l ≡ some u
      → lookup k l ≡ some v
      → ◌≡◌ {A = Option (String × V)} (some (j, u)) (some (k, v))
  same_value l j k u v e ju kv = cc

  -- The only row that passes is the first.
  pub only_selected :
      (p : V → Bool) (l : List (String × V)) (k : String) (v : V)
      → DistinctKeys l
      → lookup k l ≡ some v
      → p v ≡ true
      → ((j : String) (u : V) → lookup j l ≡ some u → p u ≡ true → j ≡ k)
      → first_row (select p l) ≡ some (k, v)
  only_selected p l k v d there passed only = elim (Option-cases (first_row (select p l))) [
    | inl nothing ↦
        absurd (nothing_selected (select p l) k v nothing (select-keeps p k l v there passed))
    | inr ((j, u), first) ↦
        let (found, passes) = first_selected p l j u d first in
        first ∙ same_value l j k u v (only j u found passes) found there
  ]

-- ===== src/ApiToken/Scopes.antt =====
-- The scopes of backend/src/apiToken/apiToken.util.ts: the valid ones among those asked for, each
-- once and in order, as a row stores them and as they are read back.
use Prim.Native.Char.{code}
use Prim.Native.String.{[], ◌∷◌}
use better_pingvin_share.Prelude.{
  String, Bool, true, false, not, ◌&&◌, ◌||◌, List, [], ◌∷◌, ◌≡◌, ◌∙◌, ap, sym, refl, arith, inl,
  inr, Bool-cases, ltb, ◌==◌, ◌===◌, eq_iff, if◌then◌else◌, keep, includes, All,
}
use better_pingvin_share.Text.{split, join, has_char}
use better_pingvin_share.ApiToken.Header.{split_whole, split_first, cons_nonempty}

abbrev pub api_token_scopes : List String
api_token_scopes =
    "shares:read" ∷ "shares:write" ∷ "files:read" ∷ "files:write" ∷ "reverseShares:read"
    ∷ "reverseShares:write" ∷ []

-- `Array.from(new Set(…))`: each text once, where it stands first
abbrev pub others : String → List String → List String
others s = keep (λ t. not (t === s))

unfoldable pub each_once : List String → List String
each_once [] = []
each_once (s ∷ more) = s ∷ others s (each_once more)

-- The order of `sort` on texts
abbrev pub at_most : String → String → Bool
at_most [] t = true
at_most (c ∷ s) [] = false
at_most (c ∷ s) (d ∷ t) = ltb (code c) (code d) || code c == code d && at_most s t

unfoldable pub insert : String → List String → List String
insert s [] = s ∷ []
insert s (t ∷ more) = if at_most s t then s ∷ t ∷ more else t ∷ insert s more

unfoldable pub sort : List String → List String
sort [] = []
sort (s ∷ more) = insert s (sort more)

unfoldable pub normalize_api_token_scopes : List String → List String
normalize_api_token_scopes scopes = sort (keep (includes api_token_scopes) (each_once scopes))

unfoldable pub serialize_api_token_scopes : List String → String
serialize_api_token_scopes scopes = join " " (normalize_api_token_scopes scopes)

unfoldable pub deserialize_api_token_scopes : String → List String
deserialize_api_token_scopes s = if s === "" then [] else normalize_api_token_scopes (split b' ' s)

-- Which scopes are there
includes-keep :
    (p : String → Bool) (s : String) (l : List String)
    → includes (keep p l) s ≡ (p s && includes l s)
includes-keep p s [] = ground arith
includes-keep p s (t ∷ more) = elim (Bool-cases (t === s)) [
  | inl same ↦
      let at_scope : t ≡ s = (eq_iff t s).0 same in
      rw at_scope (ground (arith, includes-keep p s more, eq_iff s s))
  | inr other ↦ ground (arith, includes-keep p s more)
]

includes-each_once : (s : String) (l : List String) → includes (each_once l) s ≡ includes l s
unfolding each_once
includes-each_once s [] = refl
includes-each_once s (t ∷ more) = ground (
  arith,
  includes-keep (λ u. not (u === t)) s (each_once more),
  includes-each_once s more,
  eq_iff s t,
  eq_iff t s,
)

includes-insert :
    (t s : String) (l : List String) → includes (insert t l) s ≡ (t === s || includes l s)
unfolding insert
includes-insert t s [] = refl
includes-insert t s (u ∷ more) = ground (arith, includes-insert t s more)

includes-sort : (s : String) (l : List String) → includes (sort l) s ≡ includes l s
unfolding sort
includes-sort s [] = refl
includes-sort s (t ∷ more) =
    includes-insert t s (sort more) ∙ ap (λ b. t === s || b) (includes-sort s more)

-- A scope is among the normalized ones exactly when it is valid and was asked for.
pub includes-normalize_api_token_scopes :
    (s : String) (l : List String)
    → includes (normalize_api_token_scopes l) s ≡ (includes api_token_scopes s && includes l s)
unfolding normalize_api_token_scopes
includes-normalize_api_token_scopes s l =
    includes-sort s _
    ∙ includes-keep (includes api_token_scopes) s (each_once l)
    ∙ ap (λ b. includes api_token_scopes s && b) (includes-each_once s l)

-- Scopes as one text, with a space between two of them
abbrev NoSpace : String → Type 0
NoSpace s = has_char b' ' s ≡ false

split-join :
    (s : String) (l : List String) → All NoSpace (s ∷ l) → split b' ' (join " " (s ∷ l)) ≡ s ∷ l
unfolding join
split-join s [] (h, hs) = split_whole b' ' s h
split-join s (t ∷ more) (h, hs) =
    split_first b' ' s (join " " (t ∷ more)) " " refl h ∙ ap (λ l. s ∷ l) (split-join t more hs)

each_NoSpace : (l : List String) (s : String) → All NoSpace l → includes l s ≡ true → NoSpace s
each_NoSpace [] s h e = absurd (ground arith)
each_NoSpace (t ∷ more) s (h, hs) e = elim (Bool-cases (t === s)) [
  | inl same ↦ ap (has_char b' ') (sym ((eq_iff t s).0 same)) ∙ h
  | inr other ↦ each_NoSpace more s hs (ground arith)
]

valid_NoSpace : (s : String) → includes api_token_scopes s ≡ true → NoSpace s
unfolding has_char
valid_NoSpace s e =
    each_NoSpace api_token_scopes s (refl, (refl, (refl, (refl, (refl, (refl, tt)))))) e

-- All items of a list that are valid wherever they stand
All-NoSpace :
    (l : List String)
    → ((s : String) → includes l s ≡ true → includes api_token_scopes s ≡ true)
    → All NoSpace l
All-NoSpace [] h = tt
All-NoSpace (s ∷ more) h = (
  valid_NoSpace s (h s (ground (arith, eq_iff s s))),
  All-NoSpace more (λ t e. h t (ground arith)),
)

join_nonempty :
    (s : String) (l : List String)
    → includes api_token_scopes s ≡ true
    → (join " " (s ∷ l) === "") ≡ false
unfolding join
join_nonempty [] l h = absurd (ground arith)
join_nonempty (c ∷ s) [] h = cons_nonempty c s
join_nonempty (c ∷ s) (t ∷ more) h = cons_nonempty c _

-- The text of valid scopes is read back as those scopes, in some order.
read_back :
    (l : List String)
    → ((s : String) → includes l s ≡ true → includes api_token_scopes s ≡ true)
    → (s : String) → includes (deserialize_api_token_scopes (join " " l)) s ≡ includes l s
unfolding deserialize_api_token_scopes join
read_back [] valid s = refl
read_back (t ∷ more) valid s =
    rw
      (
        join_nonempty t more (valid t (ground (arith, eq_iff t t))),
        split-join t more (All-NoSpace (t ∷ more) valid),
        includes-normalize_api_token_scopes s (t ∷ more),
      )
      (elim (Bool-cases (includes (t ∷ more) s)) [
        | inl e ↦ rw (e, valid s e) refl
        | inr e ↦ rw e (ground arith)
      ])

-- The scopes that are read back from the text that a row stores are those that were asked for and
-- are valid.
pub deserialize-serialize_api_token_scopes :
    (s : String) (l : List String)
    → includes (deserialize_api_token_scopes (serialize_api_token_scopes l)) s
      ≡ (includes api_token_scopes s && includes l s)
unfolding serialize_api_token_scopes
deserialize-serialize_api_token_scopes s l =
    read_back (normalize_api_token_scopes l)
      (λ t e. ground (arith, includes-normalize_api_token_scopes t l)) s
    ∙ includes-normalize_api_token_scopes s l

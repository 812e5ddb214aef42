-- ===== src/Oauth/Names.antt =====
-- The search for a free username ends.
use better_pingvin_share.Prelude.{
  ℕ, zero, suc, ◌+◌, ◌<◌, String, false, some, List, [], ◌∷◌, ◌≡◌, inl, inr, arith, Bool-cases,
  ◌===◌, eq_iff, refl, ap,
}
use better_pingvin_share.Text.{◌⧺◌, count_chars, count_chars-append}
use better_pingvin_share.Users.Rows.{Account, any_row, has_username}
use better_pingvin_share.Oauth.{find_username, longest, get_available_username, preferred}

-- A name that is longer than all others is free.
longer_free :
    (name : String) (rows : List Account)
    → longest rows < count_chars name
    → any_row (has_username name) rows ≡ false
unfolding longest
longer_free name [] h = refl
longer_free name ((k, u) ∷ l) h = elim (Bool-cases (u.username === name)) [
  | inl same ↦
      let e : count_chars u.username ≡ count_chars name =
        ap count_chars ((eq_iff u.username name).0 same) in
      absurd (ground arith)
  | inr other ↦ ground (arith, longer_free name l)
]

grows : (name draw : String) → count_chars name < count_chars (name ⧺ "_" ⧺ draw)
grows name draw = omega (arith, count_chars-append name ("_" ⧺ draw))

find_username_ends :
    (rounds : ℕ) (draws : ℕ → String) (i : ℕ) (rows : List Account) (name : String)
    → longest rows < rounds + count_chars name
    → (found : String) × (find_username (suc rounds) draws i rows name ≡ some found)
      × (any_row (has_username found) rows ≡ false)
unfolding find_username
find_username_ends zero draws i rows name h =
    let free = longer_free name rows (omega arith) in (name, rw free refl, free)
find_username_ends (suc rounds) draws i rows name h =
    elim (Bool-cases (any_row (has_username name) rows)) [
      | inl taken ↦ rw taken (
          find_username_ends rounds draws (i + 1) rows (name ⧺ "_" ⧺ draws i)
            (omega (arith, grows name (draws i))))
      | inr free ↦ (name, rw free refl, free)
    ]

-- The search for a username always ends, whatever names are taken and whatever is drawn, and the
-- name that it ends with is no user's. The rounds that it is given are two more than the longest
-- username has characters.
pub get_available_username_ends :
    (draws : ℕ → String) (rows : List Account) (name : String)
    → (found : String) × (get_available_username draws rows name ≡ some found)
      × (any_row (has_username found) rows ≡ false)
unfolding get_available_username
get_available_username_ends draws rows name =
    find_username_ends (suc (longest rows)) draws 0 rows (preferred name) (omega arith)

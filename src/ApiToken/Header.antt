-- ===== src/ApiToken/Header.antt =====
-- A token that is given out is read back from the header that carries it.
use Prim.Native.Char.{Char, code}
use Prim.Native.String.{[], ◌∷◌}
use better_pingvin_share.Prelude.{
  ℕ, String, false, some, [], ◌∷◌, ◌===◌, ◌≡◌, refl, arith, eq_iff, Bool-cases, inl, inr, ap,
}
use better_pingvin_share.Text.{count_chars, ◌⧺◌, split, has_char, to_lower}
use better_pingvin_share.ApiToken.{parse_api_token, token_text}

pub split_whole : (sep : ℕ) (s : String) → has_char sep s ≡ false → split sep s ≡ s ∷ []
unfolding split has_char
split_whole sep [] h = refl
split_whole sep (c ∷ s) h = ground (arith, split_whole sep s)

pub split_first :
    (sep : ℕ) (s t : String) (c : Char)
    → code c ≡ sep
    → has_char sep s ≡ false
    → split sep (s ⧺ (c ∷ t)) ≡ s ∷ split sep t
unfolding split has_char
split_first sep [] t c e h = ground (arith, e)
split_first sep (d ∷ s) t c e h = ground (arith, split_first sep s t c e)

has_char-append :
    (sep : ℕ) (s t : String)
    → has_char sep s ≡ false
    → has_char sep t ≡ false
    → has_char sep (s ⧺ t) ≡ false
unfolding has_char
has_char-append sep [] t h k = k
has_char-append sep (c ∷ s) t h k = ground (arith, has_char-append sep s t)

pub cons_nonempty : (c : Char) (s : String) → ((c ∷ s) === "") ≡ false
cons_nonempty c s = elim (Bool-cases ((c ∷ s) === "")) [
  | inl e ↦ absurd (omega (arith, ap count_chars ((eq_iff (c ∷ s) "").0 e)))
  | inr e ↦ e
]

header_split :
    (token : String)
    → has_char b' ' token ≡ false
    → split b' ' ("Bearer " ⧺ token) ≡ "Bearer" ∷ token ∷ []
unfolding has_char
header_split token h =
    rw (split_first b' ' "Bearer" token " " refl refl, split_whole b' ' token h) refl

credentials_split :
    (id secret : String)
    → has_char b'.' id ≡ false
    → has_char b'.' secret ≡ false
    → split b'.' (token_text id secret) ≡ ("psk_" ⧺ id) ∷ secret ∷ []
unfolding has_char
credentials_split id secret h k =
    rw
      (
        split_first b'.' ("psk_" ⧺ id) secret "." refl (has_char-append b'.' "psk_" id refl h),
        split_whole b'.' secret k,
      )
      refl

-- A token with an id and a non-empty secret, neither with a space or a full stop, is read back from
-- the header that carries it after the word Bearer.
pub parse_api_token-token_text :
    (id secret : String)
    → (secret === "") ≡ false
    → has_char b' ' id ≡ false
    → has_char b'.' id ≡ false
    → has_char b' ' secret ≡ false
    → has_char b'.' secret ≡ false
    → parse_api_token (some ("Bearer " ⧺ token_text id secret)) ≡ some (id, secret)
unfolding parse_api_token has_char to_lower
parse_api_token-token_text id secret nonempty i j k l =
    rw
      (
        cons_nonempty "B" _,
        header_split (token_text id secret) (
            has_char-append b' ' ("psk_" ⧺ id) _ (has_char-append b' ' "psk_" id refl i)
              (has_char-append b' ' "." secret refl k)),
        credentials_split id secret j l,
        cons_nonempty "p" ("sk_" ⧺ id ⧺ "." ⧺ secret),
        cons_nonempty "p" ("sk_" ⧺ id),
        nonempty,
      )
      refl

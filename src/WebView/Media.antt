-- ===== src/WebView/Media.antt =====
-- Types of images, sounds, films and PDF files, and the types of the tables among them.
use better_pingvin_share.Prelude.{
  String, Bool, true, false, ◌||◌, Option, none, some, List, [], ◌∷◌, ◌≡◌, ◌⊎◌, inl, inr, refl,
  arith, ◌===◌, eq_iff, not, ◌&&◌, Bool-cases,
}
use better_pingvin_share.Prisma.Keyed.{lookup}
use better_pingvin_share.WebView.Tables.{video_content_type_by_extension}
use better_pingvin_share.WebView.{
  starts_with, ends_with, is_textual_mime_type, plain_text_type, type_or,
}

-- A type of images, sounds, films or PDF files that is no XML, as image/svg+xml is
abbrev pub is_media : String → Bool
is_media t =
    starts_with "image/" t
    || starts_with "audio/" t
    || starts_with "video/" t
    || t === "application/pdf"

abbrev pub is_shown : String → Bool
is_shown t = is_media t && not (ends_with "+xml" t)

-- Plain text, or one of these types
abbrev pub IsHarmless : String → Type 0
IsHarmless t = (t ≡ plain_text_type) ⊎ (is_shown t ≡ true)

abbrev pub AllHarmless : Option String → Type 0
AllHarmless none = Unit
AllHarmless (some t) = IsHarmless t

not_textual-ends_with : (t : String) → is_textual_mime_type t ≡ false → ends_with "+xml" t ≡ false
unfolding is_textual_mime_type
not_textual-ends_with t safe = ground arith

type_or-some : (known t : String) → (t === "") ≡ false → type_or known (some t) ≡ t
type_or-some known t full = ground (arith, full)

type_or-IsHarmless : (known t : String) → is_shown t ≡ true → IsHarmless (type_or known (some t))
type_or-IsHarmless known t shown = elim (Bool-cases (t === "")) [
  | inl empty ↦
      let t_empty : t ≡ "" = (eq_iff t "").0 empty in let never = rw t_empty at shown in absurd (cc)
  | inr full ↦ rw (type_or-some known t full) (inr shown)
]

pub media-IsHarmless :
    (known t : String)
    → is_media t ≡ true
    → is_textual_mime_type t ≡ false
    → IsHarmless (type_or known (some t))
media-IsHarmless known t media safe =
    type_or-IsHarmless known t (rw (media, not_textual-ends_with t safe) refl)

unfoldable all_values : (String → Bool) → List (String × String) → Bool
all_values p [] = true
all_values p ((k, v) ∷ l) = let rest = all_values p l in p v && rest

lookup-all_values :
    (p : String → Bool) (k : String) (l : List (String × String)) (v : String)
    → all_values p l ≡ true
    → lookup k l ≡ some v
    → p v ≡ true
unfolding all_values
lookup-all_values p k [] v shown e = ground arith
lookup-all_values p k ((j, u) ∷ l) v shown e =
    let again = lookup-all_values p k l v in ground (arith, again)

all_shown_video : all_values is_shown video_content_type_by_extension ≡ true
unfolding all_values video_content_type_by_extension
all_shown_video = refl

pub video_types :
    (known extension v : String)
    → lookup extension video_content_type_by_extension ≡ some v
    → IsHarmless (type_or known (some v))
video_types known extension v e =
    type_or-IsHarmless known v
      (lookup-all_values is_shown extension video_content_type_by_extension v all_shown_video e)

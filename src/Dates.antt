-- ===== src/Dates.antt =====
-- backend/src/utils/date.util.ts: the date that a relative or absolute text stands for.
use Prim.Native.String.{[], ◌∷◌}
use better_pingvin_share.Prelude.{
  ℕ, String, Bool, true, false, ◌&&◌, Option, none, some, List, [], ◌∷◌, if◌then◌else◌, ◌===◌, ◌==◌,
  ltb,
}
use Prim.Native.Char.{code}
use better_pingvin_share.Text.{split, is_digit}
use better_pingvin_share.Http.{Outcome, done, throw, prisma_error}
use better_pingvin_share.World.{Moment}

-- Does a text begin like a pattern, in which "0" stands for any digit?
abbrev pub begins_like : String → String → Bool
begins_like [] s = true
begins_like (p ∷ ps) [] = false
begins_like (p ∷ ps) (c ∷ s) =
    (if code p == b'0' then is_digit c else code p == code c) && begins_like ps s

-- An Invalid Date is `none`.
abbrev pub relative_date : Moment → ℕ → List String → Option ℕ
relative_date m now [] = m.add_text now "" none
relative_date m now (amount ∷ []) = m.add_text now amount none
relative_date m now (amount ∷ unit ∷ more) = m.add_text now amount (some unit)

-- `date > limit` and `isSame` with an Invalid Date are false.
abbrev pub is_after : ℕ → Option ℕ → Bool
is_after limit none = false
is_after limit (some date) = ltb limit date

abbrev pub is_epoch : Option ℕ → Bool
is_epoch none = false
is_epoch (some date) = date == 0

-- A date that the database's client is given to write: it refuses an Invalid Date.
abbrev pub written_date : Option ℕ → Outcome ℕ
written_date none = throw (prisma_error "PrismaClientValidationError")
written_date (some date) = done date

-- `parseRelativeDateToAbsolute`; the first test is `/^\d{4}-\d{2}-\d{2}T/`
unfoldable pub parse_relative_date_to_absolute : Moment → ℕ → String → Option ℕ
unfolding split
parse_relative_date_to_absolute m now text =
    if text === "never"
    then some 0
    else if begins_like "0000-00-00T" text
    then (elim (m.parse_iso text) [
      | none ↦ relative_date m now (split b'-' text)
      | some date ↦ some date
    ])
    else relative_date m now (split b'-' text)

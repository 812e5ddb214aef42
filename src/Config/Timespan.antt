-- ===== src/Config/Timespan.antt =====
-- The timespans of backend/src/config/config.service.ts: `parseTimespanValue` with its units, and
-- `timespanToMinutes`. A value is a text, a number, a Boolean or null.
use Prim.Native.Char.{Char, code}
use Prim.Native.String.{[], ◌∷◌}
use better_pingvin_share.Prelude.{
  ℕ, ◌*◌, String, Bool, not, ◌&&◌, ◌||◌, Option, none, some, List, [], ◌∷◌, leb, ◌===◌,
  if◌then◌else◌, includes,
}
use better_pingvin_share.Http.{Outcome, done, throw, bad_request}
use better_pingvin_share.Text.{
  ◌⧺◌, split, trim, trim_start, is_digit, is_space, all_chars, parse_digits,
}
use better_pingvin_share.World.{Timespan}

pub data Value : Type 0 where
  text : String → Value
  number : ℕ → Value
  flag : Bool → Value
  null : Value

abbrev pub timespan_units : List String
timespan_units = "minutes" ∷ "hours" ∷ "days" ∷ "weeks" ∷ "months" ∷ "years" ∷ []

-- `TIMESPAN_IN_MINUTES`, at a unit of the list
unfoldable pub timespan_in_minutes : String → ℕ
timespan_in_minutes unit =
    if unit === "minutes"
    then 1
    else if unit === "hours"
    then 60
    else if unit === "days"
    then 60 * 24
    else if unit === "weeks"
    then 60 * 24 * 7
    else if unit === "months"
    then 60 * 24 * 30
    else 60 * 24 * 365

-- The longest beginning of characters that pass a test, and the rest
unfoldable pub span : (Char → Bool) → String → String × String
span p [] = ("", "")
span p (c ∷ s) = let (a, b) = span p s in if p c then (c ∷ a, b) else ("", c ∷ s)

abbrev pub is_lower : Char → Bool
is_lower c = leb b'a' (code c) && leb (code c) b'z'

abbrev pub is_empty : String → Bool
is_empty s = s === ""

-- The groups of `/^(\d+)\s+([a-z]+)$/`, where it matches
unfoldable pub match_timespan : String → Option (String × String)
unfolding span
match_timespan s =
    let (digits, r) = span is_digit s in
    let (spaces, unit) = span is_space r in
    if is_empty digits || is_empty spaces || is_empty unit || not (all_chars is_lower unit)
    then none
    else some (digits, unit)

abbrev pub parsed : Option (String × String) → Outcome Timespan
parsed none = throw (bad_request "Timespan config variables must use the format '<number> <unit>'")
parsed (some (digits, unit)) =
    if not (includes timespan_units unit)
    then throw (bad_request ("Unsupported timespan unit: " ⧺ unit))
    else done (record { value = parse_digits 10 0 digits; unit = unit })

unfoldable pub parse_timespan_value : Value → Outcome Timespan
parse_timespan_value (text s) = parsed (match_timespan (trim s))
parse_timespan_value (number n) = throw (bad_request "Timespan config variables must be strings")
parse_timespan_value (flag b) = throw (bad_request "Timespan config variables must be strings")
parse_timespan_value null = throw (bad_request "Timespan config variables must be strings")

unfoldable pub timespan_to_minutes : Timespan → ℕ
timespan_to_minutes t = t.value * timespan_in_minutes t.unit

-- `stringToTimespan` of backend/src/utils/date.util.ts, which the value of a timespan is read with:
-- a number or NaN, and a unit or undefined. `parseInt` skips white space and reads digits.
abbrev pub parse_int : String → Option ℕ
parse_int s =
    let (digits, rest) = span is_digit (trim_start s) in
    if is_empty digits then none else some (parse_digits 10 0 digits)

abbrev pub timespan_parts : List String → Option ℕ × Option String
timespan_parts [] = (none, none)
timespan_parts (time ∷ []) = (parse_int time, none)
timespan_parts (time ∷ unit ∷ more) = (parse_int time, some unit)

unfoldable pub string_to_timespan : String → Option ℕ × Option String
string_to_timespan s = timespan_parts (split 32 s)

-- ===== src/Text.antt =====
-- The calls of JavaScript's strings that the services make, over texts of code points: `split` and
-- `join` at one character or at "::", `trim`, `toLowerCase`, `slice`, and the digits that
-- `parseInt` and `toString` read and print. Only ASCII letters change case, and only the ASCII
-- white space is trimmed.
use Prim.Native.Char.{Char, code}
use Prim.Native.String.{[], ◌∷◌}
use better_pingvin_share.Prelude.{
  ℕ, zero, suc, ◌+◌, ◌-◌, ◌*◌, ◌/◌, ◌%◌, String, Bool, true, false, ◌&&◌, ◌||◌, Option, none, some,
  List, [], ◌∷◌, ltb, leb, ◌==◌, if◌then◌else◌, ◌≡◌, arith,
}

infixr 65 ◌⧺◌
abbrev pub ◌⧺◌ : String → String → String
[] ⧺ t = t
(c ∷ s) ⧺ t = c ∷ (s ⧺ t)

-- A list of parts with one more character before the first part.
abbrev pub grow : Char → List String → List String
grow c [] = (c ∷ []) ∷ []
grow c (p ∷ ps) = (c ∷ p) ∷ ps

-- `text.split(sep)` at a character, given by its code.
unfoldable pub split : ℕ → String → List String
split sep [] = "" ∷ []
split sep (c ∷ s) = if code c == sep then "" ∷ split sep s else grow c (split sep s)

-- `parts.join(sep)`
unfoldable pub join : String → List String → String
join sep [] = ""
join sep (p ∷ []) = p
join sep (p ∷ q ∷ ps) = p ⧺ sep ⧺ join sep (q ∷ ps)

abbrev pub is_space : Char → Bool
is_space c = code c == 32 || leb 9 (code c) && leb (code c) 13

unfoldable pub trim_start : String → String
trim_start [] = ""
trim_start (c ∷ s) = if is_space c then trim_start s else c ∷ s

-- The end is trimmed where nothing but white space follows.
unfoldable pub trim_end : String → String
trim_end [] = ""
trim_end (c ∷ s) = elim (trim_end s) [ [] ↦ if is_space c then "" else c ∷ [] | d ∷ r ↦ c ∷ d ∷ r ]

unfoldable pub trim : String → String
unfolding trim_start trim_end
trim s = trim_start (trim_end s)

-- `slice(n)` of a text
abbrev pub drop_chars : ℕ → String → String
drop_chars zero s = s
drop_chars (suc n) [] = ""
drop_chars (suc n) (c ∷ s) = drop_chars n s

-- `slice(0, indexOf(sep))`, and the whole text where the character is not there
unfoldable pub before : ℕ → String → String
before sep [] = ""
before sep (c ∷ s) = if code c == sep then "" else c ∷ before sep s

-- `includes` of a character
unfoldable pub has_char : ℕ → String → Bool
has_char sep [] = false
has_char sep (c ∷ s) = code c == sep || has_char sep s

abbrev pub count_chars : String → ℕ
count_chars [] = 0
count_chars (c ∷ s) = suc (count_chars s)

pub count_chars-append : (s t : String) → count_chars (s ⧺ t) ≡ count_chars s + count_chars t
count_chars-append [] t = omega arith
count_chars-append (c ∷ s) t = omega (arith, count_chars-append s t)

-- `replace` of all characters that fail a test by nothing, and `substring(0, n)`
abbrev pub keep_chars : (Char → Bool) → String → String
keep_chars p [] = ""
keep_chars p (c ∷ s) = if p c then c ∷ keep_chars p s else keep_chars p s

abbrev pub take_chars : ℕ → String → String
take_chars zero s = ""
take_chars (suc n) [] = ""
take_chars (suc n) (c ∷ s) = c ∷ take_chars n s

abbrev pub all_chars : (Char → Bool) → String → Bool
all_chars p [] = true
all_chars p (c ∷ s) = p c && all_chars p s

abbrev pub is_digit : Char → Bool
is_digit c = leb b'0' (code c) && leb (code c) b'9'

-- The value of a hexadecimal digit of either case, and 16 for any other character.
abbrev pub digit_value : Char → ℕ
digit_value c =
    if is_digit c
    then code c - b'0'
    else if leb b'a' (code c) && leb (code c) b'f'
    then code c - b'a' + 10
    else if leb b'A' (code c) && leb (code c) b'F'
    then code c - b'A' + 10
    else 16

-- `parseInt(text, base)` of a text of digits
unfoldable pub parse_digits : ℕ → ℕ → String → ℕ
parse_digits base acc [] = acc
parse_digits base acc (c ∷ s) = parse_digits base (acc * base + digit_value c) s

-- The character at a place, as a text.
abbrev pub char_at : String → ℕ → String
char_at [] n = ""
char_at (c ∷ s) zero = c ∷ []
char_at (c ∷ s) (suc n) = char_at s n

abbrev pub digit_text : ℕ → String
digit_text n = char_at "0123456789abcdef" n

-- `toLowerCase`
unfoldable pub to_lower : String → String
to_lower [] = ""
to_lower (c ∷ s) =
    if leb b'A' (code c) && leb (code c) b'Z'
    then char_at "abcdefghijklmnopqrstuvwxyz" (code c - b'A') ⧺ to_lower s
    else c ∷ to_lower s

-- What follows a prefix, where the text has it.
abbrev pub strip_prefix : String → String → Option String
strip_prefix [] s = some s
strip_prefix (p ∷ ps) [] = none
strip_prefix (p ∷ ps) (c ∷ s) = if code p == code c then strip_prefix ps s else none

-- The decimal text of a number, before a text; the fuel is more than its digits.
decimal_before : ℕ → ℕ → String → String
decimal_before zero n rest = rest
decimal_before (suc fuel) n rest =
    let more = decimal_before fuel (n / 10) (digit_text (n % 10) ⧺ rest) in
    if ltb n 10 then digit_text n ⧺ rest else more

-- `${n}` of a number
unfoldable pub decimal : ℕ → String
unfolding decimal_before
decimal n = decimal_before (n + 1) n ""

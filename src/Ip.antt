-- ===== src/Ip.antt =====
-- backend/src/share/shareIp.util.ts: the canonical text of an IP address, and the address of a
-- request. `undefined` is `none`. `isIP` of the host's network module is a parameter.
pub mod Run
pub mod Address
mod Tests
use mathlib.Core.Option
use better_pingvin_share.Prelude.{
  ℕ, zero, suc, ◌+◌, ◌-◌, ◌*◌, ◌/◌, ◌%◌, String, Bool, true, false, not, ◌&&◌, ◌||◌, Option, none,
  some, List, [], ◌∷◌, ◌++◌, map, length, ltb, leb, ◌==◌, ◌===◌, if◌then◌else◌,
}
use better_pingvin_share.Text.{
  split, join, count_chars, all_chars, is_digit, digit_value, parse_digits, digit_text, has_char,
  ◌⧺◌,
}

-- `values.some((v) => v === undefined) ? undefined : values`
abbrev pub all_some {ℓ} : {A : Type ℓ} → List (Option A) → Option (List A)
all_some [] = some []
all_some (none ∷ l) = none
all_some (some a ∷ l) = Option.map (λ r. a ∷ r) (all_some l)

-- `/^\d{1,3}$/`
abbrev pub is_short_number : String → Bool
is_short_number s = leb 1 (count_chars s) && leb (count_chars s) 3 && all_chars is_digit s

-- `toString(10)` of a number below 256
unfoldable pub byte_text : ℕ → String
byte_text n =
    if ltb n 10
    then digit_text n
    else if ltb n 100
    then digit_text (n / 10) ⧺ digit_text (n % 10)
    else digit_text (n / 100) ⧺ digit_text (n / 10 % 10) ⧺ digit_text (n % 10)

unfoldable pub normalize_octet : String → Option String
unfolding parse_digits byte_text
normalize_octet octet =
    if is_short_number octet
    then (let parsed = parse_digits 10 0 octet in
        if ltb 255 parsed then none else some (byte_text parsed))
    else none

unfoldable pub normalize_ipv4 : String → Option String
unfolding split join normalize_octet
normalize_ipv4 value =
    let octets = split b'.' value in
    if length octets == 4
    then Option.map (join ".") (all_some (map normalize_octet octets))
    else none

-- `(octets[0] << 8) | octets[1]` and the other half; a dotted text always has four octets here
abbrev pub octet_groups : List ℕ → List ℕ
octet_groups (a ∷ b ∷ c ∷ d ∷ []) = (a * 256 + b) ∷ (c * 256 + d) ∷ []
octet_groups _ = []

unfoldable pub ipv4_groups : String → Option (List ℕ)
unfolding normalize_ipv4
ipv4_groups segment =
    Option.map (λ v. octet_groups (map (parse_digits 10 0) (split b'.' v))) (normalize_ipv4 segment)

-- `/^[0-9a-f]{1,4}$/i`
abbrev pub is_hex_group : String → Bool
is_hex_group s =
    leb 1 (count_chars s) && leb (count_chars s) 4 && all_chars (λ c. ltb (digit_value c) 16) s

-- The groups of one segment, which an embedded IPv4 address doubles.
unfoldable pub segment_groups : String → Option (List ℕ)
unfolding ipv4_groups has_char
segment_groups segment =
    if segment === ""
    then none
    else if has_char b'.' segment
    then ipv4_groups segment
    else if is_hex_group segment
    then some (parse_digits 16 0 segment ∷ [])
    else none

abbrev pub join_groups : Option (List ℕ) → Option (List ℕ) → Option (List ℕ)
join_groups (some g) (some r) = some (g ++ r)
join_groups none r = none
join_groups (some g) none = none

abbrev pub segments_groups : List String → Option (List ℕ)
unfolding segment_groups
segments_groups [] = some []
segments_groups (s ∷ l) = join_groups (segment_groups s) (segments_groups l)

unfoldable pub parse_ipv6_part : String → Option (List ℕ)
unfolding segment_groups split
parse_ipv6_part part = if part === "" then some [] else segments_groups (split b':' part)

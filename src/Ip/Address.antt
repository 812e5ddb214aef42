-- ===== src/Ip/Address.antt =====
-- `normalizeIpv6`, `normalizeIpAddress` and `getRequestIpAddress` of shareIp.util.ts.
use Prim.Native.Char.{code}
use Prim.Native.String.{[], ◌∷◌}
use better_pingvin_share.Prelude.{
  ℕ, ◌-◌, String, Bool, true, false, not, ◌&&◌, Option, none, some, List, [], ◌∷◌, ◌++◌, length,
  leb, ◌==◌, ◌===◌, if◌then◌else◌, all,
}
use better_pingvin_share.Text.{
  split, trim, before, has_char, all_chars, is_digit, to_lower, grow, strip_prefix,
}
use better_pingvin_share.Ip.{is_short_number, normalize_ipv4, parse_ipv6_part}
use better_pingvin_share.Ip.Run.{serialize_ipv6}

-- `split("::")`
unfoldable pub split_double : String → List String
split_double [] = "" ∷ []
split_double (c ∷ []) = (c ∷ []) ∷ []
split_double (c ∷ d ∷ s) =
    let closed = split_double s in
    let longer = split_double (d ∷ s) in
    if code c == b':' && code d == b':' then "" ∷ closed else grow c longer

abbrev zeros : ℕ → List ℕ
zeros ℕ.zero = []
zeros (ℕ.suc n) = 0 ∷ zeros n

-- The eight groups of the parts around "::", or of the one part.
abbrev pub fill_groups : Bool → List ℕ → List ℕ → Option (List ℕ)
fill_groups true left right = if length (left ++ right) == 8 then some (left ++ right) else none
fill_groups false left right =
    if leb 8 (length (left ++ right))
    then none
    else some (left ++ zeros (8 - length (left ++ right)) ++ right)

abbrev pub check_groups : List ℕ → Option String
check_groups groups =
    if length groups == 8 && all (λ g. leb g 65535) groups
    then some (serialize_ipv6 groups)
    else none

abbrev pub both_groups : Bool → Option (List ℕ) → Option (List ℕ) → Option String
both_groups single (some left) (some right) = elim (fill_groups single left right) [
  | none ↦ none
  | some groups ↦ check_groups groups
]
both_groups single none right = none
both_groups single (some left) none = none

abbrev pub normalize_ipv6_parts : List String → Option String
normalize_ipv6_parts [] = none
normalize_ipv6_parts (left ∷ []) = both_groups true (parse_ipv6_part left) (some [])
normalize_ipv6_parts (left ∷ right ∷ []) =
    both_groups false (parse_ipv6_part left) (parse_ipv6_part right)
normalize_ipv6_parts (left ∷ right ∷ more) = none

unfoldable pub normalize_ipv6 : String → Option String
unfolding split_double to_lower parse_ipv6_part serialize_ipv6
normalize_ipv6 value = normalize_ipv6_parts (split_double (to_lower value))

-- What `/^\[([^[\]]+)\](?::\d+)?$/` captures: the text between the brackets.
abbrev is_port_suffix : String → Bool
is_port_suffix [] = true
is_port_suffix (c ∷ []) = false
is_port_suffix (c ∷ d ∷ s) = code c == b':' && (is_digit d && all_chars is_digit s)

abbrev bracket_rest : String → Option String
bracket_rest [] = none
bracket_rest (c ∷ s) =
    if code c == b']'
    then (if is_port_suffix s then some "" else none)
    else if code c == b'['
    then none
    else elim (bracket_rest s) [ none ↦ none | some r ↦ some (c ∷ r) ]

abbrev not_empty : Option String → Option String
not_empty none = none
not_empty (some s) = if s === "" then none else some s

abbrev pub bracketed : String → Option String
bracketed [] = none
bracketed (c ∷ s) = if code c == b'[' then not_empty (bracket_rest s) else none

-- What `/^(\d{1,3}(?:\.\d{1,3}){3}):(\d+)$/` captures first: the address before a port.
abbrev without_port : List String → Option String
unfolding split
without_port (address ∷ port ∷ []) =
    if length (split b'.' address) == 4
      && (all is_short_number (split b'.' address)
          && (not (port === "") && all_chars is_digit port))
    then some address
    else none
without_port _ = none

abbrev or_self : Option String → String → String
or_self none s = s
or_self (some r) s = r

-- The text that `isIP` is asked about, from a trimmed text.
unfoldable pub address_text : String → String
unfolding trim before has_char split
address_text trimmed =
    let first = if has_char b',' trimmed then trim (before b',' trimmed) else trimmed in
    let unbracketed = or_self (bracketed first) first in
    let zoneless = before b'%' unbracketed in or_self (without_port (split b':' zoneless)) zoneless

abbrev mapped_ipv4 : Option String → Option String
mapped_ipv4 none = none
mapped_ipv4 (some rest) = normalize_ipv4 rest

module _ (is_ip : String → ℕ) where
  abbrev by_family : String → Option String
  by_family s =
      if is_ip s == 4 then normalize_ipv4 s else if is_ip s == 6 then normalize_ipv6 s else none

  abbrev from_text : String → Option String
  from_text s = elim (mapped_ipv4 (strip_prefix "::ffff:" s)) [
    | none ↦ by_family s
    | some v ↦ some v
  ]

  unfoldable pub normalize_ip_address : Option String → Option String
  unfolding trim address_text normalize_ipv4 normalize_ipv6
  normalize_ip_address none = none
  normalize_ip_address (some value) =
      if trim value === "" then none else from_text (address_text (trim value))

  -- The address in the forwarding header, if it is there, and else that of the connection.
  unfoldable pub get_request_ip_address : Option String → Option String → Option String
  unfolding normalize_ip_address
  get_request_ip_address (some forwarded_for) ip = normalize_ip_address (some forwarded_for)
  get_request_ip_address none ip = normalize_ip_address ip

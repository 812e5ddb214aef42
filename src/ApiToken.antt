-- ===== src/ApiToken.antt =====
-- backend/src/apiToken: the tokens of the automation interface. apiToken.util.ts reads a header and
-- normalizes scopes, guard/apiScope.guard.ts and guard/apiV1Throttler.guard.ts admit requests.
mod Tests
pub mod Throttle
pub mod Header
pub mod Scopes
pub mod Service
use better_pingvin_share.Prelude.{
  ℕ, ◌+◌, ◌*◌, String, Bool, true, false, not, ◌&&◌, ◌||◌, Option, none, some, List, [], ◌∷◌, ◌++◌,
  ltb, leb, ◌===◌, if◌then◌else◌, length, keep, all, includes, truthy,
}
use better_pingvin_share.Http.{
  Outcome, done, throw, Handler, pure, raise, forbidden, too_many_requests, bad_request,
}
use better_pingvin_share.Text.{◌⧺◌, split, before, trim, to_lower, strip_prefix}

-- The parts of a request that the interface's guards read
pub record ApiRequest : Type 0 where
  pub method : String
  pub authorization : Option String
  pub forwarded_for : Option String
  pub ip : Option String

pub record ApiRateLimitPolicy : Type 0 where
  pub name : String
  pub limit : ℕ
  pub ttl_seconds : ℕ

-- A token's id and its secret, of the second part of the header; both parts of it must be there.
abbrev pub credentials_token : List String → Option (String × String)
credentials_token [] = none
credentials_token (a ∷ []) = none
credentials_token (prefixed ∷ secret ∷ rest) =
    if prefixed === "" || secret === ""
    then none
    else elim (strip_prefix "psk_" prefixed) [ none ↦ none | some id ↦ some (id, secret) ]

abbrev pub header_token : List String → Option (String × String)
header_token [] = none
header_token (a ∷ []) = none
header_token (scheme ∷ credentials ∷ rest) =
    if scheme === "" || (credentials === "" || not (to_lower scheme === "bearer"))
    then none
    else credentials_token (split b'.' credentials)

unfoldable pub parse_api_token : Option String → Option (String × String)
parse_api_token none = none
parse_api_token (some header) = if header === "" then none else header_token (split b' ' header)

-- The text of a token that `createForUser` of apiToken.service.ts gives out.
abbrev pub token_text : String → String → String
token_text id secret = "psk_" ⧺ id ⧺ "." ⧺ secret

-- The address that a proxy forwards, and else that of the connection
abbrev pub forwarded_address : ApiRequest → Option String
forwarded_address request = elim request.forwarded_for [
  | none ↦ request.ip
  | some text ↦ some (trim (before b',' text))
]

abbrev pub token_or_address : Option (String × String) → Option String → String
token_or_address (some (id, secret)) address = id
token_or_address none (some address) = address
token_or_address none none = "unknown"

unfoldable pub build_identifier : ApiRequest → String → String
build_identifier request policy_name =
    policy_name
    ⧺ ":"
    ⧺ token_or_address (parse_api_token request.authorization) (forwarded_address request)

-- The times of the requests let through, oldest first, by identifier; `?? []` where there are none.
abbrev pub Requests : Type 0
Requests = String → List ℕ

-- `timestamp > now - ttlMs`
abbrev pub is_recent : ℕ → ℕ → ℕ → Bool
is_recent ttl now timestamp = ltb now (timestamp + ttl)

-- `canActivate` of the throttler at a time, with the policy of the handler, if it has one
unfoldable pub throttle : Option ApiRateLimitPolicy → ℕ → ApiRequest → Handler Requests Bool
throttle policy now request requests =
    if request.method === "OPTIONS" then (done true, requests) else elim policy [
      | none ↦ (done true, requests)
      | some p ↦
          let identifier = build_identifier request p.name in
          let timestamps = keep (is_recent (p.ttl_seconds * 1000) now) (requests identifier) in
          if leb p.limit (length timestamps)
          then (throw (too_many_requests "Too many requests"), requests)
          else (done true, λ j. if identifier === j then timestamps ++ (now ∷ []) else requests j)
    ]

-- `canActivate` of the scope guard: the scopes that the handler requires, if it names any, and those
-- of the token, if there is one
unfoldable pub api_scope_guard : Option (List String) → Option (List String) → Outcome Bool
api_scope_guard none scopes = done true
api_scope_guard (some []) scopes = done true
api_scope_guard (some (r ∷ required)) none = throw (forbidden "API scopes unavailable" none)
api_scope_guard (some (r ∷ required)) (some scopes) =
    if all (includes scopes) (r ∷ required)
    then done true
    else throw (forbidden "API token scope insufficient" none)

-- ===== src/Share/Security.antt =====
-- `normalizeShareSecurity` and `createSecurityUpdateInput` of backend/src/share/share.service.ts:
-- the security row that a request for a new or a changed share asks for. A field of the request is
-- `none` where it is undefined; in an update `some none` is null.
use better_pingvin_share.Prelude.{
  ℕ, String, Bool, true, false, not, ◌&&◌, Option, none, some, List, [], ◌∷◌, map, keep,
  if◌then◌else◌, ◌===◌, truthy, truthy_number,
}
use better_pingvin_share.Http.{Outcome, done, throw, and_then, HttpError, bad_request}
use better_pingvin_share.Schema.{ShareSecurity}
use better_pingvin_share.World.{World}
use better_pingvin_share.Text.{trim, ◌⧺◌}
use better_pingvin_share.Ip.Address.{normalize_ip_address}
use better_pingvin_share.Share.IpAccess.{is_empty}

-- `[...new Set(values)]`: each value once, in the order of its first place.
abbrev pub distinct : List String → List String
distinct [] = []
distinct (x ∷ xs) = x ∷ keep (λ y. not (y === x)) (distinct xs)

abbrev pub all_done : List (Outcome String) → Outcome (List String)
all_done [] = done []
all_done (throw e ∷ l) = throw e
all_done (done a ∷ l) = elim (all_done l) [ done r ↦ done (a ∷ r) | throw e ↦ throw e ]

-- What becomes of one address of a request.
unfoldable pub normalized_or_error : World → String → Outcome String
normalized_or_error w ip = elim (normalize_ip_address w.is_ip (some ip)) [
  | none ↦ throw (bad_request ("Invalid IP address: " ⧺ ip))
  | some normalized ↦
      if normalized === ""
      then throw (bad_request ("Invalid IP address: " ⧺ ip))
      else done normalized
]

-- `normalizeAllowedIps`, and the same lines of `normalizeShareSecurity`
unfoldable pub normalize_allowed_ips : World → List String → Outcome (List String)
normalize_allowed_ips w ips =
    and_then (all_done (map (normalized_or_error w) (keep (λ ip. not (ip === "")) (map trim ips))))
      λ l. done (distinct l)

abbrev pub combination_error : HttpError
combination_error = bad_request "Cannot combine a maximum IP limit with specific IP addresses"

-- `ShareSecurityDTO`
pub record SecurityInput : Type 0 where
  pub password : Option String
  pub max_views : Option ℕ
  pub max_ips : Option ℕ
  pub allowed_ips : Option (List String)

abbrev pub or_none : Option (List String) → List String
or_none none = []
or_none (some l) = l

-- `password || undefined`
abbrev pub or_undefined : Option String → Option String
or_undefined p = if truthy p then p else none

abbrev pub is_some {ℓ} : {A : Type ℓ} → Option A → Bool
is_some none = false
is_some (some a) = true

-- The rest of `normalizeShareSecurity`, once the addresses are normal.
unfoldable pub with_allowed_ips : SecurityInput → List String → Outcome (Option ShareSecurity)
with_allowed_ips input allowed =
    if truthy_number input.max_ips && not (is_empty allowed)
    then throw combination_error
    else if not (truthy input.password)
        && (not (is_some input.max_views) && (not (is_some input.max_ips) && is_empty allowed))
    then done none
    else done (
        some record {
          password = or_undefined input.password;
          max_views = input.max_views;
          max_ips = input.max_ips;
          allowed_ips = allowed;
          assigned_ips = [];
        })

unfoldable pub normalize_share_security :
    World → Option SecurityInput → Outcome (Option ShareSecurity)
normalize_share_security w none = done none
normalize_share_security w (some input) =
    and_then (normalize_allowed_ips w (or_none input.allowed_ips))
      λ allowed. with_allowed_ips input allowed

-- `UpdateShareSecurityDTO`: which fields the request has, and whether they are null.
pub record SecurityUpdate : Type 0 where
  pub password : Option (Option String)
  pub max_views : Option (Option ℕ)
  pub max_ips : Option (Option ℕ)
  pub allowed_ips : Option (Option (List String))

-- `getSecurityPasswordUpdate`
abbrev pub password_update : World → Option String → Option String
password_update w none = none
password_update w (some p) = if p === "" then none else some (w.argon.hash w.salt p)

-- A field that the request has, or else the present one.
abbrev pub or_current {ℓ} : {A : Type ℓ} → Option (Option A) → Option A → Option A
or_current none current = current
or_current (some new) current = new

abbrev pub flat {ℓ} : {A : Type ℓ} → Option (Option A) → Option A
flat none = none
flat (some o) = o

-- What the client is told to do with the security row.
pub data SecurityWrite : Type 0 where
  leave : SecurityWrite
  delete : SecurityWrite
  upsert : ShareSecurity → (ShareSecurity → ShareSecurity) → SecurityWrite

abbrev pub current_password : Option ShareSecurity → Option String
current_password none = none
current_password (some sec) = sec.password

abbrev pub current_max_views : Option ShareSecurity → Option ℕ
current_max_views none = none
current_max_views (some sec) = sec.max_views

abbrev pub current_max_ips : Option ShareSecurity → Option ℕ
current_max_ips none = none
current_max_ips (some sec) = sec.max_ips

abbrev pub current_allowed_ips : Option ShareSecurity → List String
current_allowed_ips none = []
current_allowed_ips (some sec) = sec.allowed_ips

-- ===== src/World.antt =====
-- What the services take from outside: the configuration (config/config.service.ts reads it from
-- the database at start), the clock and the date arithmetic of the date package, the token signer
-- and the password hasher. Dates are milliseconds since 1970, and `moment(0)` is 0. One handler
-- reads the clock once: `now` stands for every `moment()` and `new Date()` in it.
pub mod Example
use better_pingvin_share.Prelude.{
  List, [], ◌∷◌, concat, ℕ, ◌+◌, ◌/◌, ◌≤◌, Bool, true, false, not, ◌&&◌, Option, none, some, String,
  ◌≡◌, leb, if◌then◌else◌,
}

-- `Timespan` of utils/date.util.ts: an amount and a unit.
pub record Timespan : Type 0 where
  pub value : ℕ
  pub unit : String

pub record Config : Type 0 where
  pub allow_unauthenticated_shares : Bool
  pub allow_admin_access_all_shares : Bool
  pub expired_editable_period : Timespan
  pub file_retention_period : Timespan
  pub max_expiration : Timespan
  pub max_size : ℕ
  pub chunk_size : ℕ
  pub s3_enabled : Bool
  pub smtp_enabled : Bool
  pub session_duration : Timespan
  pub oauth_disable_password : Bool
  pub oauth_ignore_totp : Bool
  pub ldap_enabled : Bool
  pub jwt_secret : String
  pub api_token_secret : String
  pub app_url : String
  pub enable_share_email_recipients : Bool
  pub ldap_search_base : String
  -- the search query with a name in place of %username%
  pub ldap_search_query : String → String
  pub ldap_admin_groups : String
  pub ldap_field_name_member_of : String
  pub ldap_field_name_email : String
  pub oauth_allow_registration : Bool
  pub oauth_enabled : String → Bool

-- The claims that the services put into a signed token and read back: those of an access token and
-- those of the two kinds of share tokens.
pub data Claims : Type 0 where
  access : String → Bool → String → Claims
  share_visitor : String → ℕ → Claims
  share_owner : String → ℕ → Claims

-- The package's clock arithmetic: `moment(d).add(value, unit)` and `.subtract`. An amount added is
-- never before the date itself; a timespan of the configuration leads to no Invalid Date.
pub record Moment : Type 0 where
  pub add : ℕ → Timespan → ℕ
  pub subtract : ℕ → Timespan → ℕ
  -- `moment(d).add("30", "days")`, on the first two parts of a relative date, if that is a date that
  -- JavaScript can hold; else it is an Invalid Date
  pub add_text : ℕ → String → Option String → Option ℕ
  -- `moment(text)` for a text that begins like an ISO date, if it is valid; none is before 1970
  pub parse_iso : String → Option ℕ
  pub le-add : (d : ℕ) (t : Timespan) → d ≤ add d t

-- `CompleteMultipartUpload` of the bucket, over parts with their numbers: the object that they make,
-- or a refusal. Parts numbered from 1 on in their order make the object of all their bytes, where
-- the bucket takes parts of these sizes.
abbrev pub numbered : ℕ → List (List ℕ) → List (ℕ × List ℕ)
numbered i [] = []
numbered i (piece ∷ more) = (i + 1, piece) ∷ numbered (i + 1) more

pub record Bucket : Type 0 where
  pub takes_sizes : List (List ℕ) → Bool
  pub complete : List (ℕ × List ℕ) → Option (List ℕ)
  pub complete-numbered :
      (piece : List ℕ) (more : List (List ℕ))
      → takes_sizes (piece ∷ more) ≡ true
      → complete (numbered 0 (piece ∷ more)) ≡ some (concat (piece ∷ more))

-- Has a token expired that was issued at a second `iat` with `expiresIn`? `now` is in milliseconds.
abbrev pub jwt_expired : ℕ → Option ℕ → ℕ → Bool
jwt_expired iat none now = false
jwt_expired iat (some expires_in) now = leb (iat + expires_in) (now / 1000)

-- The token signer: `sign(claims, {secret, expiresIn})` at a second, and
-- `verify(token, {secret, ignoreExpiration})` at a time. A signed token verifies under its secret,
-- with the claims that were signed, unless it has expired and the expiry counts.
pub record Jwt : Type 0 where
  pub sign : String → Claims → ℕ → Option ℕ → String
  pub verify : String → Bool → ℕ → String → Option Claims
  pub verify-sign :
      (secret : String) (c : Claims) (iat : ℕ) (expires_in : Option ℕ) (ignore : Bool) (now : ℕ)
      → verify secret ignore now (sign secret c iat expires_in)
        ≡ (if not ignore && jwt_expired iat expires_in now then none else some c)
  -- `decode(token)`, which asks neither for the secret nor for the time
  pub decode : String → Option Claims
  pub decode-sign :
      (secret : String) (c : Claims) (iat : ℕ) (expires_in : Option ℕ)
      → decode (sign secret c iat expires_in) ≡ some c

pub record Argon : Type 0 where
  -- the hash of a password under a salt, which each call draws anew
  pub hash : ℕ → String → String
  pub verify : String → String → Bool
  pub verify-hash : (salt : ℕ) (p : String) → verify (hash salt p) p ≡ true

pub record World : Type 0 where
  pub now : ℕ
  pub salt : ℕ
  pub fresh_id : String
  -- the id of a new user and that of a new link of an account, and `crypto.randomUUID()`
  pub fresh_user_id : String
  pub fresh_link_id : String
  pub random_uuid : String
  -- the draws of `nanoid(10)`, one after the other, without their dashes
  pub nanoid : ℕ → String
  -- the column that the database's client names where a row repeats more than one unique column
  pub named_column : String
  -- `validate` of the uuid package, and `bavail * bsize` of the file system of the shares
  pub is_uuid : String → Bool
  pub available_space : ℕ
  -- `createHmac("sha256", key).update(text).digest("hex")` of a text under a key, fresh random bytes
  -- as a text, and `new Date(text)` where it is a date
  pub hmac : String → String → String
  pub random_text : String
  pub parse_date : String → Option ℕ
  -- `isIP` of the host's network module
  pub is_ip : String → ℕ
  pub encode_uri_component : String → String
  -- does the mail transport deliver to an address?
  pub delivers_to : String → Bool
  pub config : Config
  pub moment : Moment
  pub jwt : Jwt
  pub argon : Argon
  pub bucket : Bucket

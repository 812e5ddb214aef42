-- ===== src/World/Example.antt =====
-- Simple stand-ins for the packages, which meet what is documented of them, to run the handlers on
-- concrete data: a token spells out its claims, and a hash its password.
use Prim.Native.Char.{code}
use Prim.Native.String.{[], ◌∷◌}
use better_pingvin_share.Prelude.{
  List, [], ◌∷◌, ◌++◌, concat, ap, ℕ, zero, suc, ◌+◌, ◌-◌, ◌≤◌, String, Bool, true, false, not,
  ◌&&◌, Option, none, some, ◌≡◌, refl, arith, ◌==◌, ◌===◌, ===-refl, if◌then◌else◌,
}
use better_pingvin_share.Text.{◌⧺◌}
use better_pingvin_share.World.{
  Timespan, Config, Claims, access, share_visitor, share_owner, Moment, Jwt, jwt_expired, Argon,
  Bucket, numbered, World,
}

-- A text, each character after a mark, and a number in unary, before the rest of a text.
abbrev put_text : String → String → String
put_text [] rest = "0" ⧺ rest
put_text (c ∷ s) rest = "1" ⧺ (c ∷ put_text s rest)

abbrev get_text : String → String × String
get_text [] = ("", "")
get_text (b ∷ []) = ("", "")
get_text (b ∷ c ∷ r) = let (s, q) = get_text r in if code b == b'0' then ("", c ∷ r) else (c ∷ s, q)

get_text-put_text : (s rest : String) → get_text (put_text s rest) ≡ (s, rest)
get_text-put_text [] [] = refl
get_text-put_text [] (d ∷ rest) = refl
get_text-put_text (c ∷ s) rest = rw (get_text-put_text s rest) refl

abbrev put_number : ℕ → String → String
put_number zero rest = "0" ⧺ rest
put_number (suc n) rest = "1" ⧺ put_number n rest

abbrev get_number : String → ℕ × String
get_number [] = (0, "")
get_number (b ∷ r) = let (n, q) = get_number r in if code b == b'0' then (0, r) else (suc n, q)

get_number-put_number : (n : ℕ) (rest : String) → get_number (put_number n rest) ≡ (n, rest)
get_number-put_number zero rest = refl
get_number-put_number (suc n) rest = rw (get_number-put_number n rest) refl

-- The fields of the claims and of the options, in a row
abbrev kind_of : Claims → ℕ
kind_of (access user is_admin id) = 0
kind_of (share_visitor id created) = 1
kind_of (share_owner id created) = 2

abbrev claims_of : ℕ → String → String → ℕ → Claims
claims_of zero a b n = access a (n == 1) b
claims_of (suc zero) a b n = share_visitor a n
claims_of (suc (suc k)) a b n = share_owner a n

abbrev subject_of : Claims → String
subject_of (access user is_admin id) = user
subject_of (share_visitor id created) = id
subject_of (share_owner id created) = id

abbrev refresh_of : Claims → String
refresh_of (access user is_admin id) = id
refresh_of (share_visitor id created) = ""
refresh_of (share_owner id created) = ""

abbrev number_of : Claims → ℕ
number_of (access user is_admin id) = if is_admin then 1 else 0
number_of (share_visitor id created) = created
number_of (share_owner id created) = created

claims_of-fields :
    (c : Claims) → claims_of (kind_of c) (subject_of c) (refresh_of c) (number_of c) ≡ c
claims_of-fields (access user true id) = refl
claims_of-fields (access user false id) = refl
claims_of-fields (share_visitor id created) = refl
claims_of-fields (share_owner id created) = refl

abbrev seconds_of : Option ℕ → ℕ
seconds_of none = 0
seconds_of (some n) = suc n

abbrev option_of : ℕ → Option ℕ
option_of zero = none
option_of (suc n) = some n

option_of-seconds_of : (o : Option ℕ) → option_of (seconds_of o) ≡ o
option_of-seconds_of none = refl
option_of-seconds_of (some n) = refl

abbrev sign_plainly : String → Claims → ℕ → Option ℕ → String
sign_plainly secret c iat expires_in = put_number (kind_of c) (
    put_text (subject_of c) (
      put_text (refresh_of c)
        (put_number (number_of c) (put_number iat (put_number (seconds_of expires_in) "")))))

abbrev read_plainly : Bool → ℕ → String → Option Claims
read_plainly ignore now token =
    let (kind, r) = get_number token in
    let (subject, r') = get_text r in
    let (refresh, r'') = get_text r' in
    let (n, s) = get_number r'' in
    let (iat, s') = get_number s in
    let (seconds, s'') = get_number s' in
    if not ignore && jwt_expired iat (option_of seconds) now
    then none
    else some (claims_of kind subject refresh n)

pub read-sign_plainly :
    (secret : String) (c : Claims) (iat : ℕ) (expires_in : Option ℕ) (ignore : Bool) (now : ℕ)
    → read_plainly ignore now (sign_plainly secret c iat expires_in)
      ≡ (if not ignore && jwt_expired iat expires_in now then none else some c)
read-sign_plainly secret c iat expires_in ignore now =
    rw
      (
        get_number-put_number (kind_of c) _,
        get_text-put_text (subject_of c) _,
        get_text-put_text (refresh_of c) _,
        get_number-put_number (number_of c) _,
        get_number-put_number iat _,
        get_number-put_number (seconds_of expires_in) "",
        option_of-seconds_of expires_in,
        claims_of-fields c,
      )
      refl

abbrev pub plain_jwt : Jwt
plain_jwt = record {
  sign = sign_plainly;
  verify = λ secret ignore now token. read_plainly ignore now token;
  verify-sign = read-sign_plainly;
  decode = λ token. read_plainly true 0 token;
  decode-sign = λ secret c iat expires_in. read-sign_plainly secret c iat expires_in true 0;
}

abbrev pub plain_argon : Argon
plain_argon = record {
  hash = λ salt p. p;
  verify = λ h p. h === p;
  verify-hash = λ salt p. ===-refl p;
}

abbrev joined : List (ℕ × List ℕ) → List ℕ
joined [] = []
joined ((i, piece) ∷ more) = piece ++ joined more

joined-numbered : (i : ℕ) (pieces : List (List ℕ)) → joined (numbered i pieces) ≡ concat pieces
joined-numbered i [] = refl
joined-numbered i (piece ∷ more) = ap (λ l. piece ++ l) (joined-numbered (i + 1) more)

pub joined_whole :
    (piece : List ℕ) (more : List (List ℕ))
    → true ≡ true
    → some (joined (numbered 0 (piece ∷ more))) ≡ some (concat (piece ∷ more))
joined_whole piece more e = ap some (joined-numbered 0 (piece ∷ more))

abbrev plain_bucket : Bucket
plain_bucket = record {
  complete = λ parts. some (joined parts);
  takes_sizes = λ pieces. true;
  complete-numbered = joined_whole;
}

-- Amounts in milliseconds, whatever the unit says
pub le-plus : (d : ℕ) (t : Timespan) → d ≤ d + t.value
le-plus d t = omega arith

abbrev pub plain_moment : Moment
plain_moment = record {
  add = λ d t. d + t.value;
  subtract = λ d t. d - t.value;
  add_text = λ d n unit. if n === "999999999" then none else some d;
  parse_iso = λ text. none;
  le-add = le-plus;
}

abbrev pub ms : ℕ → Timespan
ms n = record { value = n; unit = "ms" }

abbrev pub plain_config : Config
plain_config = record {
  allow_unauthenticated_shares = true;
  allow_admin_access_all_shares = false;
  expired_editable_period = ms 1000;
  file_retention_period = ms 500;
  max_expiration = ms 100000;
  max_size = 1000;
  chunk_size = 100;
  s3_enabled = false;
  smtp_enabled = true;
  session_duration = ms 5000;
  oauth_disable_password = false;
  oauth_ignore_totp = false;
  ldap_enabled = false;
  jwt_secret = "key";
  api_token_secret = "key";
  app_url = "https://example.org";
  enable_share_email_recipients = true;
  ldap_search_base = "dc=example";
  ldap_search_query = λ name. name;
  ldap_admin_groups = "admins";
  ldap_field_name_member_of = "memberOf";
  ldap_field_name_email = "mail";
  oauth_allow_registration = true;
  oauth_enabled = λ provider. true;
}

-- The world at a time
abbrev pub world_at : ℕ → World
world_at now = record {
  now = now;
  salt = 1;
  fresh_id = "fresh";
  fresh_user_id = "newcomer";
  fresh_link_id = "link";
  random_uuid = "uuid";
  nanoid = λ i. "x";
  named_column = "username";
  is_uuid = λ s. true;
  available_space = 10000;
  hmac = λ key s. s;
  random_text = "s3cret";
  parse_date = λ s. some 90000;
  is_ip = λ s. 4;
  encode_uri_component = λ s. s;
  delivers_to = λ s. true;
  config = plain_config;
  moment = plain_moment;
  jwt = plain_jwt;
  argon = plain_argon;
  bucket = plain_bucket;
}

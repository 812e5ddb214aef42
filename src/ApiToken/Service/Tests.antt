-- ===== src/ApiToken/Service/Tests.antt =====
-- One token, given out, used and revoked.
use better_pingvin_share.ApiToken.Scopes.{api_token_scopes}
use better_pingvin_share.Prelude.{
  includes, ◌&&◌, false, ◌&&◌, none, some, [], ◌∷◌, ◌≡◌, ◌↔◌, refl, includes,
}
use better_pingvin_share.Http.{done, throw, unauthorized}
use better_pingvin_share.Prisma.Assoc.{assoc}
use better_pingvin_share.Schema.{Db, User}
use better_pingvin_share.World.Example.{world_at}
use better_pingvin_share.Text.{◌⧺◌, has_char, join}
use better_pingvin_share.ApiToken.{token_text}
use better_pingvin_share.ApiToken.Header.{parse_api_token-token_text}
use better_pingvin_share.ApiToken.Scopes.{
  api_token_scopes, normalize_api_token_scopes, serialize_api_token_scopes,
  deserialize_api_token_scopes, each_once, sort, insert, deserialize-serialize_api_token_scopes,
}
use better_pingvin_share.ApiToken.Service.{
  TokenRequest, CreatedToken, ApiPrincipal, create_for_user, expiration_date, new_token,
  revoke_for_user, validate_authorization_header,
}
use better_pingvin_share.ApiToken.Service.Admitted.{Admits, validate_authorization_header_iff}
use better_pingvin_share.ApiToken.Service.Issued.{
  given, revoked_token_refused, created_token_admitted,
}

abbrev owner : User
owner = record {
  username = "owner";
  email = "owner@example.org";
  password = none;
  is_admin = false;
  ldap_dn = none;
  totp_enabled = false;
  totp_verified = false;
  totp_secret = none;
}

abbrev db : Db assoc
db = record {
  users = ("u", owner) ∷ [];
  api_tokens = [];
  refresh_tokens = [];
  login_tokens = [];
  reset_password_tokens = [];
  oauth_users = [];
  shares = [];
  reverse_shares = [];
  files = [];
  disk = [];
  bucket = [];
  multipart_uploads = [];
  started = [];
}

abbrev asked : TokenRequest
asked = record {
  user_id = "u";
  name = "backup";
  scopes = "files:read" ∷ "everything" ∷ "files:read" ∷ [];
  expires_at = some "2030-01-01";
}

abbrev backup : CreatedToken
backup = given (world_at 5000) (new_token (world_at 5000) asked (some 90000))

created : (create_for_user {P = assoc} (world_at 5000) asked db).0 ≡ done backup
unfolding create_for_user expiration_date normalize_api_token_scopes each_once sort insert
    serialize_api_token_scopes join
created = refl

created_token_admitted_example :
    (p : ApiPrincipal) × (validate_authorization_header
        (world_at 6000)
        (some ("Bearer " ⧺ token_text "fresh" "s3cret"))
        (create_for_user {P = assoc} (world_at 5000) asked db).1
      ≡ done p)
    × (p.token_id ≡ "fresh")
    × (p.user ≡ owner)
    × (includes p.scopes "shares:read"
        ≡ (includes api_token_scopes "shares:read" && includes asked.scopes "shares:read"))
unfolding has_char
created_token_admitted_example =
    created_token_admitted {P = assoc} (world_at 5000) (world_at 6000) asked backup owner
      "shares:read" db created refl refl refl refl refl refl refl refl

abbrev with_token : Db assoc
with_token = record db { api_tokens = ("t", backup.row) ∷ [] }

revoked : (revoke_for_user {P = assoc} (world_at 5000) "t" "u" with_token).0 ≡ done tt
unfolding revoke_for_user
revoked = refl

revoked_token_refused_example :
    validate_authorization_header
      (world_at 6000)
      (some ("Bearer " ⧺ token_text "t" "s3cret"))
      (revoke_for_user {P = assoc} (world_at 5000) "t" "u" with_token).1
    ≡ throw (unauthorized "Invalid API token")
unfolding has_char
revoked_token_refused_example =
    revoked_token_refused {P = assoc} (world_at 5000) (world_at 6000) "t" "u" "s3cret"
      (some ("Bearer " ⧺ token_text "t" "s3cret")) with_token revoked
      (parse_api_token-token_text "t" "s3cret" refl refl refl refl refl)

abbrev principal : ApiPrincipal
principal = record { token_id = "t"; scopes = []; user = owner }

validate_authorization_header_iff_example :
    (validate_authorization_header {P = assoc}
        (world_at 6000)
        (some ("Bearer " ⧺ token_text "t" "s3cret"))
        with_token
      ≡ done principal)
    ↔ Admits (world_at 6000) (some ("Bearer " ⧺ token_text "t" "s3cret")) principal with_token
validate_authorization_header_iff_example =
    validate_authorization_header_iff {P = assoc} (world_at 6000)
      (some ("Bearer " ⧺ token_text "t" "s3cret")) principal with_token

deserialize-serialize_api_token_scopes_example :
    includes (deserialize_api_token_scopes (serialize_api_token_scopes asked.scopes)) "files:read"
    ≡ (includes api_token_scopes "files:read" && includes asked.scopes "files:read")
deserialize-serialize_api_token_scopes_example =
    deserialize-serialize_api_token_scopes "files:read" asked.scopes

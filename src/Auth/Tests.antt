-- ===== src/Auth/Tests.antt =====
-- A sign-in with a second factor and a reset of a password, on concrete data.
use better_pingvin_share.Prelude.{true, false, none, some, [], ◌∷◌, ◌≡◌, ◌↔◌, refl, ◌===◌}
use better_pingvin_share.Http.{done, throw}
use better_pingvin_share.Prisma.Assoc.{assoc}
use better_pingvin_share.Schema.{Db, User, LoginToken, ResetPasswordToken}
use better_pingvin_share.World.{World}
use better_pingvin_share.World.Example.{world_at}
use better_pingvin_share.Auth.{
  Totp, Session, sign_in_totp, invalid_login_token, start_session, create_refresh_token,
  create_access_token,
}
use better_pingvin_share.Auth.Once.{SignsIn, sign_in_totp_iff, sign_in_totp_once}

abbrev totp : Totp
totp = record {
  check = λ code secret. code === secret;
  generate = λ secret. secret;
  generate_secret = "seed";
}

abbrev ada : User
ada = record {
  username = "ada";
  email = "ada@example.org";
  password = none;
  is_admin = true;
  ldap_dn = none;
  totp_enabled = true;
  totp_verified = true;
  totp_secret = some "123456";
}

abbrev ticket : LoginToken
ticket = record { expires_at = 9000; user_id = "u"; used = false }

abbrev letter : ResetPasswordToken
letter = record { expires_at = 9000; user_id = "u" }

abbrev db : Db assoc
db = record {
  users = ("u", ada) ∷ [];
  api_tokens = [];
  refresh_tokens = [];
  login_tokens = ("login", ticket) ∷ [];
  reset_password_tokens = ("reset", letter) ∷ [];
  oauth_users = [];
  shares = [];
  reverse_shares = [];
  files = [];
  disk = [];
  bucket = [];
  multipart_uploads = [];
  started = [];
}

abbrev w : World
w = world_at 5000

abbrev session : Session
session = record { access_token = create_access_token w "u" ada "fresh"; refresh_token = "fresh" }

ada_signs_in : (sign_in_totp w totp "login" "123456" db).0 ≡ done session
unfolding sign_in_totp start_session create_refresh_token
ada_signs_in = refl

sign_in_totp_iff_example :
    ((r : Session) × ((sign_in_totp w totp "login" "123456" db).0 ≡ done r))
    ↔ SignsIn w totp "login" "123456" db
sign_in_totp_iff_example = sign_in_totp_iff w totp "login" "123456" db

sign_in_totp_once_example :
    (sign_in_totp
      (world_at 6000)
      totp
      "login"
      "123456"
      (sign_in_totp w totp "login" "123456" db).1).0
    ≡ throw invalid_login_token
sign_in_totp_once_example =
    sign_in_totp_once w (world_at 6000) totp totp "login" "123456" "123456" db session ada_signs_in

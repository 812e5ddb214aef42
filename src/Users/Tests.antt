-- ===== src/Users/Tests.antt =====
-- The removal of one of two administrators.
use better_pingvin_share.Prelude.{true, none, some, [], ◌∷◌, ◌≡◌, refl, String}
use better_pingvin_share.Prisma.Assoc.{assoc}
use better_pingvin_share.Schema.{Db, User}
use better_pingvin_share.Users.{delete}
use better_pingvin_share.Users.Admins.{delete_keeps_admin}

abbrev ada : User
ada = record {
  username = "ada";
  email = "ada@example.org";
  password = none;
  is_admin = true;
  ldap_dn = none;
  totp_enabled = true;
  totp_verified = true;
  totp_secret = none;
}

abbrev db : Db assoc
db = record {
  users = ("a", ada) ∷ ("b", record ada { username = "bob" }) ∷ [];
  api_tokens = [];
  refresh_tokens = [];
  login_tokens = [];
  reset_password_tokens = [];
  oauth_users = [];
  shares = [];
  reverse_shares = [];
  files = [];
  disk = [];
  bucket = [];
  multipart_uploads = [];
  started = [];
}

delete_keeps_admin_example :
    (k : String) × (v : User) × (assoc.find k (delete "a" db).1.users ≡ some v)
    × (v.is_admin ≡ true)
delete_keeps_admin_example = delete_keeps_admin "a" "a" db ada refl refl

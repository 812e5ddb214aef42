-- ===== src/Oauth/Tests.antt =====
-- Accounts at other sites, on concrete data.
use better_pingvin_share.Prelude.{
  String, true, false, none, some, [], ◌∷◌, ◌≡◌, refl, arith, eq_iff,
}
use better_pingvin_share.Http.{done}
use better_pingvin_share.Prisma.Assoc.{assoc}
use better_pingvin_share.Schema.{Db, User, OauthUser, RefreshToken}
use better_pingvin_share.World.{World}
use better_pingvin_share.World.Example.{world_at}
use better_pingvin_share.Users.Rows.{any_row, has_username}
use better_pingvin_share.Auth.{Session}
use better_pingvin_share.Auth.SignIn.{session}
use better_pingvin_share.Oauth.{OauthSignIn, oauth_sign_in, get_available_username}
use better_pingvin_share.Oauth.Names.{get_available_username_ends}
use better_pingvin_share.Oauth.Links.{LinkedOnce}
use better_pingvin_share.Oauth.Signed.{linked_signs_in}

abbrev ada : User
ada = record {
  username = "ada";
  email = "ada@example.org";
  password = none;
  is_admin = true;
  ldap_dn = none;
  totp_enabled = false;
  totp_verified = false;
  totp_secret = none;
}

abbrev octocat : OauthUser
octocat = record {
  provider = "github";
  provider_user_id = "1";
  provider_username = "octocat";
  user_id = "u";
}

abbrev db : Db assoc
db = record {
  users = ("u", ada) ∷ [];
  api_tokens = [];
  refresh_tokens = [];
  login_tokens = [];
  reset_password_tokens = [];
  oauth_users = ("l", octocat) ∷ [];
  shares = [];
  reverse_shares = [];
  files = [];
  disk = [];
  bucket = [];
  multipart_uploads = [];
  started = [];
}

abbrev w : World
w = world_at 5000

abbrev by_octocat : OauthSignIn
by_octocat = record {
  provider = "github";
  provider_id = "1";
  provider_username = "octocat";
  email = some "ada@example.org";
  is_admin = none;
  id_token = none;
}

-- A newcomer whose name is taken
abbrev by_ada : OauthSignIn
by_ada = record {
  provider = "oidc";
  provider_id = "7";
  provider_username = "a-d-a";
  email = some "other@example.org";
  is_admin = none;
  id_token = none;
}

ada_taken : get_available_username w.nanoid (("u", ada) ∷ []) "a-d-a" ≡ some "ada_x"
unfolding get_available_username
ada_taken = refl

get_available_username_ends_example :
    (found : String) × (get_available_username w.nanoid (("u", ada) ∷ []) "a-d-a" ≡ some found)
    × (any_row (has_username found) (("u", ada) ∷ []) ≡ false)
get_available_username_ends_example = get_available_username_ends w.nanoid (("u", ada) ∷ []) "a-d-a"

one_link : LinkedOnce db
one_link j k a b ja kb same = ground (arith, eq_iff "l" j, eq_iff "l" k)

linked_signs_in_example :
    (s : Session) × (t : RefreshToken) × ((oauth_sign_in w by_octocat db).0 ≡ done (session s))
    × (assoc.find s.refresh_token (oauth_sign_in w by_octocat db).1.refresh_tokens ≡ some t)
    × (t.user_id ≡ "u")
linked_signs_in_example =
    linked_signs_in {P = assoc} w by_octocat "l" octocat ada db one_link refl refl refl refl refl
      refl

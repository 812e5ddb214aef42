-- ===== src/Accounts/Tests.antt =====
-- Sign-ins, changed passwords and second factors, on concrete data.
use better_pingvin_share.Prelude.{
  String, true, false, none, some, List, [], ◌∷◌, ◌≡◌, ◌↔◌, refl, arith, eq_iff,
}
use better_pingvin_share.Http.{done, throw, unauthorized}
use better_pingvin_share.Prisma.Assoc.{assoc}
use better_pingvin_share.Schema.{Db, User, RefreshToken, ResetPasswordToken, OauthUser}
use better_pingvin_share.World.{World}
use better_pingvin_share.World.Example.{world_at}
use better_pingvin_share.Users.Rows.{update_user}
use better_pingvin_share.Users.Every.{EveryUser}
use better_pingvin_share.Auth.{
  Totp, Session, sign_in_totp, refresh_access_token, create_refresh_token,
}
use better_pingvin_share.Auth.Ldap.{LdapServer}
use better_pingvin_share.Auth.SignIn.{SignIn, Granted, login, sign_in, update_password}
use better_pingvin_share.Auth.Passwords.{KnowsPassword, sign_in_iff, sign_in_asks_code}
use better_pingvin_share.Auth.Sessions.{update_password_ends_sessions}
use better_pingvin_share.Auth.Enrolled.{Enrolled}
use better_pingvin_share.Accounts.{Call, enables, verifies, signs_in, links, unlinks, run_calls}
use better_pingvin_share.Accounts.Sound.{run_calls-Enrolled}
use better_pingvin_share.Accounts.Links.{run_calls-LinkedOnce}
use better_pingvin_share.Oauth.Links.{LinkedOnce}

abbrev totp : Totp
totp = record { check = λ code secret. true; generate = λ secret. secret; generate_secret = "seed" }

abbrev server : LdapServer
server = record {
  connects = false;
  search = λ base query. done [];
  bind = λ dn password. throw (unauthorized "no");
}

abbrev ada : User
ada = record {
  username = "ada";
  email = "ada@example.org";
  password = some "lovelace";
  is_admin = true;
  ldap_dn = none;
  totp_enabled = true;
  totp_verified = true;
  totp_secret = some "seed";
}

abbrev open_session : RefreshToken
open_session = record { expires_at = 9000; user_id = "u"; oauth_id_token = none }

abbrev letter : ResetPasswordToken
letter = record { expires_at = 9000; user_id = "u" }

abbrev db : Db assoc
db = record {
  users = ("u", ada) ∷ [];
  api_tokens = [];
  refresh_tokens = ("session", open_session) ∷ [];
  login_tokens = [];
  reset_password_tokens = ("reset", letter) ∷ [];
  oauth_users = [];
  shares = [];
  reverse_shares = [];
  files = [];
  disk = [];
  bucket = [];
  multipart_uploads = [];
  started = [];
}

abbrev w : World
w = world_at 5000

abbrev credentials : SignIn
credentials = record { email = some "ada@example.org"; username = none; password = "lovelace" }

ada_knows : KnowsPassword {P = assoc} w server credentials db
ada_knows = record {
  named = refl;
  id = "u";
  user = ada;
  first = refl;
  hash = "lovelace";
  stored = refl;
  not_empty = refl;
  verified = refl;
}

sign_in_iff_example :
    ((g : Granted) × ((sign_in w server credentials db).0 ≡ done g))
    ↔ KnowsPassword {P = assoc} w server credentials db
sign_in_iff_example = sign_in_iff {P = assoc} w server credentials db refl refl

sign_in_asks_code_example :
    ((sign_in w server credentials db).0 ≡ done (login "fresh"))
    × ((sign_in w server credentials db).1.refresh_tokens ≡ db.refresh_tokens)
    × ((s : Session) × ((sign_in_totp w totp "fresh" "1" (sign_in w server credentials db).1).0
          ≡ done s))
unfolding ada_knows
sign_in_asks_code_example =
    sign_in_asks_code {P = assoc} w server credentials w totp "1" "seed" db ada_knows refl refl refl
      refl refl refl

changed : (update_password {P = assoc} w ("u", ada) "byron" (some "lovelace") db).0 ≡ done "fresh"
unfolding update_password update_user create_refresh_token
changed = refl

update_password_ends_sessions_example :
    ((refresh_access_token w "session"
        (update_password {P = assoc} w ("u", ada) "byron" (some "lovelace") db).1).0
      ≡ throw (unauthorized "Unauthorized"))
    × ((v : User) × (hash : String) × (assoc.find "u"
            (update_password {P = assoc} w ("u", ada) "byron" (some "lovelace") db).1.users
          ≡ some (record v { password = some hash }))
        × (w.argon.verify hash "byron" ≡ true))
update_password_ends_sessions_example =
    update_password_ends_sessions {P = assoc} w w "u" "byron" "fresh" "session" ada
      (some "lovelace") open_session db changed refl refl refl

abbrev eve : User
eve = record ada { totp_enabled = false; totp_verified = false; totp_secret = none }

abbrev plain_db : Db assoc
plain_db = record db { users = ("u", eve) ∷ [] }

-- A second factor is set up, and a sign-in follows.
abbrev calls : List (World × Call)
calls =
    (w, enables ("u", eve) "lovelace")
    ∷ (w, verifies ("u", eve) "lovelace" "seed")
    ∷ (w, signs_in credentials)
    ∷ []

plain_db-Enrolled : EveryUser Enrolled plain_db
plain_db-Enrolled j u found verified = absurd (ground arith)

run_calls-Enrolled_example : EveryUser Enrolled (run_calls server totp plain_db calls)
run_calls-Enrolled_example =
    run_calls-Enrolled {P = assoc} server totp calls plain_db plain_db-Enrolled

abbrev octocat : OauthUser
octocat = record {
  provider = "github";
  provider_user_id = "1";
  provider_username = "octocat";
  user_id = "u";
}

abbrev linked_db : Db assoc
linked_db = record db { oauth_users = ("l", octocat) ∷ [] }

-- Another user asks for the linked account, then the first one drops it.
abbrev linking : List (World × Call)
linking =
    (w, links "v" "github" "1" "octocat")
    ∷ (w, unlinks "u" "github")
    ∷ (w, links "v" "github" "1" "octocat")
    ∷ (w, signs_in credentials)
    ∷ []

linked_db-LinkedOnce : LinkedOnce linked_db
linked_db-LinkedOnce j k a b ja kb same = ground (arith, eq_iff "l" j, eq_iff "l" k)

run_calls-LinkedOnce_example : LinkedOnce (run_calls server totp linked_db linking)
run_calls-LinkedOnce_example =
    run_calls-LinkedOnce {P = assoc} server totp linking linked_db linked_db-LinkedOnce

-- ===== src/Accounts.antt =====
-- The calls on accounts as they come one after the other: those of backend/src/auth, of
-- backend/src/user and of backend/src/oauth that read or change users, their tokens and their links.
mod Tests
pub mod Untouched
pub mod Links
pub mod Sound
use better_pingvin_share.Prelude.{String, Option, none, some, List, [], ◌∷◌}
use better_pingvin_share.Prisma.{Prisma}
use better_pingvin_share.Schema.{Db}
use better_pingvin_share.World.{World}
use better_pingvin_share.Users.{delete}
use better_pingvin_share.Users.Rows.{Account}
use better_pingvin_share.Users.Manage.{CreateUser, UpdateUser, create, update}
use better_pingvin_share.Auth.{Totp, sign_in_totp, refresh_access_token, reset_password}
use better_pingvin_share.Auth.Ldap.{LdapServer}
use better_pingvin_share.Auth.SignIn.{
  SignIn, sign_in, sign_up, request_reset_password, update_password, sign_out,
}
use better_pingvin_share.Auth.SecondFactor.{enable_totp, verify_totp, disable_totp}
use better_pingvin_share.Oauth.{OauthSignIn, link, unlink, oauth_sign_in}

-- A call, with what the guard of its request has read of the user that makes it
pub data Call : Type 0 where
  signs_up : String → String → String → Call
  signs_in : SignIn → Call
  signs_in_totp : String → String → Call
  signs_in_by : OauthSignIn → Call
  refreshes : String → Call
  signs_out : String → Call
  asks_reset : String → Call
  resets : String → String → Call
  updates_password : Account → String → Option String → Call
  enables : Account → String → Call
  verifies : Account → String → String → Call
  disables : Account → String → String → Call
  creates : CreateUser → Call
  updates : String → UpdateUser → Call
  deletes : String → Call
  links : String → String → String → String → Call
  unlinks : String → String → Call

module _ {P : Prisma} (server : LdapServer) (totp : Totp) where
  -- The state after a call, whatever comes of it. Each call has a world of its own, with the time, the
  -- configuration and the draws of its moment.
  unfoldable pub step : Db P → World × Call → Db P
  step db (w, signs_up email username password) =
      (sign_up w email username (some password) none db).1
  step db (w, signs_in dto) = (sign_in w server dto db).1
  step db (w, signs_in_totp token code) = (sign_in_totp w totp token code db).1
  step db (w, signs_in_by dto) = (oauth_sign_in w dto db).1
  step db (w, refreshes token) = (refresh_access_token w token db).1
  step db (w, signs_out token) = (sign_out w token db).1
  step db (w, asks_reset email) = (request_reset_password w email db).1
  step db (w, resets token password) = (reset_password w token password db).1
  step db (w, updates_password a password old) = (update_password w a password old db).1
  step db (w, enables a password) = (enable_totp w server totp a password db).1
  step db (w, verifies a password code) = (verify_totp w server totp a password code db).1
  step db (w, disables a password code) = (disable_totp w server totp a password code db).1
  step db (w, creates dto) = (create w dto db).1
  step db (w, updates id dto) = (update w id dto db).1
  step db (w, deletes id) = (delete id db).1
  step db (w, links user provider id name) = (link w user provider id name db).1
  step db (w, unlinks user provider) = (unlink user provider db).1

  unfoldable pub run_calls : Db P → List (World × Call) → Db P
  run_calls db [] = db
  run_calls db (c ∷ more) = run_calls (step db c) more

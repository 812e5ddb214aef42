-- ===== src/Auth/SignIn.antt =====
-- backend/src/auth: signUp, signIn, generateToken, requestResetPassword, updatePassword, signOut and
-- verifyPassword of auth.service.ts.
use better_pingvin_share.Prelude.{
  String, Bool, true, false, not, ◌&&◌, ◌||◌, Option, none, some, ◌==◌, if◌then◌else◌, truthy,
  ◌===◌, length,
}
use better_pingvin_share.Http.{
  Outcome, done, throw, Handler, HttpError, unauthorized, bad_request, forbidden, type_error, pure,
  raise, gets, lift, ◌>>=◌, ◌>>◌,
}
use better_pingvin_share.Prisma.{Prisma}
use better_pingvin_share.Schema.{Db, User, RefreshToken, ResetPasswordToken, mail_reset_password}
use better_pingvin_share.Store.{start}
use better_pingvin_share.World.{World, Claims, access, share_visitor, share_owner}
use better_pingvin_share.Users.Rows.{Account, first_user, has_email, create_user, update_user}
use better_pingvin_share.Users.Manage.{LdapEntry, new_user, given, find_or_create_from_ldap}
use better_pingvin_share.Auth.Ldap.{LdapServer, authenticate_user}
use better_pingvin_share.Auth.{
  Session, one_hour, create_refresh_token, create_login_token, start_session,
}

-- The tokens of a session, or a login token where a code is asked for
pub data Granted : Type 0 where
  session : Session → Granted
  login : String → Granted

pub record SignIn : Type 0 where
  pub email : Option String
  pub username : Option String
  pub password : String

-- A clause of an OR that speaks of no value is left out.
abbrev pub column_is : Option String → String → Bool
column_is none value = false
column_is (some v) value = value === v

abbrev pub named_by : SignIn → User → Bool
named_by dto u = column_is dto.email u.email || column_is dto.username u.username

-- `user.password && argon.verify(user.password, password)`
abbrev pub password_right : World → String → Option String → Bool
password_right w password none = false
password_right w password (some hash) = not (hash === "") && w.argon.verify hash password

abbrev pub with_right_password : World → String → Option Account → Option Account
with_right_password w password none = none
with_right_password w password (some (id, u)) =
    if password_right w password u.password then some (id, u) else none

-- `dto.username || dto.email`
abbrev pub either_name : Option String → Option String → String
either_name (some name) other = if name === "" then given other "" else name
either_name none other = given other ""

-- With OAuth and a setting that trusts its providers, no code is asked for.
abbrev pub skips_code : World → Option (Option String) → Bool
skips_code w none = false
skips_code w (some id_token) = w.config.oauth_ignore_totp

abbrev pub id_token_of : Option (Option String) → Option String
id_token_of none = none
id_token_of (some id_token) = id_token

abbrev pub wrong_password : HttpError
wrong_password = unauthorized "Wrong email or password"

-- `jwtService.decode(accessToken)`, where it names a refresh token
abbrev pub refresh_token_id : Option Claims → Option String
refresh_token_id none = none
refresh_token_id (some (access user is_admin id)) = some id
refresh_token_id (some (share_visitor id created)) = none
refresh_token_id (some (share_owner id created)) = none

abbrev pub id_token_at : Option RefreshToken → Option String
id_token_at none = none
id_token_at (some t) = t.oauth_id_token

-- `argon.verify(user.password, password)` with no hash is JavaScript's error.
abbrev pub verify_hash : World → String → Option String → Outcome Bool
verify_hash w password none = throw type_error
verify_hash w password (some hash) = done (w.argon.verify hash password)

-- `verifyPassword`: a user without a password is asked for at the LDAP server.
unfoldable pub verify_password : World → LdapServer → User → String → Outcome Bool
unfolding authenticate_user
verify_password w server u password =
    if not (truthy u.password) && w.config.ldap_enabled
    then (elim (authenticate_user w server u.username password) [
      | done none ↦ done false
      | done (some entry) ↦ done true
      | throw e ↦ throw e
    ])
    else verify_hash w password u.password

abbrev pub optional_hash : World → Option String → Option String
optional_hash w none = none
optional_hash w (some p) = if p === "" then none else some (w.argon.hash w.salt p)

abbrev pub old_password_right : World → User → Option String → Outcome Bool
old_password_right w u old =
    if not (truthy u.password)
    then done true
    else elim old [ none ↦ throw type_error | some p ↦ verify_hash w p u.password ]

module _ {P : Prisma} (w : World) where
  -- `generateToken`
  unfoldable pub generate_token : String → User → Option (Option String) → Handler (Db P) Granted
  unfolding create_login_token start_session
  generate_token id u oauth =
      if u.totp_verified && not (skips_code w oauth)
      then (do token ← create_login_token w id; pure (login token))
      else (do tokens ← start_session w id u (id_token_of oauth); pure (session tokens))

  abbrev pub password_account : SignIn → Handler (Db P) (Option Account)
  password_account dto =
      if w.config.oauth_disable_password
      then pure none
      else gets (λ (db : Db P). with_right_password w dto.password (first_user (named_by dto) db))

  -- The user of an entry
  abbrev pub account_of :
      Option String → Option String → Option LdapEntry → Handler (Db P) (Option Account)
  account_of email username none = pure none
  account_of email username (some entry) = do
    account ← find_or_create_from_ldap w email username entry
    pure (some account)

  abbrev pub grant : Option Account → Handler (Db P) Granted
  grant none = raise wrong_password
  grant (some (id, u)) = generate_token id u none

  -- The sign-in by the LDAP server, where the password is not right here
  abbrev pub ldap_sign_in : LdapServer → SignIn → Handler (Db P) Granted
  ldap_sign_in server dto =
      if w.config.ldap_enabled
      then (do
        entry ← lift (authenticate_user w server (either_name dto.username dto.email) dto.password)
        account ← account_of dto.email dto.username entry
        grant account)
      else raise wrong_password

  abbrev pub grant_or_ldap : LdapServer → SignIn → Option Account → Handler (Db P) Granted
  grant_or_ldap server dto none = ldap_sign_in server dto
  grant_or_ldap server dto (some (id, u)) = generate_token id u none

  -- `signIn`
  unfoldable pub sign_in : LdapServer → SignIn → Handler (Db P) Granted
  unfolding generate_token
  sign_in server dto =
      if not (truthy dto.email) && not (truthy dto.username)
      then raise (bad_request "Email or username is required")
      else (do account ← password_account dto; grant_or_ldap server dto account)

  -- `signUp`: the first user is an administrator, unless the caller says.
  abbrev pub is_first : Db P → Bool
  is_first db = length (P.rows db.users) == 0

  unfoldable pub sign_up :
      String → String → Option String → Option Bool → Handler (Db P) (Account × Session)
  unfolding create_user start_session
  sign_up email username password is_admin = do
    first ← gets is_first
    u ←
        create_user w w.fresh_user_id
          (new_user username email (optional_hash w password) (given is_admin first) none)
    tokens ← start_session w w.fresh_user_id u none
    pure ((w.fresh_user_id, u), tokens)

  -- `requestResetPassword`: the user's former token goes, and a new one is sent.
  abbrev pub drop_reset_tokens : String → Db P → Db P
  drop_reset_tokens id db = record db {
    reset_password_tokens =
        P.erase_where (λ (t : ResetPasswordToken). t.user_id === id) db.reset_password_tokens;
  }

  abbrev pub put_reset_token : String → Db P → Db P
  put_reset_token id db = record db {
    reset_password_tokens =
        P.write w.fresh_id (record { expires_at = w.moment.add w.now one_hour; user_id = id })
          db.reset_password_tokens;
  }

  abbrev pub send_reset_token : Account → Handler (Db P) Unit
  send_reset_token (id, u) db =
      start (mail_reset_password u.email w.fresh_id) (put_reset_token id (drop_reset_tokens id db))

  abbrev pub reset_for : Option Account → Handler (Db P) Unit
  reset_for none = pure tt
  reset_for (some (id, u)) =
      if truthy u.ldap_dn
      then raise (
          bad_request
            "This account can't reset its password here. Please contact your administrator.")
      else send_reset_token (id, u)

  unfoldable pub request_reset_password : String → Handler (Db P) Unit
  request_reset_password email =
      if w.config.oauth_disable_password
      then raise (forbidden "Password sign in is disabled" none)
      else (do account ← gets (λ (db : Db P). first_user (has_email email) db); reset_for account)

  -- `updatePassword`, with the user's row as the guard of the request has read it
  abbrev pub drop_refresh_tokens : String → Handler (Db P) Unit
  drop_refresh_tokens id db = (
    done tt,
    record db {
      refresh_tokens = P.erase_where (λ (t : RefreshToken). t.user_id === id) db.refresh_tokens;
    },
  )

  abbrev pub replace_password : String → String → Handler (Db P) String
  replace_password id password = do
    drop_refresh_tokens id
    update_user w id (λ u. record u { password = some (w.argon.hash w.salt password) })
    create_refresh_token w id none

  unfoldable pub update_password : Account → String → Option String → Handler (Db P) String
  unfolding update_user create_refresh_token
  update_password (id, u) password old = do
    right ← lift (old_password_right w u old)
    if right then replace_password id password else raise (forbidden "Invalid password" none)

  -- `signOut`: the refresh token goes, if it is still there; its OAuth token, which the redirect to
  -- the provider is made of, is returned.
  abbrev pub end_session : Option String → Handler (Db P) (Option String)
  end_session none db = (done none, db)
  end_session (some id) db = (
    done (if id === "" then none else id_token_at (P.find id db.refresh_tokens)),
    if id === "" then db else record db { refresh_tokens = P.erase id db.refresh_tokens },
  )

  unfoldable pub sign_out : String → Handler (Db P) (Option String)
  sign_out access_token = end_session (refresh_token_id (w.jwt.decode access_token))

-- ===== src/Accounts/Untouched.antt =====
-- The calls of auth.service.ts, authTotp.service.ts and user.service.ts that leave the links to other
-- sites alone.
use better_pingvin_share.Prelude.{String, Bool, Option, none, some, arith, refl}
use better_pingvin_share.Http.{Handler, HttpError}
use better_pingvin_share.Http.Keeps.{Keeps, keeps_rules}
use better_pingvin_share.Prisma.{Prisma}
use better_pingvin_share.Schema.{Db, LoginToken}
use better_pingvin_share.World.{World}
use better_pingvin_share.Users.Rows.{Account}
use better_pingvin_share.Users.Manage.{
  CreateUser, UpdateUser, LdapEntry, updated, create, update, first_password, upsert, name_user,
  sync_email, ignoring_errors, find_or_create_from_ldap,
}
use better_pingvin_share.Auth.{
  Totp, create_refresh_token, use_login_token, sign_in_totp, reset_password, change_password,
  refresh_access_token, start_session,
}
use better_pingvin_share.Auth.Ldap.{LdapServer}
use better_pingvin_share.Auth.SignIn.{
  SignIn, sign_in, request_reset_password, update_password, sign_out, drop_refresh_tokens,
  reset_for, grant, grant_or_ldap, ldap_sign_in, account_of,
}
use better_pingvin_share.Auth.SecondFactor.{check_code, enable_totp, verify_totp, disable_totp}
use better_pingvin_share.Oauth.Untouched.{
  links_of, create_user-Keeps, update_user-Keeps, generate_token-Keeps,
}

module _ {P : Prisma} (w : World) where
  first_password-Keeps :
      (email : String) (p : Option String) → Keeps links_of (first_password {P = P} w email p)
  first_password-Keeps email none = record { at = λ db. ground arith }
  first_password-Keeps email (some p) = record { at = λ db. ground arith }

  pub create-Keeps : (dto : CreateUser) → Keeps links_of (create {P = P} w dto)
  unfolding create
  create-Keeps dto = search (keeps_rules, first_password-Keeps, create_user-Keeps)

  ignoring_errors-Keeps :
      {A : Type 0} (old : A) (m : Handler (Db P) A)
      → Keeps links_of m
      → Keeps links_of (ignoring_errors old m)
  ignoring_errors-Keeps old m k = record { at = λ db. k.at db }

  pub update-Keeps : (id : String) (dto : UpdateUser) → Keeps links_of (update {P = P} w id dto)
  unfolding update
  update-Keeps id dto = record { at = λ db. (update_user-Keeps w id (updated w dto)).at db }

  upsert-Keeps :
      (username email : String) (is_admin : Bool) (entry : LdapEntry) (old : Option Account)
      → Keeps links_of (upsert {P = P} w username email is_admin entry old)
  upsert-Keeps username email is_admin entry none = search (keeps_rules, create_user-Keeps)
  upsert-Keeps username email is_admin entry (some (id, u)) =
      search (keeps_rules, update_user-Keeps)

  name_user-Keeps :
      (placeholder : String) (a : Account) → Keeps links_of (name_user {P = P} w placeholder a)
  name_user-Keeps placeholder (id, u) =
      search (keeps_rules, ignoring_errors-Keeps, update_user-Keeps)

  sync_email-Keeps :
      (email : Option String) (a : Account) → Keeps links_of (sync_email {P = P} w email a)
  sync_email-Keeps none (id, u) = search keeps_rules
  sync_email-Keeps (some email) (id, u) =
      search (keeps_rules, ignoring_errors-Keeps, update_user-Keeps)

  find_or_create_from_ldap-Keeps :
      (email username : Option String) (entry : LdapEntry)
      → Keeps links_of (find_or_create_from_ldap {P = P} w email username entry)
  unfolding find_or_create_from_ldap
  find_or_create_from_ldap-Keeps email username entry =
      search (keeps_rules, upsert-Keeps, name_user-Keeps, sync_email-Keeps)

  grant-Keeps : (a : Option Account) → Keeps links_of (grant {P = P} w a)
  grant-Keeps none = search keeps_rules
  grant-Keeps (some (id, u)) = generate_token-Keeps w id u none

  account_of-Keeps :
      (email username : Option String) (entry : Option LdapEntry)
      → Keeps links_of (account_of {P = P} w email username entry)
  account_of-Keeps email username none = search keeps_rules
  account_of-Keeps email username (some e) = search (keeps_rules, find_or_create_from_ldap-Keeps)

  ldap_sign_in-Keeps :
      (server : LdapServer) (dto : SignIn) → Keeps links_of (ldap_sign_in {P = P} w server dto)
  ldap_sign_in-Keeps server dto = search (keeps_rules, grant-Keeps, account_of-Keeps)

  grant_or_ldap-Keeps :
      (server : LdapServer) (dto : SignIn) (a : Option Account)
      → Keeps links_of (grant_or_ldap {P = P} w server dto a)
  grant_or_ldap-Keeps server dto none = ldap_sign_in-Keeps server dto
  grant_or_ldap-Keeps server dto (some (id, u)) = generate_token-Keeps w id u none

  pub sign_in-Keeps :
      (server : LdapServer) (dto : SignIn) → Keeps links_of (sign_in {P = P} w server dto)
  unfolding sign_in
  sign_in-Keeps server dto = search (keeps_rules, grant_or_ldap-Keeps)

  reset_for-Keeps : (a : Option Account) → Keeps links_of (reset_for {P = P} w a)
  reset_for-Keeps none = search keeps_rules
  reset_for-Keeps (some (id, u)) = record { at = λ db. ground arith }

  pub request_reset_password-Keeps :
      (email : String) → Keeps links_of (request_reset_password {P = P} w email)
  unfolding request_reset_password
  request_reset_password-Keeps email = search (keeps_rules, reset_for-Keeps)

  create_refresh_token-Keeps :
      (id : String) (id_token : Option String)
      → Keeps links_of (create_refresh_token {P = P} w id id_token)
  unfolding create_refresh_token
  create_refresh_token-Keeps id id_token = record { at = λ db. refl }

  drop_refresh_tokens-Keeps : (id : String) → Keeps links_of (drop_refresh_tokens {P = P} w id)
  drop_refresh_tokens-Keeps id = record { at = λ db. refl }

  pub update_password-Keeps :
      (a : Account) (password : String) (old : Option String)
      → Keeps links_of (update_password {P = P} w a password old)
  unfolding update_password
  update_password-Keeps (id, u) password old =
      search (keeps_rules, update_user-Keeps, drop_refresh_tokens-Keeps, create_refresh_token-Keeps)

  pub sign_out-Keeps : (token : String) → Keeps links_of (sign_out {P = P} w token)
  unfolding sign_out
  sign_out-Keeps token = record { at = λ db. ground arith }

  use_login_token-Keeps :
      (token : String) (t : LoginToken) → Keeps links_of (use_login_token {P = P} w token t)
  use_login_token-Keeps token t = record { at = λ db. refl }

  pub sign_in_totp-Keeps :
      (totp : Totp) (token code : String) → Keeps links_of (sign_in_totp {P = P} w totp token code)
  unfolding sign_in_totp start_session
  sign_in_totp-Keeps totp token code = search (keeps_rules, use_login_token-Keeps)

  change_password-Keeps :
      (id password : String) → Keeps links_of (change_password {P = P} w id password)
  change_password-Keeps id password = record { at = λ db. ground arith }

  pub reset_password-Keeps :
      (token password : String) → Keeps links_of (reset_password {P = P} w token password)
  unfolding reset_password
  reset_password-Keeps token password = record { at = λ db. ground arith }

  pub refresh-Keeps : (token : String) → Keeps links_of (refresh_access_token {P = P} w token)
  unfolding refresh_access_token
  refresh-Keeps token = record { at = λ db. ground arith }

  module _ (server : LdapServer) (totp : Totp) where
    check_code-Keeps :
        (missing : HttpError) (a : Account) (password code : String)
        → Keeps links_of (check_code {P = P} w server totp missing a password code)
    check_code-Keeps missing (id, u) password code = record { at = λ db. ground arith }

    pub enable_totp-Keeps :
        (a : Account) (password : String)
        → Keeps links_of (enable_totp {P = P} w server totp a password)
    unfolding enable_totp
    enable_totp-Keeps (id, u) password = search (keeps_rules, update_user-Keeps)

    pub verify_totp-Keeps :
        (a : Account) (password code : String)
        → Keeps links_of (verify_totp {P = P} w server totp a password code)
    unfolding verify_totp
    verify_totp-Keeps (id, u) password code =
        search (keeps_rules, check_code-Keeps, update_user-Keeps)

    pub disable_totp-Keeps :
        (a : Account) (password code : String)
        → Keeps links_of (disable_totp {P = P} w server totp a password code)
    unfolding disable_totp
    disable_totp-Keeps (id, u) password code =
        search (keeps_rules, check_code-Keeps, update_user-Keeps)

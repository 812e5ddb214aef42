-- ===== src/Auth/Stays.antt =====
-- The calls of auth.service.ts keep what holds of the row of every user, where it is said of the
-- columns of the second factor.
use better_pingvin_share.Prelude.{
  String, Bool, Option, none, some, inl, inr, arith, Bool-cases, Option-cases, ltb,
}
use better_pingvin_share.Http.Stays.{Stays, stays_rules}
use better_pingvin_share.Prisma.{Prisma}
use better_pingvin_share.Schema.{User, LoginToken}
use better_pingvin_share.World.{World}
use better_pingvin_share.Users.Rows.{Account, update_user}
use better_pingvin_share.Users.Manage.{LdapEntry}
use better_pingvin_share.Users.Every.{
  EveryUser, Keeps-EveryUser, create_user-Stays, update_user-Stays, put_user-EveryUser,
}
use better_pingvin_share.Users.Stays.{OfFactor, find_or_create_from_ldap-Stays}
use better_pingvin_share.Auth.{
  Totp, start_session, create_refresh_token, create_login_token, use_login_token, sign_in_totp,
  reset_password, change_password,
}
use better_pingvin_share.Auth.Ldap.{LdapServer}
use better_pingvin_share.Auth.SignIn.{
  SignIn, generate_token, sign_in, sign_up, request_reset_password, update_password, sign_out,
  drop_refresh_tokens, reset_for, grant, grant_or_ldap, ldap_sign_in, account_of,
}

module _ {P : Prisma} (w : World) {Q : User → Type 0} (q : OfFactor Q) where
  pub start_session-Stays :
      (id : String) (u : User) (id_token : Option String)
      → Stays (EveryUser Q) (start_session {P = P} w id u id_token)
  unfolding start_session create_refresh_token
  start_session-Stays id u id_token = record { at = λ db every. every }

  create_refresh_token-Stays :
      (id : String) (id_token : Option String)
      → Stays (EveryUser Q) (create_refresh_token {P = P} w id id_token)
  unfolding create_refresh_token
  create_refresh_token-Stays id id_token = record { at = λ db every. every }

  create_login_token-Stays : (id : String) → Stays (EveryUser Q) (create_login_token {P = P} w id)
  unfolding create_login_token
  create_login_token-Stays id = record { at = λ db every. every }

  pub generate_token-Stays :
      (id : String) (u : User) (oauth : Option (Option String))
      → Stays (EveryUser Q) (generate_token {P = P} w id u oauth)
  unfolding generate_token
  generate_token-Stays id u oauth =
      search (stays_rules, start_session-Stays, create_login_token-Stays)

  grant-Stays : (a : Option Account) → Stays (EveryUser Q) (grant {P = P} w a)
  grant-Stays none = search stays_rules
  grant-Stays (some (id, u)) = generate_token-Stays id u none

  after_ldap-Stays :
      (email username : Option String) (entry : Option LdapEntry)
      → Stays (EveryUser Q) (account_of {P = P} w email username entry)
  after_ldap-Stays email username none = search stays_rules
  after_ldap-Stays email username (some e) =
      search (stays_rules, find_or_create_from_ldap-Stays w q)

  ldap_sign_in-Stays :
      (server : LdapServer) (dto : SignIn) → Stays (EveryUser Q) (ldap_sign_in {P = P} w server dto)
  ldap_sign_in-Stays server dto = search (stays_rules, grant-Stays, after_ldap-Stays)

  grant_or_ldap-Stays :
      (server : LdapServer) (dto : SignIn) (a : Option Account)
      → Stays (EveryUser Q) (grant_or_ldap {P = P} w server dto a)
  grant_or_ldap-Stays server dto none = ldap_sign_in-Stays server dto
  grant_or_ldap-Stays server dto (some (id, u)) = generate_token-Stays id u none

  pub sign_in-Stays :
      (server : LdapServer) (dto : SignIn) → Stays (EveryUser Q) (sign_in {P = P} w server dto)
  unfolding sign_in
  sign_in-Stays server dto = search (stays_rules, grant_or_ldap-Stays)

  pub sign_up-Stays :
      (email username : String) (password : Option String) (is_admin : Option Bool)
      → Stays (EveryUser Q) (sign_up {P = P} w email username password is_admin)
  unfolding sign_up
  sign_up-Stays email username password is_admin =
      search (stays_rules, start_session-Stays, create_user-Stays Q w w.fresh_user_id, q.fresh)

  reset_for-Stays : (a : Option Account) → Stays (EveryUser Q) (reset_for {P = P} w a)
  reset_for-Stays none = search stays_rules
  reset_for-Stays (some (id, u)) =
      Keeps-EveryUser Q (reset_for {P = P} w (some (id, u))) (record { at = λ db. ground arith })

  pub request_reset_password-Stays :
      (email : String) → Stays (EveryUser Q) (request_reset_password {P = P} w email)
  unfolding request_reset_password
  request_reset_password-Stays email = search (stays_rules, reset_for-Stays)

  replaced-Stays :
      (id password : String)
      → Stays (EveryUser Q) (update_user {P = P} w id λ u. record u { password = some password })
  replaced-Stays id password = update_user-Stays Q w id _ (λ u h. q.kept u _ _ _ _ _ h)

  drop_refresh_tokens-Stays : (id : String) → Stays (EveryUser Q) (drop_refresh_tokens {P = P} w id)
  drop_refresh_tokens-Stays id = record { at = λ db every. every }

  pub update_password-Stays :
      (a : Account) (password : String) (old : Option String)
      → Stays (EveryUser Q) (update_password {P = P} w a password old)
  unfolding update_password
  update_password-Stays (id, u) password old =
      search (stays_rules, replaced-Stays, drop_refresh_tokens-Stays, create_refresh_token-Stays)

  pub sign_out-Stays : (token : String) → Stays (EveryUser Q) (sign_out {P = P} w token)
  unfolding sign_out
  sign_out-Stays token =
      Keeps-EveryUser Q (sign_out {P = P} w token) (record { at = λ db. ground arith })

  change_password-Stays :
      (id password : String) → Stays (EveryUser Q) (change_password {P = P} w id password)
  change_password-Stays id password = record {
    at = λ db every. elim (Option-cases (P.find id db.users)) [
      | inl missing ↦ rw (missing, change_password) every
      | inr (u, found) ↦
          rw (found, change_password)
            (put_user-EveryUser Q id _ db every (q.kept u _ _ _ _ _ (every id u found)))
    ];
  }

  use_login_token-Stays :
      (token : String) (t : LoginToken) → Stays (EveryUser Q) (use_login_token {P = P} w token t)
  use_login_token-Stays token t = record { at = λ db every. every }

  pub sign_in_totp-Stays :
      (totp : Totp) (token code : String)
      → Stays (EveryUser Q) (sign_in_totp {P = P} w totp token code)
  unfolding sign_in_totp start_session
  sign_in_totp-Stays totp token code = search (stays_rules, use_login_token-Stays)

  pub reset_password-Stays :
      (token password : String) → Stays (EveryUser Q) (reset_password {P = P} w token password)
  unfolding reset_password
  reset_password-Stays token password = record {
    at = λ db every. elim (Bool-cases w.config.oauth_disable_password) [
      | inl disabled ↦ rw (disabled, reset_password) every
      | inr enabled ↦ elim (Option-cases (P.find token db.reset_password_tokens)) [
        | inl missing ↦ rw (enabled, reset_password) (rw missing every)
        | inr (t, found) ↦
            rw (enabled, reset_password)
              (rw found (elim (Bool-cases (ltb w.now t.expires_at)) [
                | inl in_time ↦ rw in_time (
                    (change_password-Stays t.user_id password).at
                      (record db { reset_password_tokens = P.erase token db.reset_password_tokens })
                      every)
                | inr late ↦ rw late every
              ]))
      ]
    ];
  }

-- ===== src/Auth/Once.antt =====
-- Tokens that work once.
use better_pingvin_share.Prelude.{
  ℕ, String, true, false, Option, none, some, ◌≡◌, arith, refl, Option-cases, Bool-cases, inl, inr,
  ltb, ◌===◌, ===-refl, ◌↔◌,
}
use better_pingvin_share.Http.{done, throw, Outcome-cases}
use better_pingvin_share.Prisma.{Prisma}
use better_pingvin_share.Schema.{Db, User, LoginToken, ResetPasswordToken}
use better_pingvin_share.World.{World}
use better_pingvin_share.Auth.{
  Totp, Session, sign_in_totp, login_token_outcome, code_outcome, invalid_login_token,
  start_session, create_refresh_token, reset_password, change_password,
}

code_right :
    (totp : Totp) (code : String) (u v : User)
    → code_outcome totp code (some u) ≡ done v
    → (secret : String) × (u.totp_secret ≡ some secret)
      × ((secret === "") ≡ false)
      × (totp.check code secret ≡ true)
code_right totp code u v e = elim (Option-cases u.totp_secret) [
  | inl off ↦ absurd (ground arith)
  | inr (secret, on) ↦ (secret, on, ground arith, ground arith)
]

passed_token :
    (now : ℕ) (t : LoginToken)
    → t.used ≡ false
    → ltb t.expires_at now ≡ false
    → login_token_outcome now (some t) ≡ done t
passed_token now t unused in_time = ground arith

passed_code :
    (totp : Totp) (code secret : String) (u : User)
    → u.totp_secret ≡ some secret
    → (secret === "") ≡ false
    → totp.check code secret ≡ true
    → code_outcome totp code (some u) ≡ done u
passed_code totp code secret u on real right = ground arith

module _ {P : Prisma} where
  -- A sign-in with a token that was used, or is not there, is refused.
  pub sign_in_totp_used :
      (w : World) (totp : Totp) (token code : String) (db : Db P) (t : LoginToken)
      → P.find token db.login_tokens ≡ some t
      → t.used ≡ true
      → (sign_in_totp w totp token code db).0 ≡ throw invalid_login_token
  unfolding sign_in_totp
  sign_in_totp_used w totp token code db t found used = rw (found, used) refl

  -- What a sign-in with a code comes to: nothing is changed, or the checks are passed, a session is
  -- started, and the token is marked as used.
  pub record SignsIn (w : World) (totp : Totp) (token code : String) (db : Db P) : Type 0 where
    pub row : LoginToken
    pub found : P.find token db.login_tokens ≡ some row
    pub unused : row.used ≡ false
    pub in_time : ltb row.expires_at w.now ≡ false
    pub user : User
    pub registered : P.find row.user_id db.users ≡ some user
    pub secret : String
    pub enrolled : user.totp_secret ≡ some secret
    pub real : (secret === "") ≡ false
    pub right : totp.check code secret ≡ true

  signed_in :
      (w : World) (totp : Totp) (token code : String) (db : Db P)
      → (v : SignsIn w totp token code db)
      → sign_in_totp w totp token code db
        ≡ start_session w v.row.user_id v.user none (record db {
          login_tokens = P.write token (record v.row { used = true }) db.login_tokens;
        })
  unfolding sign_in_totp
  signed_in w totp token code db v =
      rw
        (
          v.found,
          passed_token w.now v.row v.unused v.in_time,
          v.registered,
          passed_code totp code v.secret v.user v.enrolled v.real v.right,
        )
        refl

  done-SignsIn :
      (w : World) (totp : Totp) (token code : String) (db : Db P) (r : Session)
      → (sign_in_totp w totp token code db).0 ≡ done r
      → SignsIn w totp token code db
  unfolding sign_in_totp
  done-SignsIn w totp token code db r e = elim (Option-cases (P.find token db.login_tokens)) [
    | inl lost ↦ absurd (ground arith)
    | inr (t, found) ↦ elim (Bool-cases t.used) [
      | inl used ↦ absurd (ground arith)
      | inr unused ↦ elim (Bool-cases (ltb t.expires_at w.now)) [
        | inl late ↦ absurd (ground arith)
        | inr in_time ↦ elim (Option-cases (P.find t.user_id db.users)) [
          | inl gone ↦ absurd (ground arith)
          | inr (u, registered) ↦ elim (Outcome-cases (code_outcome totp code (some u))) [
            | inl (error, wrong) ↦ absurd (ground arith)
            | inr (v, passed) ↦
                let (secret, enrolled, real, right) = code_right totp code u v passed in
                record {
                  row = t;
                  found = found;
                  unused = unused;
                  in_time = in_time;
                  user = u;
                  registered = registered;
                  secret = secret;
                  enrolled = enrolled;
                  real = real;
                  right = right;
                }
          ]
        ]
      ]
    ]
  ]

  start_session-login_tokens :
      (w : World) (id : String) (u : User) (id_token : Option String) (db : Db P)
      → (start_session w id u id_token db).1.login_tokens ≡ db.login_tokens
  unfolding start_session create_refresh_token
  start_session-login_tokens w id u id_token db = refl

  started :
      (w : World) (id : String) (u : User) (id_token : Option String) (db : Db P)
      → (r : Session) × ((start_session w id u id_token db).0 ≡ done r)
  unfolding start_session create_refresh_token
  started w id u id_token db = (_, refl)

  -- A sign-in with a login token and a code succeeds exactly when the token is there, was not used
  -- and has not expired, its user has a secret, and the code is right for the secret.
  pub sign_in_totp_iff :
      (w : World) (totp : Totp) (token code : String) (db : Db P)
      → ((r : Session) × ((sign_in_totp w totp token code db).0 ≡ done r))
        ↔ SignsIn w totp token code db
  sign_in_totp_iff w totp token code db = (
    λ (r, e). done-SignsIn w totp token code db r e,
    λ v. rw (signed_in w totp token code db v) (started w v.row.user_id v.user none _),
  )

  -- After a sign-in with a login token has succeeded, every later sign-in with the same token on the
  -- state that it left is refused, whatever the code and the time.
  pub sign_in_totp_once :
      (w later : World) (totp now : Totp) (token code again : String) (db : Db P) (r : Session)
      → (sign_in_totp w totp token code db).0 ≡ done r
      → (sign_in_totp later now token again (sign_in_totp w totp token code db).1).0
        ≡ throw invalid_login_token
  sign_in_totp_once w later totp now token code again db r e =
      let v = done-SignsIn w totp token code db r e in
      sign_in_totp_used later now token again (sign_in_totp w totp token code db).1
        (record v.row { used = true })
        (rw
          (
            signed_in w totp token code db v,
            start_session-login_tokens w v.row.user_id v.user none (record db {
              login_tokens = P.write token (record v.row { used = true }) db.login_tokens;
            }),
          )
          (simp (P.find-write, ===-refl)))
        refl

  change_found :
      (w : World) (id password : String) (db : Db P) (u : User)
      → P.find id db.users ≡ some u
      → change_password w id password db ≡ (
        done tt,
        record db {
          users = P.write id (record u { password = some (w.argon.hash w.salt password) }) db.users;
        },
      )
  change_found w id password db u found = rw (found, change_password) refl

  reset_found :
      (w : World) (token password : String) (db : Db P) (t : ResetPasswordToken)
      → w.config.oauth_disable_password ≡ false
      → P.find token db.reset_password_tokens ≡ some t
      → ltb w.now t.expires_at ≡ true
      → reset_password w token password db
        ≡ change_password w t.user_id password
            (record db { reset_password_tokens = P.erase token db.reset_password_tokens })
  unfolding reset_password
  reset_found w token password db t enabled found in_time = rw (enabled, found, in_time) refl

  -- With a token that is there and has not expired, the reset of a password succeeds where the user
  -- is there and passwords are enabled: the user's stored hash verifies the new password, and the
  -- token is gone.
  pub reset_password_lem :
      (w : World) (token password : String) (db : Db P) (t : ResetPasswordToken) (u : User)
      → w.config.oauth_disable_password ≡ false
      → P.find token db.reset_password_tokens ≡ some t
      → ltb w.now t.expires_at ≡ true
      → P.find t.user_id db.users ≡ some u
      → ((reset_password w token password db).0 ≡ done tt)
        × (P.find token (reset_password w token password db).1.reset_password_tokens ≡ none)
        × ((hash : String) × (P.find t.user_id (reset_password w token password db).1.users
              ≡ some (record u { password = some hash }))
            × (w.argon.verify hash password ≡ true))
  reset_password_lem w token password db t u enabled found in_time registered =
      rw
        (
          reset_found w token password db t enabled found in_time,
          change_found w t.user_id password
              (record db { reset_password_tokens = P.erase token db.reset_password_tokens }) u
              registered,
        )
        (
          refl,
          simp (P.find-erase, ===-refl),
          (
            w.argon.hash w.salt password,
            simp (P.find-write, ===-refl),
            w.argon.verify-hash w.salt password,
          ),
        )

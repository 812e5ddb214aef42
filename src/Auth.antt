-- ===== src/Auth.antt =====
-- backend/src/auth: sign-in with a second factor (authTotp.service.ts) and the tokens of auth.service.ts
-- that it uses, and the reset of passwords. The one-time codes' package and the LDAP server are
-- parameters. A row's `id`, which is drawn with its `token`, is spelled like the token here.
mod Tests
pub mod Once
pub mod Ldap
pub mod SignIn
pub mod SecondFactor
pub mod Sessions
pub mod Passwords
pub mod Granted
pub mod Enrolled
pub mod Stays
use better_pingvin_share.Prelude.{
  ℕ, ◌/◌, String, Bool, true, false, not, ◌&&◌, Option, none, some, ltb, if◌then◌else◌, truthy,
  ◌===◌,
}
use better_pingvin_share.Http.{
  Outcome, done, throw, Handler, HttpError, unauthorized, bad_request, forbidden, prisma_error,
  type_error, pure, raise, lift, gets, throw_if, ◌>>=◌, ◌>>◌,
}
use better_pingvin_share.Prisma.{Prisma}
use better_pingvin_share.Schema.{Db, User, LoginToken, RefreshToken, ResetPasswordToken}
use better_pingvin_share.World.{World, Timespan, access}

-- `authenticator` of the package of one-time codes at the present time: is a code right for a secret,
-- which code is it, and a new secret
pub record Totp : Type 0 where
  pub check : String → String → Bool
  pub generate : String → String
  pub generate_secret : String

-- What a completed sign-in returns
pub record Session : Type 0 where
  pub access_token : String
  pub refresh_token : String

abbrev pub minutes : ℕ → Timespan
minutes n = record { value = n; unit = "minutes" }

abbrev pub one_hour : Timespan
one_hour = record { value = 1; unit = "hour" }

-- `createAccessToken`: good for fifteen minutes; the address in the claims is left out
unfoldable pub create_access_token : World → String → User → String → String
create_access_token w id u refresh_token_id =
    w.jwt.sign w.config.jwt_secret (access id u.is_admin refresh_token_id) (w.now / 1000) (some 900)

abbrev pub invalid_login_token : HttpError
invalid_login_token = unauthorized "Invalid login token"

-- The checks of `signInTotp` on the token
abbrev pub login_token_outcome : ℕ → Option LoginToken → Outcome LoginToken
login_token_outcome now none = throw invalid_login_token
login_token_outcome now (some t) =
    if t.used
    then throw invalid_login_token
    else if ltb t.expires_at now
    then throw (unauthorized "Login token expired")
    else done t

-- The checks of the code, by the secret of the user
abbrev pub code_outcome : Totp → String → Option User → Outcome User
code_outcome totp code none = throw type_error
code_outcome totp code (some u) = elim u.totp_secret [
  | none ↦ throw (bad_request "TOTP is not enabled")
  | some secret ↦
      if secret === ""
      then throw (bad_request "TOTP is not enabled")
      else if totp.check code secret
      then done u
      else throw (bad_request "Invalid code")
]

module _ {P : Prisma} (w : World) where
  unfoldable pub create_refresh_token : String → Option String → Handler (Db P) String
  create_refresh_token user id_token db = (
    done w.fresh_id,
    record db {
      refresh_tokens =
          P.write w.fresh_id
            (record {
              expires_at = w.moment.add w.now w.config.session_duration;
              user_id = user;
              oauth_id_token = id_token;
            })
            db.refresh_tokens;
    },
  )

  unfoldable pub create_login_token : String → Handler (Db P) String
  create_login_token user db = (
    done w.fresh_id,
    record db {
      login_tokens =
          P.write w.fresh_id
            (record { expires_at = w.moment.add w.now (minutes 5); user_id = user; used = false })
            db.login_tokens;
    },
  )

  abbrev pub use_login_token : String → LoginToken → Handler (Db P) Unit
  use_login_token token t db = (
    done tt,
    record db { login_tokens = P.write token (record t { used = true }) db.login_tokens },
  )

  -- Both tokens of a session
  unfoldable pub start_session : String → User → Option String → Handler (Db P) Session
  unfolding create_refresh_token
  start_session id u id_token = do
    refresh ← create_refresh_token id id_token
    pure (record { access_token = create_access_token w id u refresh; refresh_token = refresh })

  -- `signInTotp`
  unfoldable pub sign_in_totp : Totp → String → String → Handler (Db P) Session
  sign_in_totp totp token code = do
    found ← gets (λ (db : Db P). P.find token db.login_tokens)
    t ← lift (login_token_outcome w.now found)
    user ← gets (λ (db : Db P). P.find t.user_id db.users)
    u ← lift (code_outcome totp code user)
    use_login_token token t
    start_session t.user_id u none

  -- `refreshAccessToken`
  unfoldable pub refresh_access_token : String → Handler (Db P) String
  refresh_access_token token db = elim (P.find token db.refresh_tokens) [
    | none ↦ (throw (unauthorized "Unauthorized"), db)
    | some t ↦
        if ltb t.expires_at w.now
        then (throw (unauthorized "Unauthorized"), db)
        else elim (P.find t.user_id db.users) [
          | none ↦ (throw type_error, db)
          | some u ↦ (done (create_access_token w t.user_id u token), db)
        ]
  ]

  -- `resetPassword`: the token goes, and the user's password is replaced.
  abbrev pub change_password : String → String → Handler (Db P) Unit
  change_password id password db = elim (P.find id db.users) [
    | none ↦ (throw (prisma_error "P2025"), db)
    | some u ↦ (
      done tt,
      record db {
        users = P.write id (record u { password = some (w.argon.hash w.salt password) }) db.users;
      },
    )
  ]

  unfoldable pub reset_password : String → String → Handler (Db P) Unit
  reset_password token password db =
      if w.config.oauth_disable_password
      then (throw (forbidden "Password sign in is disabled" none), db)
      else elim (P.find token db.reset_password_tokens) [
        | none ↦ (throw (bad_request "Token invalid or expired"), db)
        | some t ↦
            if ltb w.now t.expires_at
            then change_password t.user_id password
                (record db { reset_password_tokens = P.erase token db.reset_password_tokens })
            else (throw (bad_request "Token invalid or expired"), db)
      ]

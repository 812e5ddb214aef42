-- ===== src/Auth/Granted.antt =====
-- What generateToken grants: a session, or a login token where a code is asked for.
use better_pingvin_share.Prelude.{String, true, false, not, ◌&&◌, Option, ◌≡◌, refl}
use better_pingvin_share.Http.{done}
use better_pingvin_share.Prisma.{Prisma}
use better_pingvin_share.Schema.{Db, User, RefreshToken, LoginToken}
use better_pingvin_share.World.{World}
use better_pingvin_share.Auth.{
  Session, minutes, create_access_token, create_refresh_token, create_login_token, start_session,
}
use better_pingvin_share.Auth.SignIn.{session, login, skips_code, id_token_of, generate_token}

abbrev pub session_of : World → String → User → Session
session_of w id u = record {
  access_token = create_access_token w id u w.fresh_id;
  refresh_token = w.fresh_id;
}

abbrev pub refresh_row : World → String → Option String → RefreshToken
refresh_row w id id_token = record {
  expires_at = w.moment.add w.now w.config.session_duration;
  user_id = id;
  oauth_id_token = id_token;
}

abbrev pub login_row : World → String → LoginToken
login_row w id = record { expires_at = w.moment.add w.now (minutes 5); user_id = id; used = false }

module _ {P : Prisma} (w : World) where
  abbrev pub with_session : String → Option String → Db P → Db P
  with_session id id_token db = record db {
    refresh_tokens = P.write w.fresh_id (refresh_row w id id_token) db.refresh_tokens;
  }

  abbrev pub with_login : String → Db P → Db P
  with_login id db = record db {
    login_tokens = P.write w.fresh_id (login_row w id) db.login_tokens;
  }

  pub granted_session :
      (id : String) (u : User) (oauth : Option (Option String)) (db : Db P)
      → (u.totp_verified && not (skips_code w oauth)) ≡ false
      → generate_token w id u oauth db
        ≡ (done (session (session_of w id u)), with_session id (id_token_of oauth) db)
  unfolding generate_token start_session create_refresh_token
  granted_session id u oauth db no_code = simp no_code refl

  pub granted_login :
      (id : String) (u : User) (oauth : Option (Option String)) (db : Db P)
      → (u.totp_verified && not (skips_code w oauth)) ≡ true
      → generate_token w id u oauth db ≡ (done (login w.fresh_id), with_login id db)
  unfolding generate_token create_login_token
  granted_login id u oauth db asked = simp asked refl

-- ===== src/Oauth/Untouched.antt =====
-- Handlers that leave the links to other sites alone.
use better_pingvin_share.Prelude.{String, Option, none, some, arith, refl, Bool}
use better_pingvin_share.Http.Keeps.{Keeps, keeps_rules}
use better_pingvin_share.Prisma.{Prisma}
use better_pingvin_share.Schema.{Db, User, OauthUser}
use better_pingvin_share.World.{World}
use better_pingvin_share.Users.Rows.{create_user, update_user}
use better_pingvin_share.Auth.{start_session, create_refresh_token, create_login_token}
use better_pingvin_share.Auth.SignIn.{generate_token, sign_up}
use better_pingvin_share.Oauth.{
  OauthSignIn, update_is_admin, grant_row, sign_in_linked, promote_and_grant,
}

module _ {P : Prisma} where
  abbrev pub links_of : Db P → P.Table OauthUser
  links_of db = db.oauth_users

module _ {P : Prisma} (w : World) where
  pub create_user-Keeps : (id : String) (u : User) → Keeps links_of (create_user {P = P} w id u)
  unfolding create_user
  create_user-Keeps id u = record { at = λ db. ground arith }

  pub update_user-Keeps :
      (id : String) (f : User → User) → Keeps links_of (update_user {P = P} w id f)
  unfolding update_user
  update_user-Keeps id f = record { at = λ db. ground arith }

  pub start_session-Keeps :
      (id : String) (u : User) (id_token : Option String)
      → Keeps links_of (start_session {P = P} w id u id_token)
  unfolding start_session create_refresh_token
  start_session-Keeps id u id_token = record { at = λ db. refl }

  pub create_login_token-Keeps : (id : String) → Keeps links_of (create_login_token {P = P} w id)
  unfolding create_login_token
  create_login_token-Keeps id = record { at = λ db. refl }

  pub generate_token-Keeps :
      (id : String) (u : User) (oauth : Option (Option String))
      → Keeps links_of (generate_token {P = P} w id u oauth)
  unfolding generate_token
  generate_token-Keeps id u oauth =
      search (keeps_rules, start_session-Keeps, create_login_token-Keeps)

  pub sign_up-Keeps :
      (email username : String) (password : Option String) (is_admin : Option Bool)
      → Keeps links_of (sign_up {P = P} w email username password is_admin)
  unfolding sign_up
  sign_up-Keeps email username password is_admin =
      search (keeps_rules, start_session-Keeps, create_user-Keeps)

  pub update_is_admin-Keeps :
      (id : String) (is_admin : Option Bool)
      → Keeps links_of (update_is_admin {P = P} w id is_admin)
  update_is_admin-Keeps id is_admin = search (keeps_rules, update_user-Keeps)

  pub grant_row-Keeps :
      (id : String) (u : Option User) (dto : OauthSignIn)
      → Keeps links_of (grant_row {P = P} w id u dto)
  grant_row-Keeps id none dto = search keeps_rules
  grant_row-Keeps id (some u) dto = generate_token-Keeps id u (some dto.id_token)

  pub sign_in_linked-Keeps :
      (dto : OauthSignIn) (o : OauthUser) → Keeps links_of (sign_in_linked {P = P} w dto o)
  sign_in_linked-Keeps dto o = search (keeps_rules, update_is_admin-Keeps, grant_row-Keeps)

  pub promoted-Keeps :
      (dto : OauthSignIn) (id : String) (u : User)
      → Keeps links_of (promote_and_grant {P = P} w dto id u)
  promoted-Keeps dto id u = search (keeps_rules, update_is_admin-Keeps, generate_token-Keeps)

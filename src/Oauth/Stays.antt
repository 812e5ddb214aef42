-- ===== src/Oauth/Stays.antt =====
-- The calls of oauth.service.ts keep what holds of the row of every user, where it is said of the columns
-- of the second factor.
use better_pingvin_share.Prelude.{String, Bool, true, Option, none, some}
use better_pingvin_share.Http.Stays.{Stays, stays_rules}
use better_pingvin_share.Prisma.{Prisma}
use better_pingvin_share.Schema.{User, OauthUser}
use better_pingvin_share.World.{World}
use better_pingvin_share.Users.Rows.{Account, update_user}
use better_pingvin_share.Users.Every.{EveryUser, update_user-Stays}
use better_pingvin_share.Users.Stays.{OfFactor}
use better_pingvin_share.Auth.{Session}
use better_pingvin_share.Auth.Stays.{generate_token-Stays, sign_up-Stays}
use better_pingvin_share.Oauth.{
  OauthSignIn, first_link, link, unlink, link_unless, unlink_row, create_link, update_is_admin,
  grant_row, sign_in_linked, join_user, link_made, register_as, register, oauth_sign_up, by_link,
  oauth_sign_in, is_account, linked_by,
}

module _ {P : Prisma} (w : World) {Q : User → Type 0} (q : OfFactor Q) where
  create_link-Stays : (o : OauthUser) → Stays (EveryUser Q) (create_link {P = P} w o)
  create_link-Stays o = record { at = λ db every. every }

  promoted-Stays :
      (id : String)
      → Stays (EveryUser Q) (update_user {P = P} w id λ u. record u { is_admin = true })
  promoted-Stays id = update_user-Stays Q w id _ (λ u h. q.kept u _ _ _ _ _ h)

  update_is_admin-Stays :
      (id : String) (is_admin : Option Bool)
      → Stays (EveryUser Q) (update_is_admin {P = P} w id is_admin)
  update_is_admin-Stays id is_admin = search (stays_rules, promoted-Stays)

  grant_row-Stays :
      (id : String) (u : Option User) (dto : OauthSignIn)
      → Stays (EveryUser Q) (grant_row {P = P} w id u dto)
  grant_row-Stays id none dto = search stays_rules
  grant_row-Stays id (some u) dto = generate_token-Stays w q id u (some dto.id_token)

  sign_in_linked-Stays :
      (dto : OauthSignIn) (o : OauthUser) → Stays (EveryUser Q) (sign_in_linked {P = P} w dto o)
  sign_in_linked-Stays dto o = search (stays_rules, update_is_admin-Stays, grant_row-Stays)

  join_user-Stays :
      (dto : OauthSignIn) (a : Account) → Stays (EveryUser Q) (join_user {P = P} w dto a)
  join_user-Stays dto (id, u) =
      search (stays_rules, create_link-Stays, update_is_admin-Stays, generate_token-Stays w q)

  link_made-Stays :
      (dto : OauthSignIn) (made : Account × Session)
      → Stays (EveryUser Q) (link_made {P = P} w dto made)
  link_made-Stays dto ((id, u), tokens) = search (stays_rules, create_link-Stays)

  register_as-Stays :
      (dto : OauthSignIn) (email : String) (name : Option String)
      → Stays (EveryUser Q) (register_as {P = P} w dto email name)
  register_as-Stays dto email none = search stays_rules
  register_as-Stays dto email (some name) = search (stays_rules, sign_up-Stays w q, link_made-Stays)

  register-Stays :
      (dto : OauthSignIn) (email : String) (old : Option Account)
      → Stays (EveryUser Q) (register {P = P} w dto email old)
  register-Stays dto email (some a) = join_user-Stays dto a
  register-Stays dto email none = search (stays_rules, register_as-Stays)

  oauth_sign_up-Stays :
      (dto : OauthSignIn) (email : Option String)
      → Stays (EveryUser Q) (oauth_sign_up {P = P} w dto email)
  oauth_sign_up-Stays dto none = search stays_rules
  oauth_sign_up-Stays dto (some email) = search (stays_rules, register-Stays)

  by_link-Stays :
      (dto : OauthSignIn) (linked : Option (String × OauthUser))
      → Stays (EveryUser Q) (by_link {P = P} w dto linked)
  by_link-Stays dto none = search (stays_rules, oauth_sign_up-Stays)
  by_link-Stays dto (some (k, o)) = sign_in_linked-Stays dto o

  pub oauth_sign_in-Stays : (dto : OauthSignIn) → Stays (EveryUser Q) (oauth_sign_in {P = P} w dto)
  unfolding oauth_sign_in
  oauth_sign_in-Stays dto = search (stays_rules, by_link-Stays)

  link_unless-Stays :
      (o : OauthUser) (old : Option (String × OauthUser))
      → Stays (EveryUser Q) (link_unless {P = P} w o old)
  link_unless-Stays o none = create_link-Stays o
  link_unless-Stays o (some r) = search stays_rules

  pub link-Stays :
      (user provider id name : String) → Stays (EveryUser Q) (link {P = P} w user provider id name)
  unfolding link
  link-Stays user provider id name = record {
    at = λ db. (link_unless-Stays _ (first_link (is_account provider id) db)).at db;
  }

module _ {P : Prisma} {Q : User → Type 0} where
  unlink_row-Stays :
      (old : Option (String × OauthUser)) → Stays (EveryUser Q) (unlink_row {P = P} old)
  unlink_row-Stays none = record { at = λ db every. every }
  unlink_row-Stays (some (k, o)) = record { at = λ db every. every }

  pub unlink-Stays : (user provider : String) → Stays (EveryUser Q) (unlink {P = P} user provider)
  unfolding unlink
  unlink-Stays user provider = record {
    at = λ db. (unlink_row-Stays (first_link (linked_by user provider) db)).at db;
  }

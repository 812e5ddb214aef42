-- ===== src/Oauth/Signed.antt =====
-- What a sign-in by an account at another site leads to.
use better_pingvin_share.Prelude.{
  String, false, Option, none, some, ◌≡◌, inl, inr, arith, refl, Option-cases, ===-refl, sym, ◌∙◌,
}
use better_pingvin_share.Http.{done, throw, error_page}
use better_pingvin_share.Http.After.{Returns, returns_rules}
use better_pingvin_share.Prisma.{Prisma}
use better_pingvin_share.Schema.{Db, User, OauthUser, RefreshToken}
use better_pingvin_share.Store.First.{first_selected}
use better_pingvin_share.World.{World}
use better_pingvin_share.Users.Rows.{Account}
use better_pingvin_share.Auth.{Session}
use better_pingvin_share.Auth.SignIn.{Granted, session}
use better_pingvin_share.Oauth.{
  OauthSignIn, is_account, is_admin_asked, first_link, link, account_link, promote_and_grant,
  link_made, sign_in_linked, join_user, register_as, register, oauth_sign_up, sign_up_allowed,
  oauth_sign_in,
}
use better_pingvin_share.Auth.Granted.{session_of, refresh_row, granted_session}
use better_pingvin_share.Oauth.Links.{
  LinkedOnce, Linked, put_link-Linked, Linked-found, first_link_found,
}
use better_pingvin_share.Oauth.Untouched.{promoted-Keeps, sign_in_linked-Keeps}
use better_pingvin_share.Oauth.Once.{kept}

module _ {P : Prisma} (w : World) where
  -- Somebody is linked to the account of a sign-in.
  abbrev pub AccountLinked : OauthSignIn → Db P → Type 0
  AccountLinked dto db = Linked P dto.provider dto.provider_id db.oauth_users

  join_user-Returns :
      (dto : OauthSignIn) (a : Account) → Returns (AccountLinked dto) (join_user {P = P} w dto a)
  join_user-Returns dto (id, u) = record {
    at = λ db r e.
        (kept {P = P} w (Linked P dto.provider dto.provider_id) (promote_and_grant w dto id u)
            (promoted-Keeps w dto id u)).at
          _ (put_link-Linked w.fresh_link_id (account_link dto id) db);
  }

  link_made-Returns :
      (dto : OauthSignIn) (made : Account × Session)
      → Returns (AccountLinked dto) (link_made {P = P} w dto made)
  link_made-Returns dto ((id, u), tokens) = record {
    at = λ db r e. put_link-Linked w.fresh_link_id (account_link dto id) db;
  }

  register_as-Returns :
      (dto : OauthSignIn) (email : String) (name : Option String)
      → Returns (AccountLinked dto) (register_as {P = P} w dto email name)
  register_as-Returns dto email none = search returns_rules
  register_as-Returns dto email (some name) = search (returns_rules, link_made-Returns)

  register-Returns :
      (dto : OauthSignIn) (email : String) (old : Option Account)
      → Returns (AccountLinked dto) (register {P = P} w dto email old)
  register-Returns dto email (some a) = join_user-Returns dto a
  register-Returns dto email none = search (returns_rules, register_as-Returns)

  oauth_sign_up-Returns :
      (dto : OauthSignIn) (email : Option String)
      → Returns (AccountLinked dto) (oauth_sign_up {P = P} w dto email)
  oauth_sign_up-Returns dto none = search returns_rules
  oauth_sign_up-Returns dto (some email) = search (returns_rules, register-Returns)

  sign_up_allowed-Returns :
      (dto : OauthSignIn) → Returns (AccountLinked dto) (sign_up_allowed {P = P} w dto)
  sign_up_allowed-Returns dto = search (returns_rules, oauth_sign_up-Returns)

  link_there :
      (dto : OauthSignIn) (db : Db P) (k : String) (o : OauthUser)
      → first_link (is_account dto.provider dto.provider_id) db ≡ some (k, o)
      → AccountLinked dto db
  link_there dto db k o linked =
      let (there, same) =
        first_selected (is_account dto.provider dto.provider_id) (P.rows db.oauth_users) k o
          (P.rows-DistinctKeys db.oauth_users) linked in
      (k, o, sym (P.lookup-rows k db.oauth_users) ∙ there, same)

  oauth_sign_in-Returns :
      (dto : OauthSignIn) (db : Db P) (g : Granted)
      → (oauth_sign_in {P = P} w dto db).0 ≡ done g
      → AccountLinked dto (oauth_sign_in {P = P} w dto db).1
  unfolding oauth_sign_in
  oauth_sign_in-Returns dto db g e =
      elim (Option-cases (first_link (is_account dto.provider dto.provider_id) db)) [
        | inl free ↦ rw free ((sign_up_allowed-Returns dto).at db g (rw free at e))
        | inr ((k, o), linked) ↦ rw linked (
            (kept {P = P} w (Linked P dto.provider dto.provider_id) (sign_in_linked w dto o)
                (sign_in_linked-Keeps w dto o)).at
              db (link_there dto db k o linked))
      ]

  -- After a sign-in by an account has succeeded, the account is linked to a user: whoever asks to link
  -- it, it is refused, and nothing changes.
  pub signed_in_account_refused :
      (later : World) (dto : OauthSignIn) (user name : String) (db : Db P) (g : Granted)
      → (oauth_sign_in w dto db).0 ≡ done g
      → link later user dto.provider dto.provider_id name (oauth_sign_in w dto db).1
        ≡ (throw (error_page "already_linked"), (oauth_sign_in w dto db).1)
  unfolding link
  signed_in_account_refused later dto user name db g e =
      let (r, there) =
        Linked-found dto.provider dto.provider_id (oauth_sign_in w dto db).1
          (oauth_sign_in-Returns dto db g e) in
      rw there refl

  -- While no two links have the same account, a sign-in by a linked account is one of the user of the
  -- link, where the user is there and no code is asked for, and the sign-in gives no role: a session is
  -- started, whose refresh token is stored as that user's.
  pub linked_signs_in :
      (dto : OauthSignIn) (k : String) (o : OauthUser) (u : User) (db : Db P)
      → LinkedOnce db
      → P.find k db.oauth_users ≡ some o
      → o.provider ≡ dto.provider
      → o.provider_user_id ≡ dto.provider_id
      → P.find o.user_id db.users ≡ some u
      → u.totp_verified ≡ false
      → is_admin_asked dto.is_admin ≡ false
      → (s : Session) × (t : RefreshToken) × ((oauth_sign_in w dto db).0 ≡ done (session s))
        × (P.find s.refresh_token (oauth_sign_in w dto db).1.refresh_tokens ≡ some t)
        × (t.user_id ≡ o.user_id)
  unfolding oauth_sign_in
  linked_signs_in dto k o u db once found provider id there no_code no_role =
      let linked : first_link (is_account dto.provider dto.provider_id) db ≡ some (k, o) =
        rw (← provider, ← id) (first_link_found k o db once found) in
      rw
        (
          linked,
          no_role,
          there,
          granted_session w o.user_id u (some dto.id_token) db (simp no_code refl),
        )
        (
          session_of w o.user_id u,
          refresh_row w o.user_id dto.id_token,
          refl,
          ground (
            arith,
            P.find-write w.fresh_id w.fresh_id (refresh_row w o.user_id dto.id_token)
                db.refresh_tokens,
            ===-refl w.fresh_id,
          ),
          refl,
        )

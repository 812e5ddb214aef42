-- ===== src/Oauth/Once.antt =====
-- The calls of oauth.service.ts link an account to one user only, and a sign-in links the account.
use better_pingvin_share.Prelude.{String, Option, none, some, inl, inr, arith, Option-cases}
use better_pingvin_share.Http.{Handler, pure}
use better_pingvin_share.Http.Stays.{Stays, Stays-pure, Stays-gets}
use better_pingvin_share.Http.Keeps.{Keeps}
use better_pingvin_share.Http.After.{After, After-bind, After-then, After-raise, after_rules}
use better_pingvin_share.Prisma.{Prisma}
use better_pingvin_share.Schema.{Db, OauthUser}
use better_pingvin_share.World.{World}
use better_pingvin_share.Users.Rows.{Account}
use better_pingvin_share.Auth.{Session}
use better_pingvin_share.Auth.SignIn.{session, sign_up}
use better_pingvin_share.Oauth.{
  OauthSignIn, is_account, linked_by, first_link, link, unlink, create_link, account_link,
  sign_in_linked, join_user, promote_and_grant, link_made, register_as, register, oauth_sign_up,
  sign_up_allowed, oauth_sign_in,
}
use better_pingvin_share.Oauth.Untouched.{
  links_of, sign_up-Keeps, sign_in_linked-Keeps, promoted-Keeps,
}
use better_pingvin_share.Oauth.Links.{LinkedOnce, Once, Unlinked, put_link-LinkedOnce}

module _ {P : Prisma} (w : World) where
  -- An invariant of the links is kept by what keeps them.
  pub kept :
      {A : Type 0} (I : P.Table OauthUser → Type 0) (m : Handler (Db P) A)
      → Keeps links_of m
      → Stays (λ (db : Db P). I db.oauth_users) m
  kept I m k = record { at = λ db h. rw (k.at db) h }

  create_link-After :
      (dto : OauthSignIn) (user : String)
      → After
          (λ (db : Db P). Unlinked P dto.provider dto.provider_id db.oauth_users)
          LinkedOnce
          (create_link w (account_link dto user))
  create_link-After dto user = record {
    at = λ db h. put_link-LinkedOnce w.fresh_link_id (account_link dto user) db h.0 h.1;
  }

  join_user-After :
      (dto : OauthSignIn) (a : Account)
      → After
          (λ (db : Db P). Unlinked P dto.provider dto.provider_id db.oauth_users)
          LinkedOnce
          (join_user w dto a)
  join_user-After dto (id, u) =
      After-then (create_link w (account_link dto id)) (λ t. promote_and_grant w dto id u)
        (create_link-After dto id)
        (λ t. kept (Once P) (promote_and_grant w dto id u) (promoted-Keeps w dto id u))

  link_made-After :
      (dto : OauthSignIn) (made : Account × Session)
      → After
          (λ (db : Db P). Unlinked P dto.provider dto.provider_id db.oauth_users)
          LinkedOnce
          (link_made w dto made)
  link_made-After dto ((id, u), tokens) =
      After-then (create_link w (account_link dto id)) (λ t. pure (session tokens))
        (create_link-After dto id) (λ t. Stays-pure (session tokens))

  weaken :
      (provider id : String) (db : Db P) → Unlinked P provider id db.oauth_users → LinkedOnce db
  weaken provider id db h = h.1

  register_as-After :
      (dto : OauthSignIn) (email : String) (name : Option String)
      → After
          (λ (db : Db P). Unlinked P dto.provider dto.provider_id db.oauth_users)
          LinkedOnce
          (register_as w dto email name)
  register_as-After dto email none = After-raise _ (weaken dto.provider dto.provider_id)
  register_as-After dto email (some name) =
      After-bind (sign_up w email name none dto.is_admin) (link_made w dto)
        (weaken dto.provider dto.provider_id)
        (kept (Unlinked P dto.provider dto.provider_id) (sign_up w email name none dto.is_admin)
          (sign_up-Keeps w email name none dto.is_admin))
        (link_made-After dto)

  register-After :
      (dto : OauthSignIn) (email : String) (old : Option Account)
      → After
          (λ (db : Db P). Unlinked P dto.provider dto.provider_id db.oauth_users)
          LinkedOnce
          (register w dto email old)
  register-After dto email (some a) = join_user-After dto a
  register-After dto email none =
      search (after_rules, Stays-gets, weaken dto.provider dto.provider_id, register_as-After)

  oauth_sign_up-After :
      (dto : OauthSignIn) (email : Option String)
      → After
          (λ (db : Db P). Unlinked P dto.provider dto.provider_id db.oauth_users)
          LinkedOnce
          (oauth_sign_up w dto email)
  oauth_sign_up-After dto none = After-raise _ (weaken dto.provider dto.provider_id)
  oauth_sign_up-After dto (some email) =
      search (after_rules, Stays-gets, weaken dto.provider dto.provider_id, register-After)

  sign_up_allowed-After :
      (dto : OauthSignIn)
      → After
          (λ (db : Db P). Unlinked P dto.provider dto.provider_id db.oauth_users)
          LinkedOnce
          (sign_up_allowed w dto)
  sign_up_allowed-After dto =
      search (after_rules, weaken dto.provider dto.provider_id, oauth_sign_up-After)

  pub oauth_sign_in-Stays : (dto : OauthSignIn) → Stays LinkedOnce (oauth_sign_in {P = P} w dto)
  unfolding oauth_sign_in
  oauth_sign_in-Stays dto = record {
    at = λ db once. elim (Option-cases (first_link (is_account dto.provider dto.provider_id) db)) [
      | inl free ↦ rw free ((sign_up_allowed-After dto).at db (free, once))
      | inr ((k, o), linked) ↦
          rw linked
            ((kept (Once P) (sign_in_linked w dto o) (sign_in_linked-Keeps w dto o)).at db once)
    ];
  }

module _ {P : Prisma} where
  pub link-Stays :
      (w : World) (user provider id name : String)
      → Stays LinkedOnce (link {P = P} w user provider id name)
  unfolding link
  link-Stays w user provider id name = record {
    at = λ db once. elim (Option-cases (first_link (is_account provider id) db)) [
      | inl free ↦ rw free (put_link-LinkedOnce w.fresh_link_id _ db free once)
      | inr (r, taken) ↦ rw taken once
    ];
  }

  erased-Once :
      (k : String) (db : Db P)
      → LinkedOnce db
      → LinkedOnce (record db { oauth_users = P.erase k db.oauth_users })
  erased-Once k db once i j a b ia jb same =
      once i j a b (ground (arith, P.find-erase k i db.oauth_users))
        (ground (arith, P.find-erase k j db.oauth_users)) same

  pub unlink-Stays : (user provider : String) → Stays LinkedOnce (unlink {P = P} user provider)
  unfolding unlink
  unlink-Stays user provider = record {
    at = λ db once. elim (Option-cases (first_link (linked_by user provider) db)) [
      | inl missing ↦ rw missing once
      | inr ((k, o), there) ↦ rw there (erased-Once k db once)
    ];
  }

  -- While no two links have the same account, none have after a sign-in by an account, the linking of
  -- one or the removal of a link, whether the call succeeds or fails.
  pub oauth_calls-LinkedOnce :
      (w : World) (dto : OauthSignIn) (user provider id name : String) (db : Db P)
      → LinkedOnce db
      → LinkedOnce (oauth_sign_in w dto db).1
        × LinkedOnce (link w user provider id name db).1
        × LinkedOnce (unlink user provider db).1
  oauth_calls-LinkedOnce w dto user provider id name db once = (
    (oauth_sign_in-Stays w dto).at db once,
    (link-Stays w user provider id name).at db once,
    (unlink-Stays user provider).at db once,
  )

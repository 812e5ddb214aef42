-- ===== src/Oauth/Links.antt =====
-- An account at another site is linked to one user.
use better_pingvin_share.Prelude.{
  String, true, false, none, some, ◌≡◌, inl, inr, arith, sym, ◌∙◌, Bool, Bool-cases, Option-cases,
  ◌===◌, eq_iff,
}
use better_pingvin_share.Prisma.{Prisma}
use better_pingvin_share.Prisma.Keyed.{select, select-keeps}
use better_pingvin_share.Schema.{Db, OauthUser}
use better_pingvin_share.Store.{first_row}
use better_pingvin_share.Store.First.{nothing_selected, only_selected}
use better_pingvin_share.Oauth.{is_account, first_link, put_link}

is_account_sym :
    (a b : OauthUser)
    → is_account a.provider a.provider_user_id b ≡ true
    → is_account b.provider b.provider_user_id a ≡ true
is_account_sym a b same = ground (
  arith,
  eq_iff a.provider b.provider,
  eq_iff b.provider a.provider,
  eq_iff a.provider_user_id b.provider_user_id,
  eq_iff b.provider_user_id a.provider_user_id,
)

-- No two links have the same account.
abbrev pub Once : (P : Prisma) → P.Table OauthUser → Type 0
Once P t =
    (j k : String) (a b : OauthUser)
    → P.find j t ≡ some a
    → P.find k t ≡ some b
    → is_account a.provider a.provider_user_id b ≡ true
    → j ≡ k

-- Nobody is linked to an account, and no link of it is in the way of a new one.
abbrev pub Unlinked : (P : Prisma) → String → String → P.Table OauthUser → Type 0
Unlinked P provider id t =
    (first_row (select (is_account provider id) (P.rows t)) ≡ none) × Once P t

-- Somebody is linked to an account.
abbrev pub Linked : (P : Prisma) → String → String → P.Table OauthUser → Type 0
Linked P provider id t =
    (k : String) × (o : OauthUser) × (P.find k t ≡ some o) × (is_account provider id o ≡ true)

module _ {P : Prisma} where
  -- Where a query finds nothing, no row passes its clause.
  none_passes :
      (p : OauthUser → Bool) (db : Db P) (k : String) (o : OauthUser)
      → first_link p db ≡ none
      → P.find k db.oauth_users ≡ some o
      → p o ≡ false
  none_passes p db k o e found = elim (Bool-cases (p o)) [
    | inl passed ↦ absurd (
        nothing_selected (select p (P.rows db.oauth_users)) k o e (
          select-keeps p k (P.rows db.oauth_users) o (P.lookup-rows k db.oauth_users ∙ found)
            passed))
    | inr failed ↦ failed
  ]

  abbrev pub LinkedOnce : Db P → Type 0
  LinkedOnce db = Once P db.oauth_users

  pub put_link-LinkedOnce :
      (id : String) (o : OauthUser) (db : Db P)
      → first_link (is_account o.provider o.provider_user_id) db ≡ none
      → LinkedOnce db
      → LinkedOnce (put_link id o db)
  put_link-LinkedOnce id o db free once j k a b ja kb same = elim (Bool-cases (id === j)) [
    | inl at_j ↦ elim (Bool-cases (id === k)) [
      | inl at_k ↦ sym ((eq_iff id j).0 at_j) ∙ (eq_iff id k).0 at_k
      | inr off_k ↦
          let e : o ≡ a = ground (arith, P.find-write id j o db.oauth_users) in
          let there : P.find k db.oauth_users ≡ some b =
            ground (arith, P.find-write id k o db.oauth_users) in
          absurd (
            ground (
              arith,
              e,
              same,
              none_passes (is_account o.provider o.provider_user_id) db k b free there,
            ))
    ]
    | inr off_j ↦
        let there : P.find j db.oauth_users ≡ some a =
          ground (arith, P.find-write id j o db.oauth_users) in
        elim (Bool-cases (id === k)) [
          | inl at_k ↦
              let e : o ≡ b = ground (arith, P.find-write id k o db.oauth_users) in
              absurd (
                ground (
                  arith,
                  e,
                  is_account_sym a b same,
                  none_passes (is_account o.provider o.provider_user_id) db j a free there,
                ))
          | inr off_k ↦ once j k a b there (ground (arith, P.find-write id k o db.oauth_users)) same
        ]
  ]

  -- The account of a link is found under its key.
  pub first_link_found :
      (k : String) (o : OauthUser) (db : Db P)
      → LinkedOnce db
      → P.find k db.oauth_users ≡ some o
      → first_link (is_account o.provider o.provider_user_id) db ≡ some (k, o)
  first_link_found k o db once found =
      only_selected (is_account o.provider o.provider_user_id) (P.rows db.oauth_users) k o
        (P.rows-DistinctKeys db.oauth_users) (P.lookup-rows k db.oauth_users ∙ found)
        (ground (arith, eq_iff o.provider o.provider, eq_iff o.provider_user_id o.provider_user_id))
        λ j u there same.
          sym (once k j o u found (sym (P.lookup-rows j db.oauth_users) ∙ there) same)

  pub put_link-Linked :
      (id : String) (o : OauthUser) (db : Db P)
      → Linked P o.provider o.provider_user_id (put_link id o db).oauth_users
  put_link-Linked id o db = (
    id,
    o,
    ground (arith, P.find-write id id o db.oauth_users, eq_iff id id),
    ground (arith, eq_iff o.provider o.provider, eq_iff o.provider_user_id o.provider_user_id),
  )

  pub Linked-found :
      (provider id : String) (db : Db P)
      → Linked P provider id db.oauth_users
      → (r : String × OauthUser) × (first_link (is_account provider id) db ≡ some r)
  Linked-found provider id db (k, o, found, same) =
      elim (Option-cases (first_link (is_account provider id) db)) [
        | inl nothing ↦
            absurd (ground (arith, none_passes (is_account provider id) db k o nothing found, same))
        | inr (r, there) ↦ (r, there)
      ]

-- ===== src/Share/Guard/Owner.antt =====
-- Whom ShareOwnerGuard takes for the owner of a share.
use better_pingvin_share.Prelude.{
  String, true, false, Option, none, some, ◌≡◌, ◌↔◌, ◌⊎◌, inl, inr, arith, truthy, same_id,
  Bool-cases, Option-cases, ◌===◌, refl,
}
use better_pingvin_share.Http.{done}
use better_pingvin_share.Prisma.{Prisma}
use better_pingvin_share.Schema.{Db, Share}
use better_pingvin_share.Text.{◌⧺◌}
use better_pingvin_share.World.{World}
use better_pingvin_share.Share.Request.{
  Request, SignedIn, authenticated_user, user_id, is_admin_user,
}
use better_pingvin_share.Share.Token.{accepts_owner_token, verify_share_owner_token}
use better_pingvin_share.Share.Guard.{share_owner_guard, owner_admitted, with_owner_cookie}

module _ (w : World) (request : Request) (id : String) where
  abbrev pub owner_cookie : Option String
  owner_cookie = request.cookies ("share_" ⧺ id ⧺ "_owner_token")

  -- A cookie that holds a token by which the share accepts its owner.
  abbrev pub ShowsOwnerToken : Share → Type 0
  ShowsOwnerToken s =
      (token : String) × (owner_cookie ≡ some token)
      × ((token === "") ≡ false)
      × (accepts_owner_token w id s token ≡ true)

  -- An administrator; the creator of a share that has one; or, for a share that has none, whoever
  -- shows its owner's token.
  abbrev pub IsOwner : Share → Option SignedIn → Type 0
  IsOwner s user =
      (is_admin_user user ≡ true)
      ⊎ ((truthy s.creator_id ≡ true) × (same_id s.creator_id (user_id user) ≡ true))
      ⊎ ((truthy s.creator_id ≡ false) × ShowsOwnerToken s)

module _ {P : Prisma} (w : World) (request : Request) (id : String) where
  owner_verified :
      (s : Share) (token : String) (db : Db P)
      → P.find id db.shares ≡ some s
      → verify_share_owner_token w id token db ≡ (done (accepts_owner_token w id s token), db)
  unfolding verify_share_owner_token
  owner_verified s token db found = rw found

  cookie_iff :
      (s : Share) (db : Db P)
      → P.find id db.shares ≡ some s
      → ((with_owner_cookie w request id (owner_cookie w request id) db).0 ≡ done true)
        ↔ ShowsOwnerToken w request id s
  cookie_iff s db found = elim (Option-cases (owner_cookie w request id)) [
    | inl missing ↦ rw missing (ground arith)
    | inr (token, shown) ↦ rw shown (
      λ e. (
        token,
        refl,
        ground (arith, owner_verified s token db found),
        ground (arith, owner_verified s token db found),
      ),
      λ o. ground (arith, o.1, owner_verified s token db found),
    )
  ]

  owner_admitted_iff :
      (s : Share) (user : Option SignedIn) (db : Db P)
      → P.find id db.shares ≡ some s
      → ((owner_admitted w request id s user db).0 ≡ done true) ↔ IsOwner w request id s user
  owner_admitted_iff s none db found = elim (Bool-cases (truthy s.creator_id)) [
    | inl created ↦ rw created (ground arith)
    | inr anonymous ↦
        let (to, from) = cookie_iff s db found in
        rw anonymous (
          λ e. inr (inr (refl, to e)),
          λ o. elim o [
            | inl never ↦ ground arith
            | inr (inl (never, _)) ↦ ground arith
            | inr (inr (_, shows)) ↦ from shows
          ],
        )
  ]
  owner_admitted_iff s (some (uid, u)) db found = elim (Bool-cases u.is_admin) [
    | inl admin ↦ rw admin ((λ e. inl refl), λ o. refl)
    | inr plain ↦ rw plain (elim (Bool-cases (truthy s.creator_id)) [
      | inl created ↦ rw created (ground arith)
      | inr anonymous ↦
          let (to, from) = cookie_iff s db found in
          rw anonymous (
            λ e. inr (inr (refl, to e)),
            λ o. elim o [
              | inl never ↦ ground arith
              | inr (inl (never, _)) ↦ ground arith
              | inr (inr (_, shows)) ↦ from shows
            ],
          )
    ])
  ]

  cookie_keeps :
      (s : Share) (token : Option String) (db : Db P)
      → P.find id db.shares ≡ some s
      → (with_owner_cookie w request id token db).1 ≡ db
  cookie_keeps s none db found = refl
  cookie_keeps s (some token) db found = ground (arith, owner_verified s token db found)

  owner_admitted_keeps :
      (s : Share) (user : Option SignedIn) (db : Db P)
      → P.find id db.shares ≡ some s
      → (owner_admitted w request id s user db).1 ≡ db
  owner_admitted_keeps s none db found =
      ground (arith, cookie_keeps s (owner_cookie w request id) db found)
  owner_admitted_keeps s (some (uid, u)) db found =
      ground (arith, cookie_keeps s (owner_cookie w request id) db found)

  share_owner_guard_found :
      (s : Share) (db : Db P)
      → P.find id db.shares ≡ some s
      → share_owner_guard w request id db
        ≡ owner_admitted w request id s (authenticated_user request db) db
  unfolding share_owner_guard
  share_owner_guard_found s db found = rw (found, share_owner_guard)

  -- ShareOwnerGuard accepts a request for a share that is there exactly when it comes from an
  -- administrator, from the share's creator, or, for a share created by nobody that was signed in,
  -- with the owner's token of that share; and it changes nothing.
  pub share_owner_guard_iff :
      (s : Share) (db : Db P)
      → P.find id db.shares ≡ some s
      → (((share_owner_guard w request id db).0 ≡ done true)
          ↔ IsOwner w request id s (authenticated_user request db))
        × ((share_owner_guard w request id db).1 ≡ db)
  share_owner_guard_iff s db found = rw (share_owner_guard_found s db found) (
    owner_admitted_iff s (authenticated_user request db) db found,
    owner_admitted_keeps s (authenticated_user request db) db found,
  )

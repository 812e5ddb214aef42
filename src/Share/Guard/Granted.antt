-- ===== src/Share/Guard/Granted.antt =====
-- What holds of a share whose guard lets a request through.
use better_pingvin_share.Prelude.{
  String, Bool, true, false, ◌&&◌, Option, none, some, ◌≡◌, ◌⊎◌, inl, inr, refl, arith,
  Option-cases, Bool-cases, truthy,
}
use better_pingvin_share.Http.{done}
use better_pingvin_share.Prisma.{Prisma}
use better_pingvin_share.Schema.{Db, Share}
use better_pingvin_share.World.{World}
use better_pingvin_share.Share.Request.{
  Request, get_share_token_from_request, authenticated_user, user_id, is_admin_user,
}
use better_pingvin_share.Share.Access.{is_share_expired, is_share_removed}
use better_pingvin_share.Share.IpAccess.{assert_share_ip_access}
use better_pingvin_share.Share.Token.{accepts_token, verify_found}
use better_pingvin_share.Share.Guard.{
  enter, enter_openly, enter_with_token, ask_password, admit, share_security_guard, is_private_for,
  password_of, views_exceeded,
}

module _ {P : Prisma} (w : World) (request : Request) (id : String) where
  -- The request shows a valid token of the share; or it shows none, the share has no password and
  -- its views are not used up. Either way the rules on addresses let it through.
  pub data MayEnter (s : Share) (db : Db P) : Type 0 where
    by_token :
        (token : String)
        → get_share_token_from_request request id ≡ some token
        → accepts_token w id s token ≡ true
        → (assert_share_ip_access w id s.security request true db).0 ≡ done tt
        → MayEnter s db
    openly :
        get_share_token_from_request request id ≡ none
        → truthy (password_of s.security) ≡ false
        → views_exceeded s ≡ false
        → (assert_share_ip_access w id s.security request true db).0 ≡ done tt
        → MayEnter s db

  -- The share is there, not removed and not expired, and the request comes from an administrator
  -- who may see all shares, or from somebody whom the reverse share is not closed to and who may
  -- enter.
  pub record Granted (db : Db P) : Type 0 where
    pub share : Share
    pub found : P.find id db.shares ≡ some share
    pub not_removed : is_share_removed (some share) ≡ false
    pub not_expired : is_share_expired w.now (some share.expiration) ≡ false
    pub entitled :
        ((is_admin_user (authenticated_user request db) ≡ true)
          × (w.config.allow_admin_access_all_shares ≡ true))
        ⊎ ((is_private_for share (user_id (authenticated_user request db)) db ≡ false)
            × MayEnter share db)

  enter_with_token-accepts :
      (s : Share) (token : String) (db : Db P)
      → P.find id db.shares ≡ some s
      → (enter_with_token w request id s token db).0 ≡ done true
      → (accepts_token w id s token ≡ true)
        × ((assert_share_ip_access w id s.security request true db).0 ≡ done tt)
  unfolding enter_with_token
  enter_with_token-accepts s token db found e = ground (arith, verify_found w id s token db found)

  enter_openly-allowed :
      (s : Share) (db : Db P)
      → (enter_openly w request id s db).0 ≡ done true
      → (views_exceeded s ≡ false)
        × ((assert_share_ip_access w id s.security request true db).0 ≡ done tt)
  unfolding enter_openly
  enter_openly-allowed s db e = ground arith

  ask_password-refuses :
      (s : Share) (db : Db P) (b : Bool) → ¬ ((ask_password w request id s db).0 ≡ done b)
  unfolding ask_password
  ask_password-refuses s db b e = ground arith

  enter-MayEnter :
      (s : Share) (token : Option String) (db : Db P)
      → P.find id db.shares ≡ some s
      → get_share_token_from_request request id ≡ token
      → (enter w request id s token db).0 ≡ done true
      → MayEnter s db
  enter-MayEnter s (some token) db found shown e =
      let (valid, checked) = enter_with_token-accepts s token db found e in
      by_token token shown valid checked
  enter-MayEnter s none db found shown e = elim (Bool-cases (truthy (password_of s.security))) [
    | inl locked ↦ absurd (ask_password-refuses s db true (rw locked at e))
    | inr free ↦
        let (room, checked) = enter_openly-allowed s db (rw free at e) in
        openly shown free room checked
  ]

  admit-entitled :
      (s : Share) (db : Db P)
      → P.find id db.shares ≡ some s
      → (admit w request id s (authenticated_user request db) db).0 ≡ done true
      → ((is_admin_user (authenticated_user request db) ≡ true)
          × (w.config.allow_admin_access_all_shares ≡ true))
        ⊎ ((is_private_for s (user_id (authenticated_user request db)) db ≡ false) × MayEnter s db)
  unfolding admit
  admit-entitled s db found e =
      elim (Bool-cases
        (is_admin_user (authenticated_user request db) && w.config.allow_admin_access_all_shares)) [
          | inl all ↦ inl (ground arith)
          | inr some_only ↦
              elim (Bool-cases (is_private_for s (user_id (authenticated_user request db)) db)) [
                | inl private ↦ absurd (ground arith)
                | inr public ↦
                    inr (public, enter-MayEnter s _ db found refl (rw (some_only, public) at e))
              ]
        ]

  -- A request that ShareSecurityGuard lets through is entitled to the share: the share is there, was
  -- not removed and has not expired; and either an administrator asks who may see all shares, or
  -- the share's reverse share is not closed to the user, the request has a valid token of the
  -- share, or else the share has no password and views are left, and the address rules are met.
  pub share_security_guard-Granted :
      (db : Db P) → (share_security_guard w request id db).0 ≡ done true → Granted db
  unfolding share_security_guard
  share_security_guard-Granted db e = elim (Option-cases (P.find id db.shares)) [
    | inl missing ↦ absurd (ground arith)
    | inr (s, found) ↦ elim (Bool-cases (is_share_removed (some s))) [
      | inl removed ↦ absurd (ground arith)
      | inr kept ↦ elim (Bool-cases (is_share_expired w.now (some s.expiration))) [
        | inl expired ↦ absurd (ground arith)
        | inr live ↦ record {
          share = s;
          found = found;
          not_removed = kept;
          not_expired = live;
          entitled = admit-entitled s db found (rw (found, kept, live) at e);
        }
      ]
    ]
  ]

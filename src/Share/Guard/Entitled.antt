-- ===== src/Share/Guard/Entitled.antt =====
-- ShareSecurityGuard lets through every request that is entitled to the share.
use better_pingvin_share.Prelude.{
  String, true, false, some, ◌≡◌, ◌⊎◌, ◌↔◌, inl, inr, refl, arith, Bool-cases, ◌&&◌,
}
use better_pingvin_share.Http.{done}
use better_pingvin_share.Prisma.{Prisma}
use better_pingvin_share.Schema.{Db, Share}
use better_pingvin_share.World.{World}
use better_pingvin_share.Share.Request.{
  Request, get_share_token_from_request, authenticated_user, user_id, is_admin_user,
}
use better_pingvin_share.Share.IpAccess.{assert_share_ip_access}
use better_pingvin_share.Share.IpAccess.Laws.{
  OnlyAddresses-found, assert_share_ip_access-OnlyAddresses,
}
use better_pingvin_share.Share.Token.{accepts_token, verify_found}
use better_pingvin_share.Share.Guard.{
  share_security_guard, admit, enter, enter_openly, enter_with_token, is_private_for,
  views_exceeded,
}
use better_pingvin_share.Share.Guard.Granted.{
  Granted, MayEnter, by_token, openly, share_security_guard-Granted,
}
use better_pingvin_share.Share.Guard.Views.{count_view_found}

module _ {P : Prisma} (w : World) (request : Request) (id : String) where
  enter_openly_done :
      (s : Share) (db : Db P)
      → P.find id db.shares ≡ some s
      → views_exceeded s ≡ false
      → (assert_share_ip_access w id s.security request true db).0 ≡ done tt
      → (enter_openly w request id s db).0 ≡ done true
  unfolding enter_openly
  enter_openly_done s db found room checked =
      let after = (assert_share_ip_access w id s.security request true db).1 in
      let (t, kept, same) =
        OnlyAddresses-found id db after s
          (assert_share_ip_access-OnlyAddresses w id s.security request true db) found in
      ground (arith, count_view_found id s t after kept)

  enter_with_token_done :
      (s : Share) (token : String) (db : Db P)
      → P.find id db.shares ≡ some s
      → accepts_token w id s token ≡ true
      → (assert_share_ip_access w id s.security request true db).0 ≡ done tt
      → (enter_with_token w request id s token db).0 ≡ done true
  unfolding enter_with_token
  enter_with_token_done s token db found valid checked =
      ground (arith, verify_found w id s token db found)

  enter_done :
      (s : Share) (db : Db P)
      → P.find id db.shares ≡ some s
      → MayEnter w request id s db
      → (enter w request id s (get_share_token_from_request request id) db).0 ≡ done true
  enter_done s db found (by_token token shown valid checked) =
      rw shown (enter_with_token_done s token db found valid checked)
  enter_done s db found (openly shown free room checked) =
      rw (shown, free) (enter_openly_done s db found room checked)

  admit_done :
      (s : Share) (db : Db P)
      → P.find id db.shares ≡ some s
      → ((is_admin_user (authenticated_user request db) ≡ true)
          × (w.config.allow_admin_access_all_shares ≡ true))
        ⊎ ((is_private_for s (user_id (authenticated_user request db)) db ≡ false)
            × MayEnter w request id s db)
      → (admit w request id s (authenticated_user request db) db).0 ≡ done true
  unfolding admit
  admit_done s db found (inl (admin, allowed)) = rw (admin, allowed) refl
  admit_done s db found (inr (public, may)) =
      elim (Bool-cases
        (is_admin_user (authenticated_user request db) && w.config.allow_admin_access_all_shares)) [
          | inl all ↦ rw all refl
          | inr some_only ↦ rw (some_only, public) (enter_done s db found may)
        ]

  Granted-done :
      (db : Db P) → Granted w request id db → (share_security_guard w request id db).0 ≡ done true
  unfolding share_security_guard
  Granted-done db g =
      rw (g.found, g.not_removed, g.not_expired) (admit_done g.share db g.found g.entitled)

  -- ShareSecurityGuard lets a request through exactly when it is entitled to the share: the share is
  -- there, was not removed and has not expired; and either an administrator asks who may see all
  -- shares, or the share's reverse share is not closed to the user, the request has a valid token of
  -- the share, or else no token where the share has no password and views are left, and the address
  -- rules are met.
  pub share_security_guard_iff :
      (db : Db P) → ((share_security_guard w request id db).0 ≡ done true) ↔ Granted w request id db
  share_security_guard_iff db = (share_security_guard-Granted w request id db, Granted-done db)

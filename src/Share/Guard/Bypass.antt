-- ===== src/Share/Guard/Bypass.antt =====
-- Where the guards of a share and of its files differ.
use better_pingvin_share.Prelude.{String, true, false, none, some, ◌≡◌, arith, truthy}
use better_pingvin_share.Http.{done, throw}
use better_pingvin_share.Prisma.{Prisma}
use better_pingvin_share.Schema.{Db, Share}
use better_pingvin_share.World.{World}
use better_pingvin_share.Share.Request.{
  Request, get_share_token_from_request, authenticated_user, user_id, is_admin_user,
}
use better_pingvin_share.Share.Access.{is_share_expired, is_share_removed}
use better_pingvin_share.Share.IpAccess.{assert_share_ip_access}
use better_pingvin_share.Share.IpAccess.Laws.{
  OnlyAddresses-found, assert_share_ip_access-OnlyAddresses,
}
use better_pingvin_share.Share.Guard.{
  admit, share_security_guard, file_security_guard, enter_file, is_private_for, password_of,
  views_exceeded, private_share,
}
use better_pingvin_share.Share.Guard.Views.{count_view_found}

module _ {P : Prisma} (w : World) (request : Request) (id : String) (s : Share) (db : Db P) where
  -- A request with no token, by a user who is no administrator, for a share that is open and has no
  -- password, views left and a reverse share closed to the user.
  pub record Outsider : Type 0 where
    pub found : P.find id db.shares ≡ some s
    pub kept : is_share_removed (some s) ≡ false
    pub live : is_share_expired w.now (some s.expiration) ≡ false
    pub unshown : get_share_token_from_request request id ≡ none
    pub not_admin : is_admin_user (authenticated_user request db) ≡ false
    pub private : is_private_for s (user_id (authenticated_user request db)) db ≡ true
    pub free : truthy (password_of s.security) ≡ false
    pub room : views_exceeded s ≡ false
    pub checked : (assert_share_ip_access w id s.security request true db).0 ≡ done tt

  enter_file_outsider :
      Outsider → (enter_file w request id s (authenticated_user request db) db).0 ≡ done true
  unfolding enter_file
  enter_file_outsider o =
      let after = (assert_share_ip_access w id s.security request true db).1 in
      let (t, kept, same) =
        OnlyAddresses-found id db after s
          (assert_share_ip_access-OnlyAddresses w id s.security request true db) o.found in
      ground (arith, count_view_found id s t after kept)

  -- A request with no token by a user who is no administrator, for a share that is open, has no
  -- password and views left, and whose reverse share is closed to the user, where the address rules
  -- are met, is refused by ShareSecurityGuard and let through to the files by FileSecurityGuard.
  pub outsider_gets_files :
      Outsider
      → ((share_security_guard w request id db).0 ≡ throw private_share)
        × ((file_security_guard w request id db).0 ≡ done true)
  unfolding share_security_guard file_security_guard admit
  outsider_gets_files o = (ground arith, ground (arith, enter_file_outsider o))

-- ===== src/Share/Tests/Guards.antt =====
-- Runs of the guards, and the theorems about them, on concrete data.
use better_pingvin_share.Prelude.{true, ◌≡◌, ◌↔◌, refl}
use better_pingvin_share.Http.{done, throw}
use better_pingvin_share.Prisma.Assoc.{assoc}
use better_pingvin_share.Share.Request.{authenticated_user, get_share_token_from_request}
use better_pingvin_share.Share.Access.{is_share_expired, is_share_removed}
use better_pingvin_share.Share.IpAccess.{assert_share_ip_access, check_ip, assign_share_ip_address}
use better_pingvin_share.Ip.Address.{get_request_ip_address, normalize_ip_address}
use better_pingvin_share.Share.Guard.{
  share_security_guard, file_security_guard, share_owner_guard, admit, enter_openly, count_view,
  increase_view_count, is_private_for, views_exceeded, private_share,
}
use better_pingvin_share.Share.Guard.Granted.{Granted}
use better_pingvin_share.Share.Guard.Entitled.{share_security_guard_iff}
use better_pingvin_share.Share.Guard.Views.{Visit, share_security_guard-Visit}
use better_pingvin_share.Share.Guard.ViewLimit.{WithinViews, guards-WithinViews}
use better_pingvin_share.Share.Guard.Bypass.{Outsider, outsider_gets_files}
use better_pingvin_share.Share.Guard.Owner.{IsOwner, share_owner_guard_iff}
use better_pingvin_share.Share.Tests.{open_share, private_row, db, w, visitor}

-- The visitor gets the place that is left, and the last view.
visitor_let_in : (share_security_guard w visitor "open" db).0 ≡ done true
unfolding share_security_guard is_share_removed is_share_expired authenticated_user is_private_for
    get_share_token_from_request admit enter_openly views_exceeded assert_share_ip_access
    get_request_ip_address normalize_ip_address check_ip assign_share_ip_address count_view
    increase_view_count
visitor_let_in = refl

share_security_guard_iff_example :
    ((share_security_guard w visitor "open" db).0 ≡ done true) ↔ Granted w visitor "open" db
share_security_guard_iff_example = share_security_guard_iff w visitor "open" db

share_security_guard-Visit_example : Visit "open" db (share_security_guard w visitor "open" db).1
share_security_guard-Visit_example = share_security_guard-Visit w visitor "open" db

guards-WithinViews_example :
    WithinViews (assoc.find "open" (share_security_guard w visitor "open" db).1.shares)
    × WithinViews (assoc.find "open" (file_security_guard w visitor "open" db).1.shares)
guards-WithinViews_example = guards-WithinViews w visitor "open" "open" db refl

share_owner_guard_iff_example :
    (((share_owner_guard w visitor "open" db).0 ≡ done true)
      ↔ IsOwner w visitor "open" open_share (authenticated_user visitor db))
    × ((share_owner_guard w visitor "open" db).1 ≡ db)
share_owner_guard_iff_example = share_owner_guard_iff w visitor "open" open_share db refl

outsider : Outsider w visitor "private" private_row db
unfolding is_share_removed is_share_expired get_share_token_from_request authenticated_user
    is_private_for views_exceeded assert_share_ip_access
outsider = record {
  found = refl;
  kept = refl;
  live = refl;
  unshown = refl;
  not_admin = refl;
  private = refl;
  free = refl;
  room = refl;
  checked = refl;
}

outsider_gets_files_example :
    ((share_security_guard w visitor "private" db).0 ≡ throw private_share)
    × ((file_security_guard w visitor "private" db).0 ≡ done true)
outsider_gets_files_example = outsider_gets_files w visitor "private" private_row db outsider

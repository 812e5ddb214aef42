-- ===== src/Share/Guard.antt =====
-- The guards that stand before the handlers of shares and files: share/guard/shareSecurity.guard.ts,
-- file/guard/fileSecurity.guard.ts, share/guard/shareOwner.guard.ts,
-- share/guard/shareTokenSecurity.guard.ts and share/guard/createShare.guard.ts, with
-- `increaseViewCount` of share.service.ts. A guard returns a Boolean or throws.
pub mod Granted
pub mod Entitled
pub mod Views
pub mod ViewLimit
pub mod Bypass
pub mod Owner
use better_pingvin_share.Prelude.{
  ℕ, ◌+◌, String, Bool, true, false, not, ◌&&◌, ◌||◌, Option, none, some, ltb, leb, if◌then◌else◌,
  truthy, truthy_number, same_id, ◌===◌,
}
use better_pingvin_share.Http.{
  Outcome, done, throw, Handler, HttpError, forbidden, not_found, pure, raise, ◌>>=◌, ◌>>◌,
}
use better_pingvin_share.Prisma.{Prisma}
use better_pingvin_share.Schema.{Db, Share, ShareSecurity, ReverseShare, at_most_zero}
use better_pingvin_share.World.{World}
use better_pingvin_share.Text.{◌⧺◌}
use better_pingvin_share.Store.{update_share, find_reverse_share}
use better_pingvin_share.Share.Request.{
  Request, SignedIn, get_share_token_from_request, authenticated_user, user_id, is_admin_user,
}
use better_pingvin_share.Share.Access.{is_share_expired, is_share_removed}
use better_pingvin_share.Share.IpAccess.{assert_share_ip_access}
use better_pingvin_share.Share.Token.{verify_share_token, verify_share_owner_token}

abbrev pub share_not_found : HttpError
share_not_found = not_found "Share not found" none

abbrev pub or_empty : Option String → String
or_empty none = ""
or_empty (some s) = s

-- `throw new NotFoundException(share.removedReason, "share_removed")`
abbrev pub share_removed : Share → HttpError
share_removed s = not_found (or_empty s.removed_reason) (some "share_removed")

abbrev pub private_share : HttpError
private_share = forbidden "Only reverse share creator can access this share" (some "private_share")

abbrev pub password_required : HttpError
password_required = forbidden "This share is password protected" (some "share_password_required")

abbrev pub token_required : HttpError
token_required = forbidden "Share token required" (some "share_token_required")

abbrev pub max_views_exceeded : HttpError
max_views_exceeded = forbidden "Maximum views exceeded" (some "share_max_views_exceeded")

abbrev pub file_not_found : HttpError
file_not_found = not_found "File not found" none

-- `share.security?.password`
abbrev pub password_of : Option ShareSecurity → Option String
password_of none = none
password_of (some sec) = sec.password

abbrev pub max_views_of : Option ShareSecurity → Option ℕ
max_views_of none = none
max_views_of (some sec) = sec.max_views

-- `share.security?.maxViews && share.security.maxViews <= share.views`
abbrev pub exceeds : Option ℕ → ℕ → Bool
exceeds none views = false
exceeds (some most) views = ltb 0 most && leb most views

unfoldable pub views_exceeded : Share → Bool
views_exceeded s = exceeds (max_views_of s.security) s.views

-- A reverse share that is not public, and a user who created neither it nor the share.
abbrev pub closed_to : Share → Option String → Option ReverseShare → Bool
closed_to s user none = false
closed_to s user (some r) =
    not r.public_access
    && (not (same_id s.creator_id user) && not (same_id (some r.creator_id) user))

module _ {P : Prisma} where
  -- The row that the caller read gives the count.
  unfoldable pub increase_view_count : String → Share → Handler (Db P) Share
  increase_view_count id share = update_share id (λ s. record s { views = share.views + 1 })

  -- `await increaseViewCount(share); return true;`
  unfoldable pub count_view : String → Share → Handler (Db P) Bool
  count_view id s = do increase_view_count id s; pure true

  unfoldable pub is_private_for : Share → Option String → Db P → Bool
  is_private_for s user db = closed_to s user (find_reverse_share s.reverse_share_id db)

module _ {P : Prisma} (w : World) (request : Request) (id : String) where
  -- No token and no password: the views are limited, and counted.
  unfoldable pub enter_openly : Share → Handler (Db P) Bool
  unfolding views_exceeded
  enter_openly s =
      if views_exceeded s
      then raise max_views_exceeded
      else do assert_share_ip_access w id s.security request true; count_view id s

  unfoldable pub enter_with_token : Share → String → Handler (Db P) Bool
  enter_with_token s token = do
    is_valid ← verify_share_token w id token
    if not is_valid
        then raise token_required
        else do assert_share_ip_access w id s.security request true; pure true

  unfoldable pub ask_password : Share → Handler (Db P) Bool
  ask_password s = do assert_share_ip_access w id s.security request false; raise password_required

  abbrev pub enter : Share → Option String → Handler (Db P) Bool
  enter s (some token) = enter_with_token s token
  enter s none = if truthy (password_of s.security) then ask_password s else enter_openly s

  -- A share that is there, for a user that may be signed in.
  unfoldable pub admit : Share → Option SignedIn → Handler (Db P) Bool
  admit s user db =
      if is_admin_user user && w.config.allow_admin_access_all_shares
      then (done true, db)
      else if is_private_for s (user_id user) db
      then (throw private_share, db)
      else enter s (get_share_token_from_request request id) db

  abbrev pub when_open : Option Share → Handler (Db P) Bool
  when_open none db = (throw share_not_found, db)
  when_open (some s) db =
      if is_share_removed (some s)
      then (throw (share_removed s), db)
      else if is_share_expired w.now (some s.expiration)
      then (throw share_not_found, db)
      else admit s (authenticated_user request db) db

  -- `canActivate` of ShareSecurityGuard
  unfoldable pub share_security_guard : Handler (Db P) Bool
  share_security_guard db = when_open (P.find id db.shares) db

  -- The direct request of a file, with no share token.
  unfoldable pub enter_file : Share → Option SignedIn → Handler (Db P) Bool
  unfolding views_exceeded
  enter_file s user =
      if w.config.allow_admin_access_all_shares && is_admin_user user
      then pure true
      else if truthy (password_of s.security)
      then raise (forbidden "This share is password protected" none)
      else if views_exceeded s
      then raise max_views_exceeded
      else do assert_share_ip_access w id s.security request true; count_view id s

  abbrev pub when_file_open : Option Share → Handler (Db P) Bool
  when_file_open none db = (throw file_not_found, db)
  when_file_open (some s) db =
      if is_share_removed (some s) || is_share_expired w.now (some s.expiration)
      then (throw file_not_found, db)
      else enter_file s (authenticated_user request db) db

  -- `canActivate` of FileSecurityGuard
  unfoldable pub file_security_guard : Handler (Db P) Bool
  file_security_guard db = elim (get_share_token_from_request request id) [
    | none ↦ when_file_open (P.find id db.shares) db
    | some token ↦ share_security_guard db
  ]

  -- `canActivate` of ShareTokenSecurity
  unfoldable pub share_token_security : Handler (Db P) Bool
  share_token_security db = elim (P.find id db.shares) [
    | none ↦ (throw share_not_found, db)
    | some s ↦
        if is_share_removed (some s) || is_share_expired w.now (some s.expiration)
        then (throw share_not_found, db)
        else (done true, db)
  ]

  abbrev pub with_owner_cookie : Option String → Handler (Db P) Bool
  with_owner_cookie none = pure false
  with_owner_cookie (some token) =
      if token === "" then pure false else verify_share_owner_token w id token

  abbrev pub owner_admitted : Share → Option SignedIn → Handler (Db P) Bool
  owner_admitted s user =
      if is_admin_user user
      then pure true
      else if not (truthy s.creator_id)
      then with_owner_cookie (request.cookies ("share_" ⧺ id ⧺ "_owner_token"))
      else elim user [
        | none ↦ pure false
        | some (uid, row) ↦ pure (same_id s.creator_id (some uid))
      ]

  -- `canActivate` of ShareOwnerGuard
  unfoldable pub share_owner_guard : Handler (Db P) Bool
  share_owner_guard db = elim (P.find id db.shares) [
    | none ↦ (throw share_not_found, db)
    | some s ↦ owner_admitted s (authenticated_user request db) db
  ]

-- ===== src/Share/IpAccess.antt =====
-- `assertShareIpAccess` and `assignShareIpAddress` of backend/src/share/share.service.ts: the list
-- of allowed addresses, or the first so many addresses that claim a share.
pub mod Laws
pub mod Bounds
pub mod Places
use better_pingvin_share.Prelude.{
  ℕ, ◌+◌, String, Bool, true, false, not, ◌&&◌, Option, none, some, List, [], ◌∷◌, ◌++◌, length,
  ltb, leb, if◌then◌else◌, truthy_number, includes, ◌===◌,
}
use better_pingvin_share.Http.{
  Outcome, done, throw, Handler, HttpError, forbidden, prisma_error, pure, raise, ◌>>=◌,
}
use better_pingvin_share.Prisma.{Prisma}
use better_pingvin_share.Schema.{Db, Share, ShareSecurity}
use better_pingvin_share.World.{World}
use better_pingvin_share.Store.{put_share}
use better_pingvin_share.Ip.Address.{get_request_ip_address}
use better_pingvin_share.Share.Request.{Request}

abbrev pub no_ip_error : HttpError
no_ip_error = forbidden "Could not determine the request IP address" (some "share_ip_not_allowed")

abbrev pub ip_not_allowed : HttpError
ip_not_allowed =
    forbidden "Your IP address is not allowed to access this share" (some "share_ip_not_allowed")

abbrev pub ip_limit_exceeded : HttpError
ip_limit_exceeded =
    forbidden "This share has already been claimed by the maximum number of IP addresses"
      (some "share_ip_limit_exceeded")

abbrev pub is_empty {ℓ} : {A : Type ℓ} → List A → Bool
is_empty [] = true
is_empty (x ∷ xs) = false

-- A security row with one more address at the end.
abbrev pub with_address : String → ShareSecurity → ShareSecurity
with_address ip sec = record sec { assigned_ips = sec.assigned_ips ++ ip ∷ [] }

module _ {P : Prisma} where
  -- The transaction: the row is read again, so that its addresses are counted as they stand.
  abbrev claim : String → String → ℕ → Share → Option ShareSecurity → Handler (Db P) Bool
  claim id ip limit s none db = (throw (prisma_error "P2003"), db)
  claim id ip limit s (some sec) db =
      if includes sec.assigned_ips ip
      then (done true, db)
      else if leb limit (length sec.assigned_ips)
      then (done false, db)
      else (done true, put_share id (record s { security = some (with_address ip sec) }) db)

  unfoldable pub assign_share_ip_address : String → String → Option ℕ → Handler (Db P) Bool
  assign_share_ip_address id ip none db = (done true, db)
  assign_share_ip_address id ip (some limit) db =
      if ltb 0 limit
      then (elim (P.find id db.shares) [
        | none ↦ (throw (prisma_error "P2003"), db)
        | some s ↦ claim id ip limit s s.security db
      ])
      else (done true, db)

  -- Was the address assigned?
  abbrev or_exceeded : Bool → Handler (Db P) Unit
  or_exceeded true = pure tt
  or_exceeded false = raise ip_limit_exceeded

  -- The rules for a request that has an address.
  unfoldable pub check_ip : String → ShareSecurity → String → Bool → Handler (Db P) Unit
  unfolding assign_share_ip_address
  check_ip id sec ip assign_if_needed =
      if not (is_empty sec.allowed_ips)
      then (if includes sec.allowed_ips ip then pure tt else raise ip_not_allowed)
      else if includes sec.assigned_ips ip
      then pure tt
      else if not assign_if_needed
      then pure tt
      else (do was_assigned ← assign_share_ip_address id ip sec.max_ips; or_exceeded was_assigned)

  abbrev with_ip : String → ShareSecurity → Option String → Bool → Handler (Db P) Unit
  with_ip id sec none assign_if_needed = raise no_ip_error
  with_ip id sec (some ip) assign_if_needed =
      if ip === "" then raise no_ip_error else check_ip id sec ip assign_if_needed

  -- `security` is the row that the caller read.
  unfoldable pub assert_share_ip_access :
      World → String → Option ShareSecurity → Request → Bool → Handler (Db P) Unit
  unfolding check_ip
  assert_share_ip_access w id none request assign_if_needed = pure tt
  assert_share_ip_access w id (some sec) request assign_if_needed =
      if is_empty sec.allowed_ips && not (truthy_number sec.max_ips)
      then pure tt
      else with_ip id sec (get_request_ip_address w.is_ip request.forwarded_for request.ip)
          assign_if_needed

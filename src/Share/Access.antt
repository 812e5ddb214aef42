-- ===== src/Share/Access.antt =====
-- backend/src/share/shareAccess.util.ts: a share that has expired, one that its owner may still
-- edit, and one that was removed. An expiration of 0 stands for never.
use better_pingvin_share.Prelude.{
  ℕ, ◌≤◌, ◌<◌, Bool, true, false, not, ◌&&◌, ◌≡◌, ◌≢◌, ◌↔◌, Option, none, some, ltb, leb, ◌==◌,
  if◌then◌else◌, truthy, arith,
}
use better_pingvin_share.Schema.{Share}
use better_pingvin_share.World.{Moment, Timespan}

-- The expiration is `none` where there is no share.
unfoldable pub is_share_expired : ℕ → Option ℕ → Bool
is_share_expired now none = false
is_share_expired now (some expiration) = ltb expiration now && not (expiration == 0)

unfoldable pub is_share_within_expired_editable_period : Moment → ℕ → ℕ → Timespan → Bool
unfolding is_share_expired
is_share_within_expired_editable_period moment now expiration period =
    if not (is_share_expired now (some expiration))
    then true
    else leb now (moment.add expiration period)

-- The reason is empty or null while the share is not removed.
unfoldable pub is_share_removed : Option Share → Bool
is_share_removed none = false
is_share_removed (some s) = truthy s.removed_reason

-- A share expires exactly when it has an expiration and that lies in the past.
pub is_share_expired_iff :
    (now expiration : ℕ)
    → (is_share_expired now (some expiration) ≡ true) ↔ ((expiration < now) × (expiration ≢ 0))
unfolding is_share_expired
is_share_expired_iff now expiration = ground arith

-- A share that may be edited at a time may be edited at every earlier time.
pub editable_monotone :
    (m : Moment) (now later expiration : ℕ) (period : Timespan)
    → now ≤ later
    → is_share_within_expired_editable_period m later expiration period ≡ true
    → is_share_within_expired_editable_period m now expiration period ≡ true
unfolding is_share_within_expired_editable_period
editable_monotone m now later expiration period h e = ground (arith, m.le-add expiration period)

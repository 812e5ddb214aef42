-- ===== src/Config/Retention.antt =====
-- The job on expired shares, under periods that the configuration's checks accept.
use better_pingvin_share.Prelude.{
  ℕ, ◌+◌, ◌-◌, ◌*◌, ◌≤◌, ◌≡◌, ◌∙◌, ap, arith, String, true, false, some,
}
use better_pingvin_share.Prisma.{Prisma}
use better_pingvin_share.Prisma.Keyed.{passes}
use better_pingvin_share.Schema.{Db, Share}
use better_pingvin_share.World.{World, Timespan}
use better_pingvin_share.Config.Timespan.{timespan_to_minutes}
use better_pingvin_share.Jobs.{is_overdue, delete_expired_shares}
use better_pingvin_share.Jobs.Cleanup.{delete_expired_shares_keeps}
use better_pingvin_share.Share.Access.{is_share_within_expired_editable_period, is_share_expired}

-- The milliseconds of a timespan, as the configuration's checks count them
abbrev pub milliseconds : Timespan → ℕ
milliseconds t = timespan_to_minutes t * 60000

module _ (w : World) (s : Share) where
  editable_not_overdue :
      timespan_to_minutes w.config.expired_editable_period
        ≤ timespan_to_minutes w.config.file_retention_period
      → ((d : ℕ)
          → w.moment.add d w.config.expired_editable_period
            ≡ d + milliseconds w.config.expired_editable_period)
      → ((d : ℕ)
          → w.moment.subtract d w.config.file_retention_period
            ≡ d - milliseconds w.config.file_retention_period)
      → is_share_within_expired_editable_period w.moment w.now s.expiration
          w.config.expired_editable_period
        ≡ true
      → is_overdue w s ≡ false
  unfolding is_share_within_expired_editable_period is_share_expired
  editable_not_overdue ordered adds subtracts editable =
      ground (arith, adds s.expiration, subtracts w.now)

-- A share that its owner may still edit is not deleted by the job on expired shares, where the
-- editable period is not longer than the retention period, and the clock's package adds the one and
-- subtracts the other as the minutes that the configuration's checks count.
pub editable_share_kept :
    {P : Prisma} (w : World) (id : String) (s : Share) (db : Db P)
    → timespan_to_minutes w.config.expired_editable_period
      ≤ timespan_to_minutes w.config.file_retention_period
    → ((d : ℕ)
        → w.moment.add d w.config.expired_editable_period
          ≡ d + milliseconds w.config.expired_editable_period)
    → ((d : ℕ)
        → w.moment.subtract d w.config.file_retention_period
          ≡ d - milliseconds w.config.file_retention_period)
    → P.find id db.shares ≡ some s
    → is_share_within_expired_editable_period w.moment w.now s.expiration
        w.config.expired_editable_period
      ≡ true
    → P.find id (delete_expired_shares w db).1.shares ≡ some s
editable_share_kept {P = P} w id s db ordered adds subtracts found editable =
    let kept = editable_not_overdue w s ordered adds subtracts editable in
    delete_expired_shares_keeps w id db (ap (passes (is_overdue w)) found ∙ kept) ∙ found

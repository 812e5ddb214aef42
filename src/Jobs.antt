-- ===== src/Jobs.antt =====
-- backend/src/jobs/jobs.service.ts: the timed jobs that clean up. `Promise`s are awaited one after
-- the other, so that an error in the loop ends the job.
mod Tests
pub mod Expired
pub mod Cleanup
use better_pingvin_share.Prelude.{
  ℕ, ◌+◌, String, Bool, true, false, not, ◌&&◌, Option, none, some, List, [], ◌∷◌, ltb, ◌==◌,
  length, if◌then◌else◌,
}
use better_pingvin_share.Http.{Outcome, done, throw, Handler, pure, ◌>>=◌, ◌>>◌}
use better_pingvin_share.Prisma.{Prisma}
use better_pingvin_share.Schema.{
  Db, Share, ReverseShare, RefreshToken, LoginToken, ResetPasswordToken,
}
use better_pingvin_share.World.{World, Timespan}
use better_pingvin_share.Prisma.Keyed.{select}
use better_pingvin_share.Share.Remove.{delete_with_files}
use better_pingvin_share.ReverseShare

-- The clauses of the queries.
abbrev pub is_overdue : World → Share → Bool
is_overdue w s =
    ltb s.expiration (w.moment.subtract w.now w.config.file_retention_period)
    && not (s.expiration == 0)

abbrev pub one_day : Timespan
one_day = record { value = 1; unit = "day" }

abbrev pub is_unfinished : World → Share → Bool
is_unfinished w s = ltb s.created_at (w.moment.subtract w.now one_day) && not s.upload_locked

abbrev pub is_past : World → ReverseShare → Bool
is_past w r = ltb r.share_expiration w.now

module _ {P : Prisma} (w : World) where
  -- The loop of both jobs on shares: each share's storage is known from its row.
  unfoldable pub delete_shares : List (String × Share) → Handler (Db P) Unit
  delete_shares [] = pure tt
  delete_shares ((id, s) ∷ more) = do
    delete_with_files w id (some s.storage_provider)
    delete_shares more

  unfoldable pub delete_expired_shares : Handler (Db P) Unit
  unfolding delete_shares
  delete_expired_shares db = delete_shares (select (is_overdue w) (P.rows db.shares)) db

  unfoldable pub delete_unfinished_shares : Handler (Db P) Unit
  unfolding delete_shares
  delete_unfinished_shares db = delete_shares (select (is_unfinished w) (P.rows db.shares)) db

  unfoldable pub remove_reverse_shares : List (String × ReverseShare) → Handler (Db P) Unit
  remove_reverse_shares [] = pure tt
  remove_reverse_shares ((rid, r) ∷ more) = do ReverseShare.remove rid; remove_reverse_shares more

  unfoldable pub delete_expired_reverse_shares : Handler (Db P) Unit
  unfolding remove_reverse_shares
  delete_expired_reverse_shares db =
      remove_reverse_shares (select (is_past w) (P.rows db.reverse_shares)) db

  -- The three tables of tokens, by `expiresAt: { lt: new Date() }`.
  unfoldable pub delete_expired_tokens : Db P → Db P
  delete_expired_tokens db = record db {
    refresh_tokens = P.erase_where (λ (t : RefreshToken). ltb t.expires_at w.now) db.refresh_tokens;
    login_tokens = P.erase_where (λ (t : LoginToken). ltb t.expires_at w.now) db.login_tokens;
    reset_password_tokens =
        P.erase_where (λ (t : ResetPasswordToken). ltb t.expires_at w.now) db.reset_password_tokens;
  }

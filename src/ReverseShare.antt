-- ===== src/ReverseShare.antt =====
-- backend/src/reverseShare/reverseShare.service.ts, and the guard of share/guard/createShare.guard.ts
-- that lets a visitor of a reverse share create a share.
use better_pingvin_share.Prelude.{
  ℕ, String, Bool, true, false, not, ◌&&◌, ◌||◌, none, Option, some, List, [], ◌∷◌, ltb, ◌==◌,
  if◌then◌else◌, ◌===◌,
}
use better_pingvin_share.Http.{
  done, throw, Handler, bad_request, not_found, prisma_error, pure, ◌>>◌,
}
use better_pingvin_share.Prisma.{Prisma}
use better_pingvin_share.Prisma.Keyed.{select}
use better_pingvin_share.Schema.{Db, Share, ReverseShare, pos, at_most_zero}
use better_pingvin_share.World.{World}
use better_pingvin_share.Text.{split, decimal, ◌⧺◌}
use better_pingvin_share.Dates.{
  relative_date, is_after, written_date, parse_relative_date_to_absolute,
}
use better_pingvin_share.Store.{reverse_share_by_token, put_reverse_share, delete_share}
use better_pingvin_share.FileStore.{delete_all_files}
use better_pingvin_share.Share.Request.{Request, authenticated_user}
use better_pingvin_share.Share.Create.{too_late}

-- `CreateReverseShareDTO`
pub record CreateReverseShare : Type 0 where
  pub send_email_notification : Bool
  pub max_share_size : ℕ
  pub share_expiration : String
  pub max_use_count : ℕ
  pub simplified : Bool
  pub public_access : Bool

abbrev pub is_after_maximum : World → Option ℕ → Bool
is_after_maximum w date =
    not (w.config.max_expiration.value == 0)
    && is_after (w.moment.add w.now w.config.max_expiration) date

abbrev pub new_reverse_share : World → CreateReverseShare → String → ℕ → ReverseShare
new_reverse_share w input creator date = record {
  token = w.fresh_id;
  share_expiration = date;
  max_share_size = input.max_share_size;
  send_email_notification = input.send_email_notification;
  remaining_uses = pos input.max_use_count;
  simplified = input.simplified;
  public_access = input.public_access;
  creator_id = creator;
}

-- Is a reverse share open to visitors?
abbrev pub is_usable : ℕ → ReverseShare → Bool
is_usable now r = not (ltb r.share_expiration now || at_most_zero r.remaining_uses)

abbrev pub of_reverse_share : String → Share → Bool
of_reverse_share rid s = elim s.reverse_share_id [ none ↦ false | some r ↦ r === rid ]

module _ {P : Prisma} (w : World) where
  -- The row that is created is found under `fresh_id`, and so is its token.
  unfoldable pub create : CreateReverseShare → String → Handler (Db P) String
  create input creator db =
      let expiration_date = relative_date w.moment w.now (split b'-' input.share_expiration) in
      if is_after_maximum w (parse_relative_date_to_absolute w.moment w.now input.share_expiration)
      then (throw too_late, db)
      else if ltb w.config.max_size input.max_share_size
      then (
        throw (
            bad_request
              ("Max share size can't be greater than " ⧺ decimal w.config.max_size ⧺ " bytes.")),
        db,
      )
      else elim (written_date expiration_date) [
        | throw e ↦ (throw e, db)
        | done date ↦ (
          done w.fresh_id,
          put_reverse_share w.fresh_id (new_reverse_share w input creator date) db,
        )
      ]

  unfoldable pub is_valid : String → Db P → Bool
  is_valid token db = elim (reverse_share_by_token token db) [
    | none ↦ false
    | some (rid, r) ↦ is_usable w.now r
  ]

  -- `canActivate` of CreateShareGuard: a signed-in user, or anybody where the configuration allows
  -- it, or the visitor of a reverse share that is open.
  unfoldable pub create_share_guard : Request → Db P → Bool
  create_share_guard request db = elim (authenticated_user request db) [
    | some user ↦ true
    | none ↦
        w.config.allow_unauthenticated_shares || (elim (request.cookies "reverse_share_token") [
          | none ↦ false
          | some token ↦ not (token === "") && is_valid token db
        ])
  ]

module _ {P : Prisma} where
  -- The loop over the shares of the reverse share.
  unfoldable pub remove_shares : List (String × Share) → Handler (Db P) Unit
  remove_shares [] = pure tt
  remove_shares ((id, s) ∷ more) = do delete_all_files id none; delete_share id; remove_shares more

  -- `prisma.reverseShare.delete({ where: { id } })`; the schema cascades to shares, and none is left
  unfoldable pub delete_reverse_share : String → Handler (Db P) Unit
  delete_reverse_share rid db = elim (P.find rid db.reverse_shares) [
    | none ↦ (throw (prisma_error "P2025"), db)
    | some r ↦ (
      done tt,
      record db {
        reverse_shares = P.erase rid db.reverse_shares;
        shares = P.erase_where (of_reverse_share rid) db.shares;
      },
    )
  ]

  unfoldable pub remove : String → Handler (Db P) Unit
  remove rid db =
      (do
        remove_shares (select (of_reverse_share rid) (P.rows db.shares))
        delete_reverse_share rid)
        db

  unfoldable pub get_by_id_and_owner : String → String → Handler (Db P) ReverseShare
  get_by_id_and_owner rid user db = elim (P.find rid db.reverse_shares) [
    | none ↦ (throw (not_found "Reverse share not found" none), db)
    | some r ↦
        if r.creator_id === user
        then (done r, db)
        else (throw (not_found "Reverse share not found" none), db)
  ]

-- ===== src/Share/Remove.antt =====
-- `remove` and `expire` of backend/src/share/share.service.ts.
use better_pingvin_share.Prelude.{
  String, Bool, not, ◌&&◌, Option, none, some, if◌then◌else◌, truthy,
}
use better_pingvin_share.Http.{throw, Handler, forbidden, pure, ◌>>◌}
use better_pingvin_share.Prisma.{Prisma}
use better_pingvin_share.Schema.{Db}
use better_pingvin_share.World.{World}
use better_pingvin_share.Store.{update_share, delete_share}
use better_pingvin_share.FileStore.{delete_all_files}
use better_pingvin_share.Share.Guard.{share_not_found}

module _ {P : Prisma} (w : World) where
  unfoldable pub expire : String → Handler (Db P) Unit
  expire id db = elim (P.find id db.shares) [
    | none ↦ (throw share_not_found, db)
    | some s ↦ (do update_share id (λ t. record t { expiration = w.now }); pure tt) db
  ]

  -- The files go first, then the row.
  unfoldable pub delete_with_files : String → Option String → Handler (Db P) Unit
  delete_with_files id provider = do delete_all_files id provider; delete_share id

  unfoldable pub remove : String → Bool → Bool → Handler (Db P) Unit
  remove id is_deleter_admin allow_anonymous_owner db = elim (P.find id db.shares) [
    | none ↦ (throw share_not_found, db)
    | some s ↦
        if not (truthy s.creator_id) && (not is_deleter_admin && not allow_anonymous_owner)
        then (throw (forbidden "Anonymous shares can't be deleted" none), db)
        else if not is_deleter_admin && not allow_anonymous_owner
        then expire id db
        else delete_with_files id none db
  ]

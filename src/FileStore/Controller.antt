-- ===== src/FileStore/Controller.antt =====
-- `create` and `remove` of backend/src/file/file.controller.ts, behind their guards: the share must be
-- one whose files may be changed.
use better_pingvin_share.Prelude.{String, Bool, Option, none, if◌then◌else◌}
use better_pingvin_share.Http.{Handler, forbidden, pure, raise, gets, ◌>>=◌, ◌>>◌}
use better_pingvin_share.Prisma.{Prisma}
use better_pingvin_share.World.{World}
use better_pingvin_share.Schema.{Db, Bytes}
use better_pingvin_share.FileStore
use better_pingvin_share.FileStore.Local.{Chunk, FileRef, Created}
use better_pingvin_share.Share.Request.{Request, authenticated_user, user_id}
use better_pingvin_share.Share.Guard.{share_owner_guard}
use better_pingvin_share.ReverseShare.{create_share_guard}
use better_pingvin_share.Share.Edit.{assert_share_files_mutable}

-- The framework answers a request that a guard does not let through.
abbrev pub demand : {S : Type 0} → Bool → Handler S Unit
demand passed = if passed then pure tt else raise (forbidden "Forbidden resource" none)

module _ {P : Prisma} (w : World) where
  unfoldable pub create : Bytes → Chunk → FileRef → String → Option String → Handler (Db P) Created
  create body chunk file share_id user = do
    assert_share_files_mutable w share_id user
    FileStore.create w body chunk file share_id

  -- The whole request of `create`, behind CreateShareGuard and ShareOwnerGuard
  unfoldable pub request_create :
      Request → Bytes → Chunk → FileRef → String → Handler (Db P) Created
  unfolding create
  request_create request body chunk file share_id = do
    may_create ← gets (create_share_guard w request)
    demand may_create
    owner ← share_owner_guard w request share_id
    demand owner
    user ← gets (authenticated_user request)
    create body chunk file share_id (user_id user)

  unfoldable pub remove : String → String → Option String → Handler (Db P) Unit
  remove file_id share_id user = do
    assert_share_files_mutable w share_id user
    FileStore.remove share_id file_id

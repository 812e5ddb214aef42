-- ===== src/Upload/Admits.antt =====
-- When the guards and the checks of the file controller let the chunks of an upload through.
use better_pingvin_share.Prelude.{String, true, false, Option, some, ◌≡◌, refl, arith}
use better_pingvin_share.Http.{done}
use better_pingvin_share.Prisma.{Prisma}
use better_pingvin_share.Schema.{Db, Share, Bytes}
use better_pingvin_share.World.{World}
use better_pingvin_share.FileStore
use better_pingvin_share.FileStore.S3
use better_pingvin_share.FileStore.Local
use better_pingvin_share.FileStore.Local.{Chunk}
use better_pingvin_share.FileStore.Controller.{request_create, create}
use better_pingvin_share.ReverseShare.{create_share_guard, is_valid}
use better_pingvin_share.Share.Request.{Request, SignedIn, authenticated_user, user_id}
use better_pingvin_share.Share.Access.{
  is_share_expired, is_share_removed, is_share_within_expired_editable_period,
}
use better_pingvin_share.Share.Guard.{share_owner_guard}
use better_pingvin_share.Share.Guard.Owner.{IsOwner, share_owner_guard_iff}
use better_pingvin_share.Share.Edit.{is_foreign, editable_outcome, assert_share_files_mutable}
use better_pingvin_share.Share.Edit.Bounded.{entity}
use better_pingvin_share.Upload.{answer, post_chunk}

module _ {P : Prisma} (w : World) (request : Request) (share_id : String) (s : Share) where
  -- Both guards let the requests of this user through, and the files of the share may be changed: the
  -- user may create shares and is the owner, the share has no creator or the user is the creator, and
  -- it was not removed and has not expired.
  pub record Admits (db : Db P) : Type 0 where
    pub user : Option SignedIn
    pub signed : authenticated_user request db ≡ user
    pub may_create : create_share_guard w request db ≡ true
    pub owner : IsOwner w request share_id s user
    pub own : is_foreign s (user_id user) false ≡ false
    pub not_removed : is_share_removed (some s) ≡ false
    pub not_expired : is_share_expired w.now (some s.expiration) ≡ false

  -- Only the users and the reverse shares count.
  same_user :
      (db later : Db P)
      → later.users ≡ db.users
      → authenticated_user request later ≡ authenticated_user request db
  unfolding authenticated_user
  same_user db later users = ground arith

  same_guard :
      (db later : Db P)
      → later.users ≡ db.users
      → later.reverse_shares ≡ db.reverse_shares
      → create_share_guard w request later ≡ create_share_guard w request db
  unfolding create_share_guard is_valid
  same_guard db later users boxes = ground (arith, same_user db later users)

  pub Admits-same :
      (db later : Db P)
      → later.users ≡ db.users
      → later.reverse_shares ≡ db.reverse_shares
      → Admits db
      → Admits later
  Admits-same db later users boxes a = record {
    user = a.user;
    signed = rw (same_user db later users) a.signed;
    may_create = rw (same_guard db later users boxes) a.may_create;
    owner = a.owner;
    own = a.own;
    not_removed = a.not_removed;
    not_expired = a.not_expired;
  }

  editable : (db : Db P) (a : Admits db) → editable_outcome w s (user_id a.user) false ≡ done s
  unfolding is_share_within_expired_editable_period
  editable db a = rw (a.own, a.not_removed, a.not_expired) refl

  mutable :
      (db : Db P) (a : Admits db)
      → P.find share_id db.shares ≡ some s
      → assert_share_files_mutable w share_id (user_id a.user) db ≡ (done tt, db)
  unfolding assert_share_files_mutable
  mutable db a found =
      rw (entity w share_id (user_id a.user) s db found, editable db a, a.not_expired) refl

  owned :
      (db : Db P) (a : Admits db)
      → P.find share_id db.shares ≡ some s
      → share_owner_guard w request share_id db ≡ (done true, db)
  owned db a found =
      let (iff, kept) = share_owner_guard_iff w request share_id s db found in
      ground (arith, kept, iff.1 (rw a.signed a.owner))

  -- The chunk comes to the storage of the configuration.
  posted :
      (name : String) (id : Option String) (chunk : Chunk) (b : Bytes) (db : Db P) (a : Admits db)
      → P.find share_id db.shares ≡ some s
      → post_chunk w request share_id name id chunk b db
        ≡ answer (FileStore.create w b chunk (record { id = id; name = name }) share_id db)
  unfolding post_chunk request_create create
  posted name id chunk b db a found =
      rw (a.may_create, owned db a found, a.signed, mutable db a found) refl

  pub posted_local :
      (name : String) (id : Option String) (chunk : Chunk) (b : Bytes) (db : Db P) (a : Admits db)
      → P.find share_id db.shares ≡ some s
      → w.config.s3_enabled ≡ false
      → post_chunk w request share_id name id chunk b db
        ≡ answer (Local.create w b chunk (record { id = id; name = name }) share_id db)
  unfolding FileStore.create
  posted_local name id chunk b db a found local =
      rw (posted name id chunk b db a found) (rw local refl)

  pub posted_s3 :
      (name : String) (id : Option String) (chunk : Chunk) (b : Bytes) (db : Db P) (a : Admits db)
      → P.find share_id db.shares ≡ some s
      → w.config.s3_enabled ≡ true
      → post_chunk w request share_id name id chunk b db
        ≡ answer (S3.create w b chunk (record { id = id; name = name }) share_id db)
  unfolding FileStore.create
  posted_s3 name id chunk b db a found bucket =
      rw (posted name id chunk b db a found) (rw bucket refl)

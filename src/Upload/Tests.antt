-- ===== src/Upload/Tests.antt =====
-- Uploads of five bytes in chunks of two, and the files that others have.
use better_pingvin_share.Prelude.{
  true, false, none, some, List, [], ◌∷◌, ◌≡◌, refl, arith, inl, inr,
}
use better_pingvin_share.Http.{done, throw, system_error}
use better_pingvin_share.Prisma.Assoc.{assoc}
use better_pingvin_share.Schema.{Db, User, Share, File, Bytes}
use better_pingvin_share.World.{World}
use better_pingvin_share.World.Example.{world_at}
use better_pingvin_share.FileStore
use better_pingvin_share.FileStore.S3
use better_pingvin_share.Upload.ToBucket.{BucketHost, Room}
use better_pingvin_share.Upload.BucketEnds.{sent, s3_upload_ends}
use better_pingvin_share.FileStore.Isolation.{remove_keeps_foreign}
use better_pingvin_share.FileStore.Local.{
  FileRef, create, get, chosen_id, receive, check, check_chunk, append_file, finish_file, rename,
  create_file,
}
use better_pingvin_share.FileStore.Local.Limits.{Took, create-Took}
use better_pingvin_share.Upload.{
  Delivery, arrives, request_lost, response_lost, running, finished, run, round, upload_file,
  post_chunk,
}
use better_pingvin_share.Share.Request.{Request, authenticated_user}
use better_pingvin_share.Share.Access.{
  is_share_removed, is_share_expired, is_share_within_expired_editable_period,
}
use better_pingvin_share.Share.Guard.{share_owner_guard}
use better_pingvin_share.Share.Edit.{assert_share_files_mutable, get_editable_share_entity}
use better_pingvin_share.ReverseShare.{create_share_guard}
use better_pingvin_share.Upload.Admits.{Admits}
use better_pingvin_share.Upload.Server.{Host, Held, file_row}
use better_pingvin_share.Upload.Schedule.{replicate}
use better_pingvin_share.Upload.Ends.{upload_file_ends, uploaded}

abbrev w : World
w = record (world_at 5000) { config = record (world_at 5000).config { chunk_size = 2 } }

abbrev file : Bytes
file = 104 ∷ 101 ∷ 108 ∷ 108 ∷ 111 ∷ []

abbrev owner : User
owner = record {
  username = "owner";
  email = "owner@example.org";
  password = none;
  is_admin = false;
  ldap_dn = none;
  totp_enabled = false;
  totp_verified = false;
  totp_secret = none;
}

abbrev by_owner : Request
by_owner = record {
  forwarded_for = none;
  ip = none;
  query_token = none;
  cookies = λ name. none;
  session_user = some "u";
}

abbrev draft : Share
draft = record {
  created_at = 1000;
  name = none;
  upload_locked = false;
  is_zip_ready = false;
  views = 0;
  expiration = 90000;
  description = none;
  removed_reason = none;
  creator_id = some "u";
  reverse_share_id = none;
  security = none;
  recipients = [];
  storage_provider = "LOCAL";
}

abbrev other : File
other = record { name = "other.txt"; size = 3; share_id = "elsewhere" }

abbrev db : Db assoc
db = record {
  users = ("u", owner) ∷ [];
  api_tokens = [];
  refresh_tokens = [];
  login_tokens = [];
  reset_password_tokens = [];
  oauth_users = [];
  shares = ("draft", draft) ∷ [];
  reverse_shares = [];
  files = ("o", other) ∷ [];
  disk = ("draft", []) ∷ [];
  bucket = [];
  multipart_uploads = [];
  started = [];
}

host : Host w file
host = record {
  chunk_size = omega arith;
  uuid = refl;
  not_empty = refl;
  space = omega arith;
  local = refl;
}

nothing_yet : Held {P = assoc} w "draft" "hello.txt" file draft 0 db
nothing_yet = record {
  share = refl;
  unlocked = refl;
  dir = [];
  there = refl;
  bytes = refl;
  fits = refl;
  unused = refl;
}

admitted : Admits {P = assoc} w by_owner "draft" draft db
unfolding authenticated_user create_share_guard is_share_removed is_share_expired
admitted = record {
  user = some ("u", owner);
  signed = refl;
  may_create = refl;
  owner = inr (inl (refl, refl));
  own = refl;
  not_removed = refl;
  not_expired = refl;
}

-- The first request, the second and the fourth are lost.
abbrev net : List Delivery
net = request_lost ∷ arrives ∷ request_lost ∷ arrives ∷ request_lost ∷ []

upload_file_ends_example :
    ((uploaded {P = assoc} w by_owner "draft" "hello.txt" file draft host net db).0 ≡ finished true)
    × (get "draft" "fresh"
          (uploaded {P = assoc} w by_owner "draft" "hello.txt" file draft host net db).1
        ≡ done (file_row w "draft" "hello.txt" file, some file))
upload_file_ends_example =
    upload_file_ends {P = assoc} w by_owner "draft" "hello.txt" file draft host net db refl
      nothing_yet admitted

-- The second chunk of the file, after the first
abbrev second : Bytes
second = 108 ∷ 108 ∷ []

abbrev half : Db assoc
half = record db { disk = ("draft", ("f.tmp-chunk", 104 ∷ 101 ∷ []) ∷ []) ∷ [] }

abbrev hello : FileRef
hello = record { id = some "f"; name = "hello.txt" }

taken :
    (create {P = assoc} w second (record { index = 1; total = 3 }) hello "draft" half).0
    ≡ done (record { id = "f"; name = "hello.txt" })
unfolding create chosen_id receive check check_chunk append_file
taken = refl

create-Took_example :
    Took {P = assoc} w draft "draft"
      (record { index = 1; total = 3 })
      second
      "f"
      half
      (create {P = assoc} w second (record { index = 1; total = 3 }) hello "draft" half).1
create-Took_example =
    create-Took {P = assoc} w "draft" (record { index = 1; total = 3 }) second hello draft
      (record { id = "f"; name = "hello.txt" }) half refl taken

remove_keeps_foreign_example :
    assoc.find "o" (FileStore.remove {P = assoc} "draft" "o" db).1.files ≡ some other
remove_keeps_foreign_example = remove_keeps_foreign {P = assoc} "draft" "o" "o" other db refl refl

-- Where the response to the last chunk is lost, the file is there, but the client starts over under
-- the same id, and each time the row of the file is refused.
starts_over :
    (upload_file 2 file
      (post_chunk {P = assoc} w by_owner "draft" "hello.txt")
      (arrives ∷ arrives ∷ response_lost ∷ replicate 9 arrives)
      db).0
    ≡ running (record { file_id = some "fresh"; index = 0 })
unfolding upload_file run round post_chunk create chosen_id receive check check_chunk append_file
    finish_file rename create_file create_share_guard authenticated_user share_owner_guard
    assert_share_files_mutable get_editable_share_entity is_share_removed
    is_share_within_expired_editable_period FileStore.create
starts_over = refl

-- A completed share, with a limit of three bytes, over the bucket
abbrev small : World
small = record w { config = record w.config { s3_enabled = true; max_size = 3 } }

abbrev closed : Db assoc
closed = record db { shares = ("draft", record draft { upload_locked = true }) ∷ [] }

bucket_host : BucketHost small file
bucket_host = record {
  chunk_size = omega arith;
  uuid = refl;
  not_empty = refl;
  bucket = refl;
  sizes = refl;
}

room :
    Room {P = assoc} small "draft" "hello.txt" file (record draft { upload_locked = true }) closed
room = record { share = refl; unused = refl }

admitted_closed :
    Admits {P = assoc} small by_owner "draft" (record draft { upload_locked = true }) closed
unfolding authenticated_user create_share_guard is_share_removed is_share_expired
admitted_closed = record {
  user = some ("u", owner);
  signed = refl;
  may_create = refl;
  owner = inr (inl (refl, refl));
  own = refl;
  not_removed = refl;
  not_expired = refl;
}

s3_upload_ends_example :
    ((sent {P = assoc} small by_owner "draft" "hello.txt" file
        (record draft { upload_locked = true })
        bucket_host
        net
        closed).0
      ≡ finished true)
    × (S3.get "draft" "fresh"
          (sent {P = assoc} small by_owner "draft" "hello.txt" file
            (record draft { upload_locked = true })
            bucket_host
            net
            closed).1
        ≡ done (file_row small "draft" "hello.txt" file, some file))
s3_upload_ends_example =
    s3_upload_ends {P = assoc} small by_owner "draft" "hello.txt" file
      (record draft { upload_locked = true }) bucket_host net closed refl room admitted_closed

-- Two files of one name share an object of the bucket: with the one, the other is lost.
abbrev twins : Db assoc
twins = record db {
  files =
      ("a", record { name = "n"; size = 1; share_id = "draft" })
      ∷ ("b", record { name = "n"; size = 1; share_id = "draft" })
      ∷ [];
  bucket = ("draft", ("n", 7 ∷ []) ∷ []) ∷ [];
}

twin_lost :
    S3.get {P = assoc} "draft" "b" (S3.remove {P = assoc} "draft" "a" twins).1
    ≡ throw (system_error "NoSuchKey")
unfolding S3.get S3.remove
twin_lost = refl

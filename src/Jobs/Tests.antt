-- ===== src/Jobs/Tests.antt =====
-- The jobs on concrete shares: one overdue, one unfinished, one open.
use better_pingvin_share.Prelude.{
  String, true, false, none, some, List, [], ◌∷◌, all, ◌≡◌, refl, arith, Bool-cases, inl, inr,
  ◌===◌,
}
use better_pingvin_share.Http.{done}
use better_pingvin_share.Prisma.{unless}
use better_pingvin_share.Prisma.Assoc.{assoc}
use better_pingvin_share.Prisma.Keyed.{lookup}
use better_pingvin_share.Schema.{Db, Share}
use better_pingvin_share.World.{World}
use better_pingvin_share.World.Example.{world_at}
use better_pingvin_share.Jobs.{delete_expired_shares, is_overdue}
use better_pingvin_share.Jobs.Cleanup.{is_local, delete_expired_shares_lem}

abbrev row : Share
row = record {
  created_at = 80000;
  name = none;
  upload_locked = true;
  is_zip_ready = false;
  views = 0;
  expiration = 90000;
  description = none;
  removed_reason = none;
  creator_id = none;
  reverse_share_id = none;
  security = none;
  recipients = [];
  storage_provider = "LOCAL";
}

abbrev db : Db assoc
db = record {
  users = [];
  api_tokens = [];
  refresh_tokens = [];
  login_tokens = [];
  reset_password_tokens = [];
  oauth_users = [];
  shares =
      ("overdue", record row { expiration = 1000 })
      ∷ ("unfinished", record row { created_at = 1000; upload_locked = false })
      ∷ ("open", row)
      ∷ [];
  reverse_shares = [];
  files = [];
  disk = [];
  bucket = [];
  multipart_uploads = [];
  started = [];
}

abbrev w : World
w = world_at 85000

all_local :
    (l : List (String × Share)) (j : String) (s : Share)
    → all (λ (r : String × Share). is_local r.1) l ≡ true
    → lookup j l ≡ some s
    → is_local s ≡ true
all_local [] j s local h = absurd (ground arith)
all_local ((k, v) ∷ l) j s local h = elim (Bool-cases (k === j)) [
  | inl e ↦ ground (arith, all_local l j s)
  | inr e ↦ ground (arith, all_local l j s)
]

delete_expired_shares_lem_example :
    ((delete_expired_shares w db).0 ≡ done tt)
    × (assoc.find "overdue" (delete_expired_shares w db).1.shares
        ≡ unless (is_overdue w) (assoc.find "overdue" db.shares))
delete_expired_shares_lem_example =
    delete_expired_shares_lem w "overdue" db (λ j s h late. all_local db.shares j s refl h)

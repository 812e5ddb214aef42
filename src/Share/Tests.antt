-- ===== src/Share/Tests.antt =====
-- Concrete data for runs of the handlers of shares.
mod Guards
mod Rules
use better_pingvin_share.Prelude.{true, false, none, some, [], ◌∷◌}
use better_pingvin_share.Prisma.Assoc.{assoc}
use better_pingvin_share.Schema.{Db, Share, ShareSecurity, ReverseShare, File, pos}
use better_pingvin_share.World.{World}
use better_pingvin_share.World.Example.{world_at}
use better_pingvin_share.Share.Request.{Request}

-- A share with room for two addresses, one place taken, and three views; a share of a reverse share
-- that is not public; and an old share with a list.
abbrev pub limits : ShareSecurity
limits = record {
  password = none;
  max_views = some 3;
  max_ips = some 2;
  allowed_ips = [];
  assigned_ips = "10.0.0.1" ∷ [];
}

abbrev pub open_share : Share
open_share = record {
  created_at = 1000;
  name = none;
  upload_locked = true;
  is_zip_ready = false;
  views = 2;
  expiration = 90000;
  description = none;
  removed_reason = none;
  creator_id = none;
  reverse_share_id = none;
  security = some limits;
  recipients = [];
  storage_provider = "LOCAL";
}

abbrev pub private_row : Share
private_row = record open_share { reverse_share_id = some "rs"; security = none }

abbrev pub draft : Share
draft = record open_share { upload_locked = false }

abbrev pub listed : ShareSecurity
listed = record limits { allowed_ips = "10.0.0.2" ∷ []; max_ips = none }

abbrev pub box : ReverseShare
box = record {
  token = "box";
  share_expiration = 90000;
  max_share_size = 1000;
  send_email_notification = false;
  remaining_uses = pos 2;
  simplified = false;
  public_access = false;
  creator_id = "owner";
}

abbrev pub note : File
note = record { name = "note.txt"; size = 12; share_id = "draft" }

abbrev pub db : Db assoc
db = record {
  users = [];
  api_tokens = [];
  refresh_tokens = [];
  login_tokens = [];
  reset_password_tokens = [];
  oauth_users = [];
  shares = ("open", open_share) ∷ ("private", private_row) ∷ ("draft", draft) ∷ [];
  reverse_shares = ("rs", box) ∷ [];
  files = ("f", note) ∷ [];
  disk = [];
  bucket = [];
  multipart_uploads = [];
  started = [];
}

abbrev pub w : World
w = world_at 5000

-- A visitor with no cookie, from an address
abbrev pub visitor : Request
visitor = record {
  forwarded_for = none;
  ip = some "10.0.0.2";
  query_token = none;
  cookies = λ name. none;
  session_user = none;
}

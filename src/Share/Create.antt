-- ===== src/Share/Create.antt =====
-- `create` and `complete` of backend/src/share/share.service.ts, with `getAnonymousOwnerAccess`,
-- `isShareIdAvailable`, `isShareCompleted` and `revertComplete`.
pub mod Expiry
use mathlib.Core.Option
use better_pingvin_share.Prelude.{
  ℕ, ◌+◌, String, Bool, true, false, not, ◌&&◌, ◌||◌, Option, none, some, List, [], ◌∷◌, length,
  ltb, ◌==◌, if◌then◌else◌, truthy,
}
use better_pingvin_share.Http.{
  Outcome, done, throw, Handler, HttpError, bad_request, prisma_error, internal_server_error,
  type_error, pure, raise, gets, lift, modify, throw_if, ◌>>=◌, ◌>>◌,
}
use better_pingvin_share.Prisma.{Prisma}
use better_pingvin_share.Schema.{
  Db, Share, ShareSecurity, ReverseShare, User, File, Effect, mail_share_recipient,
  mail_reverse_share_creator, create_zip, scan, decrement,
}
use better_pingvin_share.World.{World, Timespan}
use better_pingvin_share.Text.{◌⧺◌}
use better_pingvin_share.Dates.{parse_relative_date_to_absolute, is_after, written_date}
use better_pingvin_share.Store.{
  find_share, update_share, create_share, files_of, find_reverse_share, reverse_share_by_token,
  put_reverse_share, start,
}
use better_pingvin_share.Share.Security.{SecurityInput, normalize_share_security}
use better_pingvin_share.Share.Token.{generate_share_owner_token}

-- `CreateShareDTO`
pub record CreateShare : Type 0 where
  pub id : String
  pub name : Option String
  pub expiration : String
  pub description : Option String
  pub recipients : List String
  pub security : Option SecurityInput

-- What the owner of an anonymous share gets: a token, and the link that carries it.
pub record OwnerAccess : Type 0 where
  pub owner_token : String
  pub owner_management_link : String

-- `argon.hash` of the password, where the security row has one.
abbrev pub hash_password : World → Option ShareSecurity → Option ShareSecurity
hash_password w none = none
hash_password w (some sec) = some (record sec {
  password =
      if truthy sec.password then Option.map (w.argon.hash w.salt) sec.password else sec.password;
})

abbrev pub too_late : HttpError
too_late = bad_request "Expiration date exceeds maximum expiration date"

-- Does a date lie beyond the maximum that the configuration sets? A maximum of 0 is none.
abbrev pub exceeds_maximum : World → Bool → Option ℕ → Bool
exceeds_maximum w expires_never date =
    not (w.config.max_expiration.value == 0)
    && (expires_never || is_after (w.moment.add w.now w.config.max_expiration) date)

-- The date of a share that no reverse share decides. `moment(0).toDate() == parsedExpiration`
-- compares two objects, and is false whatever their dates.
unfoldable pub creation_date : World → String → Outcome (Option ℕ)
creation_date w text =
    let parsed = parse_relative_date_to_absolute w.moment w.now text in
    if exceeds_maximum w false parsed then throw too_late else done parsed

abbrev pub creation_date_for : World → String → Option (String × ReverseShare) → Outcome (Option ℕ)
creation_date_for w text none = creation_date w text
creation_date_for w text (some (rid, r)) = done (some r.share_expiration)

-- The row of a new share.
abbrev pub new_share : World → CreateShare → ℕ → Option ShareSecurity → Option String → Share
new_share w share expiration security creator = record {
  created_at = w.now;
  name = share.name;
  upload_locked = false;
  is_zip_ready = false;
  views = 0;
  expiration = expiration;
  description = share.description;
  removed_reason = none;
  creator_id = creator;
  reverse_share_id = none;
  security = security;
  recipients = share.recipients;
  storage_provider = if w.config.s3_enabled then "S3" else "LOCAL";
}

module _ {P : Prisma} where
  -- `fs.mkdirSync(…, { recursive: true })`: a directory that is there stays as it is.
  abbrev pub make_directory : String → Handler (Db P) Unit
  make_directory id db = elim (P.find id db.disk) [
    | none ↦ (done tt, record db { disk = P.write id P.empty db.disk })
    | some files ↦ (done tt, db)
  ]

  -- `getByToken` of the reverse share service
  unfoldable pub get_by_token : Option String → Db P → Option (String × ReverseShare)
  get_by_token token db =
      if truthy token
      then (elim token [ none ↦ none | some t ↦ reverse_share_by_token t db ])
      else none

  -- `shares: { connect: { id } }` in an update of the reverse share
  abbrev pub connect : String → Option (String × ReverseShare) → Handler (Db P) Unit
  connect id none = pure tt
  connect id (some (rid, r)) = do
    update_share id (λ s. record s { reverse_share_id = some rid })
    pure tt

  unfoldable pub is_share_id_available : String → Db P → Bool
  is_share_id_available id db = elim (P.find id db.shares) [ none ↦ true | some s ↦ false ]

  unfoldable pub is_share_completed : String → Handler (Db P) Bool
  is_share_completed id db = elim (P.find id db.shares) [
    | none ↦ (throw type_error, db)
    | some s ↦ (done s.upload_locked, db)
  ]

module _ {P : Prisma} (w : World) where
  unfoldable pub get_anonymous_owner_access : String → Handler (Db P) OwnerAccess
  get_anonymous_owner_access id = do
    token ← generate_share_owner_token w id
    pure (record {
      owner_token = token;
      owner_management_link =
          w.config.app_url ⧺ "/share/" ⧺ id ⧺ "/edit#ownerToken=" ⧺ w.encode_uri_component token;
    })

  -- The owner's access where the share has no creator.
  abbrev pub owner_access : String → Option String → Handler (Db P) (Option OwnerAccess)
  owner_access id creator =
      if truthy creator
      then pure none
      else do access ← get_anonymous_owner_access id; pure (some access)

  -- The share is written, and joined to its reverse share.
  unfoldable pub store_share :
      CreateShare
      → Option ShareSecurity
      → Option ℕ
      → Option String
      → Option (String × ReverseShare)
      → Handler (Db P) (Share × Option OwnerAccess)
  store_share share security expiration creator reverse = do
    make_directory share.id
    date ← lift (written_date expiration)
    created ← create_share share.id (new_share w share date security creator)
    connect share.id reverse
    access ← owner_access share.id created.creator_id
    pure (created, access)

  -- `user` is the id of the signed-in user, and `reverse_share_token` the cookie.
  unfoldable pub create :
      CreateShare → Option String → Option String → Handler (Db P) (Share × Option OwnerAccess)
  create share user reverse_share_token = do
    is_available ← gets (is_share_id_available share.id)
    throw_if (not is_available) (bad_request "Share id already in use")
    security ← lift (normalize_share_security w share.security)
    reverse ← gets (get_by_token reverse_share_token)
    expiration ← lift (creation_date_for w share.expiration reverse)
    store_share share (hash_password w security) expiration user reverse

-- ===== src/Share/Visit.antt =====
-- `getShareToken` and `getFileList` of backend/src/share/share.service.ts: the two other ways into a
-- share, which check the same rules as its guard.
pub mod Password
use better_pingvin_share.Prelude.{
  String, Bool, true, false, not, ◌&&◌, Option, none, some, if◌then◌else◌, truthy, ◌===◌,
}
use better_pingvin_share.Http.{
  Outcome, done, throw, Handler, HttpError, forbidden, type_error, pure, raise, throw_if, ◌>>=◌,
  ◌>>◌,
}
use better_pingvin_share.Prisma.{Prisma}
use better_pingvin_share.Schema.{Db, Share}
use better_pingvin_share.World.{World}
use better_pingvin_share.Share.Request.{Request}
use better_pingvin_share.Share.Access.{is_share_expired, is_share_removed}
use better_pingvin_share.Share.IpAccess.{assert_share_ip_access}
use better_pingvin_share.Share.Token.{verify_share_token, generate_share_token}
use better_pingvin_share.Share.Guard.{
  share_not_found, share_removed, private_share, password_required, token_required,
  max_views_exceeded, password_of, views_exceeded, is_private_for, increase_view_count,
}

abbrev pub wrong_password : HttpError
wrong_password = forbidden "Wrong password" (some "wrong_password")

-- `argon.verify` of the password that the request has, if the share wants one
abbrev pub password_outcome : World → Option String → Option String → Outcome (Unit {0})
password_outcome w none given = done tt
password_outcome w (some hash) given =
    if hash === ""
    then done tt
    else if not (truthy given)
    then throw password_required
    else (elim given [
      | none ↦ throw password_required
      | some p ↦ if w.argon.verify hash p then done tt else throw wrong_password
    ])

-- What `getFileList` returns: the row, the token if there is one, and whether it is new.
pub record FileList : Type 0 where
  pub share : Share
  pub has_password : Bool
  pub share_token : Option String
  pub generated_share_token : Bool

abbrev pub file_list : Share → Option String → Bool → FileList
file_list s token generated = record {
  share = s;
  has_password = truthy (password_of s.security);
  share_token = token;
  generated_share_token = generated;
}

module _ {P : Prisma} (w : World) (request : Request) (id : String) where
  -- Once the password is right: the views, the address, a new token, and the view is counted.
  unfoldable pub give_token : Share → Handler (Db P) String
  give_token s = do
    throw_if (views_exceeded s) max_views_exceeded
    assert_share_ip_access w id s.security request true
    token ← generate_share_token w id
    increase_view_count id s
    pure token

  abbrev pub after_password : Share → Outcome (Unit {0}) → Handler (Db P) String
  after_password s (throw e) db = (throw e, db)
  after_password s (done u) db = give_token s db

  unfoldable pub get_share_token : Option String → Handler (Db P) String
  get_share_token password db = elim (P.find id db.shares) [
    | none ↦ (throw type_error, db)
    | some s ↦ after_password s (password_outcome w (password_of s.security) password) db
  ]

  -- Without a valid token: the views are limited and counted, and a token is made.
  unfoldable pub list_openly : Share → Option String → Handler (Db P) FileList
  list_openly s token =
      if truthy (password_of s.security)
      then (do
        assert_share_ip_access w id s.security request false
        raise (if truthy token then token_required else password_required))
      else (do
        throw_if (views_exceeded s) max_views_exceeded
        assert_share_ip_access w id s.security request true
        increase_view_count id s
        new_token ← generate_share_token w id
        pure (file_list s (some new_token) true))

  unfoldable pub list_with_token : Share → String → Handler (Db P) FileList
  list_with_token s token = do
    is_valid ← verify_share_token w id token
    if is_valid
        then (do
          assert_share_ip_access w id s.security request true
          pure (file_list s (some token) false))
        else list_openly s (some token)

  abbrev pub list_by_token : Share → Option String → Handler (Db P) FileList
  list_by_token s none = list_openly s none
  list_by_token s (some token) = list_with_token s token

  -- `user` and `is_admin` are the claims of the access token, which the caller has verified.
  unfoldable pub list_for : Share → Option String → Option String → Bool → Handler (Db P) FileList
  list_for s token user is_admin db =
      if is_admin && w.config.allow_admin_access_all_shares
      then (done (file_list s none false), db)
      else if is_private_for s user db
      then (throw private_share, db)
      else list_by_token s token db

  unfoldable pub get_file_list : Option String → Option String → Bool → Handler (Db P) FileList
  get_file_list token user is_admin db = elim (P.find id db.shares) [
    | none ↦ (throw share_not_found, db)
    | some s ↦
        if not s.upload_locked
        then (throw share_not_found, db)
        else if is_share_removed (some s)
        then (throw (share_removed s), db)
        else if is_share_expired w.now (some s.expiration)
        then (throw share_not_found, db)
        else list_for s token user is_admin db
  ]

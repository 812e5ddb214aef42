-- ===== src/Share/Edit.antt =====
-- `getEditableShareEntity`, `update`, `assertShareOwnership` and `assertShareFilesMutable` of
-- backend/src/share/share.service.ts.
pub mod Bounded
use better_pingvin_share.Prelude.{
  ℕ, String, Bool, false, not, ◌&&◌, Option, none, some, List, if◌then◌else◌, truthy, same_id,
}
use better_pingvin_share.Http.{
  Outcome, done, throw, Handler, bad_request, pure, lift, throw_if, ◌>>=◌, ◌>>◌,
}
use better_pingvin_share.Prisma.{Prisma}
use better_pingvin_share.Schema.{Db, Share}
use better_pingvin_share.World.{World}
use better_pingvin_share.Store.{update_share}
use better_pingvin_share.Dates.{written_date}
use better_pingvin_share.Share.Access.{
  is_share_expired, is_share_removed, is_share_within_expired_editable_period,
}
use better_pingvin_share.Share.Guard.{share_not_found, share_removed}
use better_pingvin_share.Share.Security.{SecurityUpdate, SecurityWrite}
use better_pingvin_share.Share.SecurityUpdate.{create_security_update_input, apply_write}
use better_pingvin_share.Share.Create.Expiry.{parse_and_validate_expiration}

-- `UpdateShareDTO`: the fields that the request has. A text that is empty is stored as null.
pub record ShareUpdate : Type 0 where
  pub name : Option (Option String)
  pub description : Option (Option String)
  pub expiration : Option String
  pub recipients : Option (List String)
  pub security : Option SecurityUpdate

-- May nobody but the creator, and the caller is somebody else?
abbrev pub is_foreign : Share → Option String → Bool → Bool
is_foreign s user allow_admin =
    not allow_admin && (truthy s.creator_id && not (same_id s.creator_id user))

abbrev pub editable_outcome : World → Share → Option String → Bool → Outcome Share
editable_outcome w s user allow_admin =
    if is_foreign s user allow_admin
    then throw share_not_found
    else if is_share_removed (some s)
    then throw (share_removed s)
    else if not (
        is_share_within_expired_editable_period w.moment w.now s.expiration
          w.config.expired_editable_period)
    then throw share_not_found
    else done s

-- `value || null`, or the present value where the request has no such field
abbrev pub text_update : Option (Option String) → Option String → Option String
text_update none current = current
text_update (some new) current = if truthy new then new else none

abbrev pub or_same {ℓ} : {A : Type ℓ} → Option A → A → A
or_same none current = current
or_same (some new) current = new

abbrev pub updated_share : ShareUpdate → Option ℕ → SecurityWrite → Share → Share
updated_share update expiration write s = record s {
  name = text_update update.name s.name;
  description = text_update update.description s.description;
  expiration = or_same expiration s.expiration;
  recipients = or_same update.recipients s.recipients;
  security = apply_write write s.security;
}

-- The new expiration, where the request has one.
abbrev pub new_expiration : World → Option String → Bool → Outcome (Option (Option ℕ))
new_expiration w none is_admin = done none
new_expiration w (some text) is_admin = elim (parse_and_validate_expiration w text is_admin) [
  | throw e ↦ throw e
  | done d ↦ done (some d)
]

-- The expiration that is written, where one is
abbrev pub written_expiration : Option (Option ℕ) → Outcome (Option ℕ)
written_expiration none = done none
written_expiration (some date) = elim (written_date date) [
  | throw e ↦ throw e
  | done d ↦ done (some d)
]

module _ {P : Prisma} (w : World) where
  unfoldable pub get_editable_share_entity : String → Option String → Bool → Handler (Db P) Share
  get_editable_share_entity id user allow_admin db = elim (P.find id db.shares) [
    | none ↦ (throw share_not_found, db)
    | some s ↦ (editable_outcome w s user allow_admin, db)
  ]

  -- `toDetailedOwnerShare` only chooses the columns to show, so the row stands for its result.
  unfoldable pub update : String → ShareUpdate → Option String → Bool → Handler (Db P) Share
  update id changes user is_admin = do
    share ← get_editable_share_entity id user is_admin
    expiration ← lift (new_expiration w changes.expiration is_admin)
    write ← lift (create_security_update_input w changes.security share.security)
    written ← lift (written_expiration expiration)
    update_share id (updated_share changes written write)
    get_editable_share_entity id user is_admin

  unfoldable pub assert_share_ownership : String → Option String → Handler (Db P) Unit
  assert_share_ownership id user = do get_editable_share_entity id user false; pure tt

  unfoldable pub assert_share_files_mutable : String → Option String → Handler (Db P) Unit
  assert_share_files_mutable id user = do
    share ← get_editable_share_entity id user false
    throw_if (is_share_expired w.now (some share.expiration))
        (bad_request "Expired shares must be extended before files can be changed")

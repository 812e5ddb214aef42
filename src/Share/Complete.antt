-- ===== src/Share/Complete.antt =====
-- `complete` and `revertComplete` of backend/src/share/share.service.ts, with the mails of
-- backend/src/email/email.service.ts that they send and the end of `createZip`.
pub mod Locking
pub mod Success
use better_pingvin_share.Prelude.{
  ℕ, String, Bool, true, false, not, ◌&&◌, Option, none, some, List, [], ◌∷◌, length, ltb, ◌==◌,
  if◌then◌else◌,
}
use better_pingvin_share.Http.{
  Outcome, done, throw, Handler, HttpError, bad_request, prisma_error, internal_server_error,
  type_error, pure, raise, gets, throw_if, ◌>>=◌, ◌>>◌,
}
use better_pingvin_share.Prisma.{Prisma}
use better_pingvin_share.Schema.{
  Db, Share, ReverseShare, User, Effect, mail_share_recipient, mail_reverse_share_creator,
  create_zip, scan, decrement,
}
use better_pingvin_share.World.{World}
use better_pingvin_share.Store.{
  update_share, files_of, find_reverse_share, reverse_share_by_token, put_reverse_share, start,
}
use better_pingvin_share.Share.Create.{is_share_completed, owner_access, OwnerAccess}

-- What `complete` returns: the row, whether the reverse share's creator was to be told, and the
-- owner's access to an anonymous share.
pub record Completed : Type 0 where
  pub share : Share
  pub notify_reverse_share_creator : Option Bool
  pub access : Option OwnerAccess

-- Should the creator of the share's reverse share be told?
abbrev pub notify : World → Option ReverseShare → Option Bool
notify w none = none
notify w (some r) = some (w.config.smtp_enabled && r.send_email_notification)

abbrev pub is_true : Option Bool → Bool
is_true none = false
is_true (some b) = b

module _ {P : Prisma} (w : World) where
  -- `sendMail`: without a transport, which `getTransporter` refuses where SMTP is off, and where a mail
  -- cannot be sent, there is an error.
  abbrev pub send_mail : String → Effect → Handler (Db P) Unit
  send_mail address mail =
      if not w.config.smtp_enabled
      then raise (internal_server_error "SMTP is disabled")
      else if w.delivers_to address
      then start mail
      else raise (internal_server_error "Failed to send email")

  -- `sendMailToShareRecipients`
  unfoldable pub send_mail_to_share_recipients : String → String → Handler (Db P) Unit
  send_mail_to_share_recipients id email =
      if not w.config.enable_share_email_recipients
      then raise (internal_server_error "Email service disabled")
      else send_mail email (mail_share_recipient email id)

  unfoldable pub mail_recipients : String → List String → Handler (Db P) Unit
  mail_recipients id [] = pure tt
  mail_recipients id (email ∷ more) = do
    send_mail_to_share_recipients id email
    mail_recipients id more

  -- `sendMailToReverseShareCreator`, to the creator of the reverse share
  abbrev pub mail_to_user : String → Option User → Handler (Db P) Unit
  mail_to_user id none = raise type_error
  mail_to_user id (some u) = send_mail u.email (mail_reverse_share_creator u.email id)

  abbrev pub mail_creator : String → Option ReverseShare → Handler (Db P) Unit
  mail_creator id none db = (done tt, db)
  mail_creator id (some r) db =
      if is_true (notify w (some r))
      then mail_to_user id (P.find r.creator_id db.users) db
      else (done tt, db)

  -- `remainingUses: { decrement: 1 }`, on the reverse share of the request's cookie
  unfoldable pub use_reverse_share : Option String → Handler (Db P) Unit
  use_reverse_share none db = (throw (prisma_error "PrismaClientValidationError"), db)
  use_reverse_share (some token) db = elim (reverse_share_by_token token db) [
    | none ↦ (throw (prisma_error "P2025"), db)
    | some (rid, r) ↦ (
      done tt,
      put_reverse_share rid (record r { remaining_uses = decrement r.remaining_uses }) db,
    )
  ]

  abbrev pub count_use : Option ReverseShare → Option String → Handler (Db P) Unit
  count_use none token = pure tt
  count_use (some r) token = use_reverse_share token

  -- A zip is made of several files; it becomes ready later, by `zip_ready`.
  abbrev pub start_zip : String → ℕ → Handler (Db P) Unit
  start_zip id files = if ltb 1 files then start (create_zip id) else pure tt

  -- All that comes before the share is locked.
  unfoldable pub prepare :
      String → Option String → Share → Option ReverseShare → ℕ → Handler (Db P) Unit
  prepare id reverse_share_token share reverse files = do
    locked ← is_share_completed id
    throw_if locked (bad_request "Share already completed")
    throw_if (files == 0) (bad_request "You need at least on file in your share to complete it.")
    start_zip id files
    mail_recipients id share.recipients
    mail_creator id reverse
    start (scan id)
    count_use reverse reverse_share_token

  unfoldable pub lock_share : String → Share → Option ReverseShare → Handler (Db P) Completed
  lock_share id share reverse = do
    updated ← update_share id (λ s. record s { upload_locked = true })
    access ← owner_access w id share.creator_id
    pure (record {
      share = updated;
      notify_reverse_share_creator = notify w reverse;
      access = access;
    })

  unfoldable pub complete_share :
      String → Option String → Share → Option ReverseShare → ℕ → Handler (Db P) Completed
  complete_share id reverse_share_token share reverse files = do
    prepare id reverse_share_token share reverse files
    lock_share id share reverse

  unfoldable pub complete : String → Option String → Handler (Db P) Completed
  complete id reverse_share_token db = elim (P.find id db.shares) [
    | none ↦ (throw type_error, db)
    | some s ↦
        complete_share id reverse_share_token s (find_reverse_share s.reverse_share_id db)
          (length (files_of id db)) db
  ]

module _ {P : Prisma} where
  -- The end of `createZip`: `then(() => prisma.share.update(…))`
  unfoldable pub zip_ready : String → Handler (Db P) Share
  zip_ready id = update_share id (λ s. record s { is_zip_ready = true })

  unfoldable pub revert_complete : String → Handler (Db P) Share
  revert_complete id =
      update_share id (λ s. record s { upload_locked = false; is_zip_ready = false })

-- ===== src/Share/Complete/Success.antt =====
-- When the completion of a share succeeds.
use better_pingvin_share.Prelude.{
  ℕ, ◌<◌, String, true, false, Option, none, some, List, [], ◌∷◌, ◌≡◌, arith, refl, all, Bool, ◌&&◌,
  length, ◌==◌, ltb, Bool-cases, inl, inr,
}
use better_pingvin_share.Http.{done}
use better_pingvin_share.Prisma.{Prisma}
use better_pingvin_share.Schema.{Db, Share}
use better_pingvin_share.World.{World}
use better_pingvin_share.Store.{files_of, find_reverse_share}
use better_pingvin_share.Share.Create.{is_share_completed}
use better_pingvin_share.Share.Complete.{
  Completed, complete, complete_share, prepare, mail_recipients, send_mail_to_share_recipients,
}
use better_pingvin_share.Share.Complete.Locking.{lock_share_found, complete_found, prepare-Keeps}

-- Are mails to a recipient of a share enabled, is SMTP, and is the address one that mails reach?
abbrev pub reaches : World → String → Bool
reaches w email =
    w.config.enable_share_email_recipients && (w.config.smtp_enabled && w.delivers_to email)

module _ {P : Prisma} (w : World) where
  mail_recipients_done :
      (id : String) (emails : List String) (db : Db P)
      → all (reaches w) emails ≡ true
      → (mail_recipients w id emails db).0 ≡ done tt
  unfolding mail_recipients send_mail_to_share_recipients
  mail_recipients_done id [] db reached = refl
  mail_recipients_done id (email ∷ more) db reached =
      let enabled : w.config.enable_share_email_recipients ≡ true = ground arith in
      let smtp : w.config.smtp_enabled ≡ true = ground arith in
      let first : w.delivers_to email ≡ true = ground arith in
      rw (enabled, smtp, first) (mail_recipients_done id more _ (ground arith))

  prepare_done :
      (id : String) (token : Option String) (s : Share) (n : ℕ) (db : Db P)
      → P.find id db.shares ≡ some s
      → s.upload_locked ≡ false
      → 0 < n
      → all (reaches w) s.recipients ≡ true
      → (prepare w id token s none n db).0 ≡ done tt
  unfolding prepare is_share_completed
  prepare_done id token s n db found unlocked files reached =
      let some_file : (n == 0) ≡ false = ground arith in
      elim (Bool-cases (ltb 1 n)) [
        | inl several ↦
            rw (found, is_share_completed, unlocked, some_file, several)
              (rw (mail_recipients_done id s.recipients _ reached) refl)
        | inr one ↦
            rw (found, is_share_completed, unlocked, some_file, one)
              (rw (mail_recipients_done id s.recipients _ reached) refl)
      ]

  -- Completing a share succeeds where it is not locked, has a file and no reverse share, and each
  -- recipient of the share can be reached: mails to recipients and SMTP are enabled, and the transport
  -- delivers to the address. A share without recipients asks for no mails.
  pub complete_succeeds :
      (id : String) (token : Option String) (s : Share) (db : Db P)
      → P.find id db.shares ≡ some s
      → s.upload_locked ≡ false
      → 0 < length (files_of id db)
      → find_reverse_share s.reverse_share_id db ≡ none
      → all (reaches w) s.recipients ≡ true
      → (c : Completed) × ((complete w id token db).0 ≡ done c)
  unfolding complete_share
  complete_succeeds id token s db found unlocked files alone reached =
      let passed = prepare_done id token s _ db found unlocked files reached in
      let before = (prepare w id token s none (length (files_of id db)) db).1 in
      let kept = (prepare-Keeps w id token s none (length (files_of id db))).at db in
      let (c, locks) = lock_share_found w id s s none before (rw kept found) in
      (c, rw (complete_found w id token s db found, alone) (rw (passed, locks) refl))

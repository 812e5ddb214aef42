-- ===== src/Share/Complete/Locking.antt =====
-- When a share is locked against changes of its files.
use better_pingvin_share.Prelude.{
  ℕ, ◌<◌, String, true, false, Option, none, some, List, [], ◌∷◌, length, ◌==◌, ◌≡◌, ◌≢◌, ◌⊎◌, refl,
  arith, inl, inr, Bool-cases, ===-refl, eq_iff, truthy,
}
use better_pingvin_share.Http.{done, throw, HttpError, Outcome-cases}
use better_pingvin_share.Http.Keeps.{Keeps, keeps_rules}
use better_pingvin_share.Prisma.{Prisma}
use better_pingvin_share.Schema.{Db, Share, ReverseShare, Effect}
use better_pingvin_share.World.{World}
use better_pingvin_share.Store.{files_of, find_reverse_share, put_share, start}
use better_pingvin_share.Share.Create.{
  is_share_completed, owner_access, OwnerAccess, get_anonymous_owner_access,
}
use better_pingvin_share.Text.{◌⧺◌}
use better_pingvin_share.Share.Token.{share_owner_token, owner_token_found}
use better_pingvin_share.Share.Complete.{
  Completed, complete, complete_share, prepare, lock_share, mail_recipients,
  send_mail_to_share_recipients, notify, mail_creator, use_reverse_share, count_use, start_zip,
}

module _ {P : Prisma} where
  abbrev shares_of : Db P → P.Table Share
  shares_of db = db.shares

  start-Keeps : (e : Effect) → Keeps shares_of (start {P = P} e)
  start-Keeps e = record { at = λ db. refl }

  is_share_completed-Keeps : (id : String) → Keeps shares_of (is_share_completed {P = P} id)
  unfolding is_share_completed
  is_share_completed-Keeps id = record { at = λ db. ground arith }

module _ {P : Prisma} (w : World) where
  send_mail_to_share_recipients-Keeps :
      (id email : String) → Keeps shares_of (send_mail_to_share_recipients {P = P} w id email)
  unfolding send_mail_to_share_recipients
  send_mail_to_share_recipients-Keeps id email = search (keeps_rules, start-Keeps)

  mail_recipients-Keeps :
      (id : String) (emails : List String) → Keeps shares_of (mail_recipients {P = P} w id emails)
  unfolding mail_recipients
  mail_recipients-Keeps id [] = record { at = λ db. refl }
  mail_recipients-Keeps id (email ∷ more) =
      search
        (keeps_rules, send_mail_to_share_recipients-Keeps id email, mail_recipients-Keeps id more)

  mail_creator-Keeps :
      (id : String) (r : Option ReverseShare) → Keeps shares_of (mail_creator {P = P} w id r)
  mail_creator-Keeps id r = record { at = λ db. ground arith }

  count_use-Keeps :
      (r : Option ReverseShare) (token : Option String)
      → Keeps shares_of (count_use {P = P} w r token)
  unfolding use_reverse_share
  count_use-Keeps r token = record { at = λ db. ground arith }

  start_zip-Keeps : (id : String) (n : ℕ) → Keeps shares_of (start_zip {P = P} w id n)
  start_zip-Keeps id n = record { at = λ db. ground arith }

  pub prepare-Keeps :
      (id : String) (token : Option String) (s : Share) (r : Option ReverseShare) (n : ℕ)
      → Keeps shares_of (prepare {P = P} w id token s r n)
  unfolding prepare
  prepare-Keeps id token s r n =
      search
        (
          keeps_rules, start-Keeps, is_share_completed-Keeps, start_zip-Keeps,
          mail_recipients-Keeps, mail_creator-Keeps, count_use-Keeps,
        )
        depth 20

  prepare_checks :
      (id : String) (token : Option String) (s : Share) (r : Option ReverseShare) (n : ℕ)
      (db : Db P)
      → P.find id db.shares ≡ some s
      → (prepare w id token s r n db).0 ≡ done tt
      → (s.upload_locked ≡ false) × (0 < n)
  unfolding prepare is_share_completed
  prepare_checks id token s r n db found e = elim (Bool-cases s.upload_locked) [
    | inl locked ↦ absurd (ground arith)
    | inr unlocked ↦ elim (Bool-cases (n == 0)) [
      | inl empty ↦ absurd (ground arith)
      | inr files ↦ (unlocked, ground arith)
    ]
  ]

  owner_access_found :
      (id : String) (creator : Option String) (s : Share) (db : Db P)
      → P.find id db.shares ≡ some s
      → (a : Option OwnerAccess) × (owner_access w id creator db ≡ (done a, db))
  unfolding get_anonymous_owner_access
  owner_access_found id creator s db found = elim (Bool-cases (truthy creator)) [
    | inl created ↦ (none, rw created)
    | inr anonymous ↦ (
      some record {
        owner_token = share_owner_token w id s;
        owner_management_link =
            w.config.app_url
            ⧺ "/share/"
            ⧺ id
            ⧺ "/edit#ownerToken="
            ⧺ w.encode_uri_component (share_owner_token w id s);
      },
      rw anonymous (rw (owner_token_found w id s db found)),
    )
  ]

  lock_share_with :
      (id : String) (share s : Share) (r : Option ReverseShare) (a : Option OwnerAccess) (db : Db P)
      → P.find id db.shares ≡ some s
      → owner_access w id share.creator_id (put_share id (record s { upload_locked = true }) db)
        ≡ (done a, put_share id (record s { upload_locked = true }) db)
      → lock_share w id share r db ≡ (
        done (record {
          share = record s { upload_locked = true };
          notify_reverse_share_creator = notify w r;
          access = a;
        }),
        put_share id (record s { upload_locked = true }) db,
      )
  unfolding lock_share
  lock_share_with id share s r a db found given = ground arith

  pub lock_share_found :
      (id : String) (share s : Share) (r : Option ReverseShare) (db : Db P)
      → P.find id db.shares ≡ some s
      → (c : Completed) × (lock_share w id share r db
          ≡ (done c, put_share id (record s { upload_locked = true }) db))
  lock_share_found id share s r db found =
      let stored : P.find id (put_share id (record s { upload_locked = true }) db).shares
          ≡ some (record s { upload_locked = true }) =
        simp (P.find-write, ===-refl) in
      let (a, given) = owner_access_found id share.creator_id _ _ stored in
      (_, lock_share_with id share s r a db found given)

  -- What completing a share comes to: it fails and no share is changed, or it succeeds, and then the
  -- share was not locked, has a file, and is the one share that is changed: it is locked.
  pub record Locked (id : String) (s : Share) (files : ℕ) (a b : Db P) : Type 0 where
    pub was_unlocked : s.upload_locked ≡ false
    pub has_files : 0 < files
    pub locked : P.find id b.shares ≡ some (record s { upload_locked = true })
    pub others : (j : String) → id ≢ j → P.find j b.shares ≡ P.find j a.shares

  complete_share_outcome :
      (id : String) (token : Option String) (s : Share) (r : Option ReverseShare) (n : ℕ)
      (db : Db P)
      → P.find id db.shares ≡ some s
      → ((c : Completed) × ((complete_share w id token s r n db).0 ≡ done c)
          × Locked id s n db (complete_share w id token s r n db).1)
        ⊎ ((e : HttpError) × ((complete_share w id token s r n db).0 ≡ throw e)
            × ((complete_share w id token s r n db).1.shares ≡ db.shares))
  unfolding complete_share
  complete_share_outcome id token s r n db found =
      let before = (prepare w id token s r n db).1 in
      let kept = (prepare-Keeps id token s r n).at db in
      elim (Outcome-cases (prepare w id token s r n db).0) [
        | inl (e, failed) ↦ inr (e, rw failed, rw failed kept)
        | inr (u, passed) ↦
            let still : P.find id before.shares ≡ some s = rw kept found in
            let (c, locks) = lock_share_found id s s r before still in
            let (unlocked, files) = prepare_checks id token s r n db found passed in
            inl (
              c,
              rw (passed, locks),
              rw (passed, locks)
                  (record {
                    was_unlocked = unlocked;
                    has_files = files;
                    locked = simp (P.find-write, ===-refl);
                    others = λ j h. simp P.find-write (ground (arith, eq_iff id j, kept));
                  }),
            )
      ]

  pub complete_found :
      (id : String) (token : Option String) (s : Share) (db : Db P)
      → P.find id db.shares ≡ some s
      → complete w id token db
        ≡ complete_share w id token s
            (find_reverse_share s.reverse_share_id db)
            (length (files_of id db))
            db
  unfolding complete
  complete_found id token s db found = rw (found, complete)

  -- Completing a share that is there fails and changes no share, or succeeds, and then the share was
  -- not locked before, it has a file, and it is the only share that changes: it is locked.
  pub complete_outcome :
      (id : String) (token : Option String) (s : Share) (db : Db P)
      → P.find id db.shares ≡ some s
      → ((c : Completed) × ((complete w id token db).0 ≡ done c)
          × Locked id s (length (files_of id db)) db (complete w id token db).1)
        ⊎ ((e : HttpError) × ((complete w id token db).0 ≡ throw e)
            × ((complete w id token db).1.shares ≡ db.shares))
  complete_outcome id token s db found = rw (complete_found id token s db found) (
      complete_share_outcome id token s (find_reverse_share s.reverse_share_id db)
        (length (files_of id db)) db found)

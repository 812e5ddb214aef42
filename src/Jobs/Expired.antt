-- ===== src/Jobs/Expired.antt =====
-- What the jobs on shares delete, and what they keep.
use better_pingvin_share.Prelude.{
  ap, String, Bool, true, false, Option, none, some, List, [], ◌∷◌, ◌≡◌, inl, inr, refl, arith,
  Option-cases, Bool-cases, ◌===◌, if◌then◌else◌, includes, ◌∙◌,
}
use better_pingvin_share.Http.{
  Outcome, done, throw, HttpError, prisma_error, continue, Outcome-cases,
}
use better_pingvin_share.Prisma.{Prisma}
use better_pingvin_share.Prisma.Keyed.{keys, select, passes, includes-keys-select}
use better_pingvin_share.Schema.{Db, Share}
use better_pingvin_share.World.{World}
use better_pingvin_share.Store.{delete_share, drop_share}
use better_pingvin_share.FileStore.{delete_all_files, delete_local_files, delete_s3_files}
use better_pingvin_share.Share.Remove.{delete_with_files}
use better_pingvin_share.Jobs.{delete_shares}

module _ {P : Prisma} where
  pub delete_all_files-shares :
      (id : String) (provider : Option String) (db : Db P)
      → (delete_all_files id provider db).1.shares ≡ db.shares
  unfolding delete_all_files delete_local_files delete_s3_files
  delete_all_files-shares id provider db = ground arith

  -- What the removal of one share comes to: the row is gone, or an error and no row is changed.
  pub record Removes (id : String) (a : Db P) (r : Outcome (Unit {0})) (b : Db P) : Type 0 where
    pub when_done :
        r ≡ done tt
        → (j : String) → P.find j b.shares ≡ (if id === j then none else P.find j a.shares)
    pub when_thrown : (e : HttpError) → r ≡ throw e → b.shares ≡ a.shares

  delete_share_missing :
      (id : String) (db : Db P)
      → P.find id db.shares ≡ none
      → delete_share id db ≡ (throw (prisma_error "P2025"), db)
  delete_share_missing id db missing = rw (missing, delete_share)

  pub delete_share_found :
      (id : String) (s : Share) (db : Db P)
      → P.find id db.shares ≡ some s
      → delete_share id db ≡ (done tt, drop_share id db)
  delete_share_found id s db found = rw (found, delete_share)

  delete_share-Removes :
      (id : String) (a db : Db P)
      → db.shares ≡ a.shares
      → Removes id a (delete_share id db).0 (delete_share id db).1
  delete_share-Removes id a db same = elim (Option-cases (P.find id db.shares)) [
    | inl missing ↦
        rw (delete_share_missing id db missing)
          (record { when_done = λ e. absurd (ground arith); when_thrown = λ e t. same })
    | inr (s, found) ↦ rw (delete_share_found id s db found) (record {
      when_done = λ e j. rw (P.find-erase, same);
      when_thrown = λ e t. absurd (ground arith);
    })
  ]

  continue-Removes :
      (id : String) (a db : Db P) (r : Outcome (Unit {0}))
      → db.shares ≡ a.shares
      → Removes id a
          (continue r (λ _. delete_share id) db).0
          (continue r (λ _. delete_share id) db).1
  continue-Removes id a db (done u) same = delete_share-Removes id a db same
  continue-Removes id a db (throw e) same = record {
    when_done = λ t. absurd (ground arith);
    when_thrown = λ e' t. same;
  }

module _ {P : Prisma} (w : World) where
  delete_with_files-Removes :
      (id : String) (provider : Option String) (db : Db P)
      → Removes id db (delete_with_files w id provider db).0 (delete_with_files w id provider db).1
  unfolding delete_with_files
  delete_with_files-Removes id provider db =
      continue-Removes id db _ _ (delete_all_files-shares id provider db)

  -- What a loop of removals comes to: the other rows stay, and all are gone if there was no error.
  pub record RemovesAll (ids : List String) (a : Db P) (r : Outcome (Unit {0})) (b : Db P)
      : Type 0 where
    pub others : (j : String) → includes ids j ≡ false → P.find j b.shares ≡ P.find j a.shares
    pub gone : r ≡ done tt → (j : String) → includes ids j ≡ true → P.find j b.shares ≡ none

  gone_later :
      (more : List (String × Share)) (id j : String) (a : Db P)
      → (r : Outcome (Unit {0})) (b : Db P) → RemovesAll (keys more) a r b
      → ((id === j) ≡ true → P.find j a.shares ≡ none)
      → r ≡ done tt
      → includes (id ∷ keys more) j ≡ true
      → P.find j b.shares ≡ none
  gone_later more id j a r b rest first t h = elim (Bool-cases (includes (keys more) j)) [
    | inl e ↦ rest.gone t j e
    | inr e ↦ ground (arith, rest.others j e)
  ]

  pub delete_shares-RemovesAll :
      (l : List (String × Share)) (db : Db P)
      → RemovesAll (keys l) db (delete_shares w l db).0 (delete_shares w l db).1
  unfolding delete_shares
  delete_shares-RemovesAll [] db = record {
    others = λ j h. refl;
    gone = λ e j h. absurd (ground arith);
  }
  delete_shares-RemovesAll ((id, s) ∷ more) db =
      let first = delete_with_files w id (some s.storage_provider) db in
      let step = delete_with_files-Removes id (some s.storage_provider) db in
      elim (Outcome-cases first.0) [
        | inl (e, failed) ↦ rw failed (record {
          others = λ j h. ground (arith, step.when_thrown e failed);
          gone = λ t. absurd (ground arith);
        })
        | inr (u, passed) ↦
            let rest = delete_shares-RemovesAll more first.1 in
            rw passed (record {
              others = λ j h. ground (arith, rest.others j, step.when_done passed j);
              gone = λ t j h.
                  gone_later more id j first.1 _ _ rest
                    (λ same. ground (arith, step.when_done passed j)) t h;
            })
      ]

  -- Where the query of a job on shares passes a row, and what the job leaves of the row at `j`
  pub remaining :
      (late : Share → Bool) (j : String) (db : Db P)
      → includes (keys (select late (P.rows db.shares))) j ≡ passes late (P.find j db.shares)
  remaining late j db =
      includes-keys-select late j (P.rows db.shares) (P.rows-DistinctKeys db.shares)
      ∙ ap (passes late) (P.lookup-rows j db.shares)

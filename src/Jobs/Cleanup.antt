-- ===== src/Jobs/Cleanup.antt =====
-- The jobs on shares as a whole: which shares each of them deletes, whatever else it meets, and that
-- no share on the local disk stops them.
use better_pingvin_share.Prelude.{
  String, Bool, true, false, some, List, [], ◌∷◌, ◌≡◌, refl, sym, arith, Bool-cases, inl, inr,
  eq_iff, ◌===◌, if◌then◌else◌, includes, ◌∙◌,
}
use better_pingvin_share.Http.{done}
use better_pingvin_share.Prisma.{Prisma, unless}
use better_pingvin_share.Prisma.Keyed.{
  select-DistinctKeys, keys, select, passes, lookup, lookup_absent, DistinctKeys,
}
use better_pingvin_share.Schema.{Db, Share}
use better_pingvin_share.World.{World}
use better_pingvin_share.Store.{drop_share}
use better_pingvin_share.FileStore.{delete_all_files, delete_local_files}
use better_pingvin_share.Share.Remove.{delete_with_files}
use better_pingvin_share.Jobs.{
  delete_shares, delete_expired_shares, delete_unfinished_shares, is_overdue, is_unfinished,
}
use better_pingvin_share.Jobs.Expired.{delete_shares-RemovesAll, remaining, delete_share_found}

-- A share whose files are on the local disk
abbrev pub is_local : Share → Bool
is_local s = if s.storage_provider === "S3" then false else true

module _ {P : Prisma} where
  delete_local_lem :
      (id : String) (s : Share) (db : Db P)
      → P.find id db.shares ≡ some s
      → is_local s ≡ true
      → delete_all_files id (some s.storage_provider) db
        ≡ (done tt, record db { disk = P.erase id db.disk })
  unfolding delete_all_files delete_local_files
  delete_local_lem id s db found local = ground arith

  delete_with_files_local :
      (w : World) (id : String) (s : Share) (db : Db P)
      → P.find id db.shares ≡ some s
      → is_local s ≡ true
      → delete_with_files w id (some s.storage_provider) db
        ≡ (done tt, drop_share id (record db { disk = P.erase id db.disk }))
  unfolding delete_with_files
  delete_with_files_local w id s db found local =
      rw (delete_local_lem id s db found local)
        (delete_share_found id s (record db { disk = P.erase id db.disk }) found)

  -- The rows of a list are rows of the table, and of shares on the local disk.
  abbrev Present : List (String × Share) → Db P → Type 0
  Present [] db = Unit
  Present ((id, s) ∷ more) db =
      ((P.find id db.shares ≡ some s) × (is_local s ≡ true)) × Present more db

  drop_share-Present :
      (l : List (String × Share)) (id : String) (db : Db P)
      → includes (keys l) id ≡ false
      → Present l db
      → Present l (drop_share id (record db { disk = P.erase id db.disk }))
  drop_share-Present [] id db h p = tt
  drop_share-Present ((k, s) ∷ more) id db h ((found, local), p) = (
    (ground (arith, P.find-erase id k db.shares, eq_iff k id, eq_iff id k), local),
    drop_share-Present more id db (ground arith) p,
  )

  delete_shares-done :
      (w : World) (l : List (String × Share)) (db : Db P)
      → DistinctKeys l
      → Present l db
      → (delete_shares w l db).0 ≡ done tt
  unfolding delete_shares
  delete_shares-done w [] db d p = refl
  delete_shares-done w ((id, s) ∷ more) db (d, ds) ((found, local), p) =
      rw (delete_with_files_local w id s db found local)
        (delete_shares-done w more _ ds (drop_share-Present more id db d p))

  select-Present :
      (late : Share → Bool) (l : List (String × Share)) (db : Db P)
      → DistinctKeys l
      → ((j : String) (s : Share) → lookup j l ≡ some s → P.find j db.shares ≡ some s)
      → ((j : String) (s : Share) → P.find j db.shares ≡ some s → late s ≡ true → is_local s ≡ true)
      → Present (select late l) db
  select-Present late [] db d inside local = tt
  select-Present late ((id, s) ∷ more) db (d, ds) inside local =
      let here = inside id s (ground (arith, eq_iff id id)) in
      let later =
        select-Present late more db ds
          (λ j t h. inside j t (ground (arith, lookup_absent id more d, eq_iff id j))) local in
      elim (Bool-cases (late s)) [
        | inl e ↦ rw e ((here, local id s here e), later)
        | inr e ↦ rw e later
      ]

  -- A job on shares with the query `late`, where the files it meets are local
  delete_selected :
      (w : World) (late : Share → Bool) (db : Db P)
      → ((j : String) (s : Share) → P.find j db.shares ≡ some s → late s ≡ true → is_local s ≡ true)
      → (delete_shares w (select late (P.rows db.shares)) db).0 ≡ done tt
  delete_selected w late db local =
      delete_shares-done w (select late (P.rows db.shares)) db
        (select-DistinctKeys late _ (P.rows-DistinctKeys db.shares))
        (select-Present late (P.rows db.shares) db (P.rows-DistinctKeys db.shares)
          (λ j s h. sym (P.lookup-rows j db.shares) ∙ h) local)

  keep_others :
      (w : World) (late : Share → Bool) (db : Db P) (j : String)
      → passes late (P.find j db.shares) ≡ false
      → P.find j (delete_shares w (select late (P.rows db.shares)) db).1.shares ≡ P.find j db.shares
  keep_others w late db j h =
      (delete_shares-RemovesAll w (select late (P.rows db.shares)) db).others j
        (remaining w late j db ∙ h)

  delete_others :
      (w : World) (late : Share → Bool) (db : Db P) (j : String)
      → (delete_shares w (select late (P.rows db.shares)) db).0 ≡ done tt
      → P.find j (delete_shares w (select late (P.rows db.shares)) db).1.shares
        ≡ unless late (P.find j db.shares)
  delete_others w late db j passed =
      let all = delete_shares-RemovesAll w (select late (P.rows db.shares)) db in
      elim (Bool-cases (passes late (P.find j db.shares))) [
        | inl e ↦ ground (arith, all.gone passed j (remaining w late j db ∙ e))
        | inr e ↦ ground (arith, all.others j (remaining w late j db ∙ e))
      ]

module _ {P : Prisma} (w : World) (id : String) (db : Db P) where
  -- Where every share that is overdue has its files on the local disk, the job on expired shares
  -- ends without an error, and leaves of the share of any id what is not overdue, unchanged.
  pub delete_expired_shares_lem :
      ((j : String) (s : Share)
        → P.find j db.shares ≡ some s
        → is_overdue w s ≡ true
        → is_local s ≡ true)
      → ((delete_expired_shares w db).0 ≡ done tt)
        × (P.find id (delete_expired_shares w db).1.shares
            ≡ unless (is_overdue w) (P.find id db.shares))
  unfolding delete_expired_shares
  delete_expired_shares_lem local =
      let passed = delete_selected w (is_overdue w) db local in
      (passed, delete_others w (is_overdue w) db id passed)

  -- Whatever storage the shares have, and also when the job on expired shares ends with an error, it
  -- leaves each share that is not overdue as it was.
  pub delete_expired_shares_keeps :
      passes (is_overdue w) (P.find id db.shares) ≡ false
      → P.find id (delete_expired_shares w db).1.shares ≡ P.find id db.shares
  unfolding delete_expired_shares
  delete_expired_shares_keeps h = keep_others w (is_overdue w) db id h

  -- Where every share older than a day and never completed has its files on the local disk, the job
  -- on unfinished shares ends without an error, and leaves of the share of any id what is not such,
  -- unchanged.
  pub delete_unfinished_shares_lem :
      ((j : String) (s : Share)
        → P.find j db.shares ≡ some s
        → is_unfinished w s ≡ true
        → is_local s ≡ true)
      → ((delete_unfinished_shares w db).0 ≡ done tt)
        × (P.find id (delete_unfinished_shares w db).1.shares
            ≡ unless (is_unfinished w) (P.find id db.shares))
  unfolding delete_unfinished_shares
  delete_unfinished_shares_lem local =
      let passed = delete_selected w (is_unfinished w) db local in
      (passed, delete_others w (is_unfinished w) db id passed)

-- ===== src/Users/Admins.antt =====
-- An administrator is left when a user is removed.
use better_pingvin_share.Prelude.{
  String, true, false, ◌&&◌, Option, none, some, List, [], ◌∷◌, ◌≡◌, ◌==◌, inl, inr, refl, sym, ◌∙◌,
  arith, ap, Bool-cases, Option-cases, eq_iff, ◌===◌, length,
}
use better_pingvin_share.Http.{Outcome-cases}
use better_pingvin_share.Prisma.{Prisma}
use better_pingvin_share.Prisma.Keyed.{
  select, passes, includes-keys-select, lookup-select, select-DistinctKeys, select-passes, another,
}
use better_pingvin_share.Schema.{Db, User, Share}
use better_pingvin_share.FileStore.{delete_all_files, delete_local_files, delete_s3_files}
use better_pingvin_share.Users.{
  delete, delete_user, delete_user_row, delete_files_of, admins, created_by,
}

module _ {P : Prisma} where
  delete_all_files-users :
      (id : String) (provider : Option String) (db : Db P)
      → (delete_all_files id provider db).1.users ≡ db.users
  unfolding delete_all_files delete_local_files delete_s3_files
  delete_all_files-users id provider db = ground arith

  pub delete_files_of-users :
      (l : List (String × Share)) (db : Db P) → (delete_files_of l db).1.users ≡ db.users
  unfolding delete_files_of
  delete_files_of-users [] db = refl
  delete_files_of-users ((id, s) ∷ more) db =
      delete_files_of-users more (delete_all_files id none db).1 ∙ delete_all_files-users id none db

  -- Another administrator's row, where the removed user is not the only one
  other_admin :
      (id : String) (db : Db P) (u : User)
      → P.find id db.users ≡ some u
      → u.is_admin ≡ true
      → (length (admins (P.rows db.users)) == 1) ≡ false
      → (k : String) × (v : User) × ((id === k) ≡ false)
        × (P.find k db.users ≡ some v)
        × (v.is_admin ≡ true)
  other_admin id db u found admin several =
      let d = P.rows-DistinctKeys db.users in
      let (k, v, other, there) =
        another id (admins (P.rows db.users))
          (select-DistinctKeys (λ (x : User). x.is_admin) (P.rows db.users) d)
          (includes-keys-select (λ (x : User). x.is_admin) id (P.rows db.users) d
            ∙ ap (passes (λ (x : User). x.is_admin)) (P.lookup-rows id db.users ∙ found)
            ∙ admin)
          several in
      (
        k,
        v,
        other,
        sym (P.lookup-rows k db.users)
            ∙ lookup-select (λ (x : User). x.is_admin) k (P.rows db.users) v d there,
        select-passes (λ (x : User). x.is_admin) k (P.rows db.users) v there,
      )

  -- The row of anybody else stays.
  delete_user_row-others :
      (id k : String) (db : Db P)
      → (id === k) ≡ false
      → P.find k (delete_user_row id db).1.users ≡ P.find k db.users
  delete_user_row-others id k db other = elim (Option-cases (P.find id db.users)) [
    | inl missing ↦ rw (missing, delete_user_row) refl
    | inr (u, found) ↦ rw (found, delete_user_row) (ground (arith, P.find-erase id k db.users))
  ]

  delete_user-others :
      (id k : String) (u : User) (db : Db P)
      → (id === k) ≡ false
      → P.find k (delete_user id u db).1.users ≡ P.find k db.users
  delete_user-others id k u db other =
      let files = delete_files_of (select (created_by id) (P.rows db.shares)) in
      let kept = delete_files_of-users (select (created_by id) (P.rows db.shares)) db in
      elim (Bool-cases (u.is_admin && length (admins (P.rows db.users)) == 1)) [
        | inl last ↦ rw last refl
        | inr more ↦ rw more (elim (Outcome-cases (files db).0) [
          | inl (e, failed) ↦ rw (failed, kept) refl
          | inr (v, passed) ↦
              rw passed (rw (delete_user_row-others id k (files db).1 other, kept) refl)
        ])
      ]

  delete_found :
      (id : String) (u : User) (db : Db P)
      → P.find id db.users ≡ some u
      → delete id db ≡ delete_user id u db
  unfolding delete
  delete_found id u db found = rw (found, delete) refl

  -- An administrator that is left: the other one, or the one that was there
  left_admin :
      (id j : String) (db : Db P) (u a : User)
      → P.find id db.users ≡ some u
      → P.find j db.users ≡ some a
      → a.is_admin ≡ true
      → (u.is_admin && length (admins (P.rows db.users)) == 1) ≡ false
      → (k : String) × (v : User) × ((id === k) ≡ false)
        × (P.find k db.users ≡ some v)
        × (v.is_admin ≡ true)
  left_admin id j db u a found there admin several = elim (Bool-cases u.is_admin) [
    | inl mighty ↦ other_admin id db u found mighty (ground arith)
    | inr plain ↦ (j, a, ground (arith, eq_iff id j), there, admin)
  ]

  -- While there is an administrator, the removal of a user leaves one, whoever is removed and whether
  -- or not the removal succeeds.
  pub delete_keeps_admin :
      (id j : String) (db : Db P) (a : User)
      → P.find j db.users ≡ some a
      → a.is_admin ≡ true
      → (k : String) × (v : User) × (P.find k (delete id db).1.users ≡ some v) × (v.is_admin ≡ true)
  unfolding delete
  delete_keeps_admin id j db a there admin = elim (Option-cases (P.find id db.users)) [
    | inl missing ↦ rw (missing, delete) (j, a, there, admin)
    | inr (u, found) ↦
        rw (delete_found id u db found)
          (elim (Bool-cases (u.is_admin && length (admins (P.rows db.users)) == 1)) [
            | inl last ↦ rw last (j, a, there, admin)
            | inr several ↦
                let (k, v, other, stays, is_admin) =
                  left_admin id j db u a found there admin several in
                (k, v, delete_user-others id k u db other ∙ stays, is_admin)
          ])
  ]

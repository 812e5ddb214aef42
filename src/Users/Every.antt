-- ===== src/Users/Every.antt =====
-- What holds of the row of every user, and the writes that keep it.
use better_pingvin_share.Prelude.{
  String, some, ◌≡◌, inl, inr, arith, Bool-cases, Option-cases, ◌===◌,
}
use better_pingvin_share.Http.{Handler}
use better_pingvin_share.Http.Keeps.{Keeps}
use better_pingvin_share.Http.Stays.{Stays}
use better_pingvin_share.Prisma.{Prisma}
use better_pingvin_share.Schema.{Db, User}
use better_pingvin_share.World.{World}
use better_pingvin_share.Users.Rows.{put_user, conflict, create_user, update_user}

module _ {P : Prisma} where
  abbrev pub users_of : Db P → P.Table User
  users_of db = db.users

  abbrev pub EveryUser : (User → Type 0) → Db P → Type 0
  EveryUser Q db = (j : String) (u : User) → P.find j db.users ≡ some u → Q u

  pub Keeps-EveryUser :
      {A : Type 0} (Q : User → Type 0) (m : Handler (Db P) A)
      → Keeps users_of m
      → Stays (EveryUser Q) m
  Keeps-EveryUser Q m k = record { at = λ db every j u found. every j u (rw (← k.at db) found) }

  pub put_user-EveryUser :
      (Q : User → Type 0) (id : String) (u : User) (db : Db P)
      → EveryUser Q db
      → Q u
      → EveryUser Q (put_user id u db)
  put_user-EveryUser Q id u db every q j v found = elim (Bool-cases (id === j)) [
    | inl same ↦ let e : u ≡ v = ground (arith, P.find-write id j u db.users) in rw (← e) q
    | inr other ↦ every j v (ground (arith, P.find-write id j u db.users))
  ]

  pub create_user-Stays :
      (Q : User → Type 0) (w : World) (id : String) (u : User)
      → Q u
      → Stays (EveryUser Q) (create_user {P = P} w id u)
  unfolding create_user
  create_user-Stays Q w id u q = record {
    at = λ db every. elim (Option-cases (conflict w id u db)) [
      | inl free ↦ rw (free, create_user) (put_user-EveryUser Q id u db every q)
      | inr (column, taken) ↦ rw (taken, create_user) every
    ];
  }

  -- An update by a function that keeps what holds of the row
  pub update_user_at :
      (Q : User → Type 0) (w : World) (id : String) (f : User → User) (db : Db P)
      → EveryUser Q db
      → ((u : User) → P.find id db.users ≡ some u → Q u → Q (f u))
      → EveryUser Q (update_user w id f db).1
  unfolding update_user
  update_user_at Q w id f db every keep = elim (Option-cases (P.find id db.users)) [
    | inl missing ↦ rw (missing, update_user) every
    | inr (u, found) ↦ elim (Option-cases (conflict w id (f u) db)) [
      | inl free ↦
          rw (found, update_user)
            (rw free (put_user-EveryUser Q id (f u) db every (keep u found (every id u found))))
      | inr (column, taken) ↦ rw (found, update_user) (rw taken every)
    ]
  ]

  pub update_user-Stays :
      (Q : User → Type 0) (w : World) (id : String) (f : User → User)
      → ((u : User) → Q u → Q (f u))
      → Stays (EveryUser Q) (update_user {P = P} w id f)
  update_user-Stays Q w id f keep = record {
    at = λ db every. update_user_at Q w id f db every λ u found. keep u;
  }

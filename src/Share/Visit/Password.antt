-- ===== src/Share/Visit/Password.antt =====
-- Who is given the token of a share.
use better_pingvin_share.Prelude.{
  ℕ, ◌+◌, ◌<◌, String, true, false, Option, none, some, ◌≡◌, ◌⊎◌, ◌↔◌, inl, inr, refl, arith,
  Bool-cases, Option-cases, truthy, ◌===◌,
}
use better_pingvin_share.Http.{done, Outcome-cases}
use better_pingvin_share.Prisma.{Prisma}
use better_pingvin_share.Schema.{Db, Share}
use better_pingvin_share.World.{World}
use better_pingvin_share.Store.{put_share}
use better_pingvin_share.Share.Request.{Request}
use better_pingvin_share.Share.IpAccess.{assert_share_ip_access}
use better_pingvin_share.Share.IpAccess.Laws.{
  OnlyAddresses-found, assert_share_ip_access-OnlyAddresses,
}
use better_pingvin_share.Share.Token.{generate_share_token, share_token}
use better_pingvin_share.Share.Guard.{
  views_exceeded, max_views_of, password_of, increase_view_count,
}
use better_pingvin_share.Share.Visit.{get_share_token, after_password, give_token, password_outcome}

-- The share has no password, or its stored hash verifies the one that is given.
abbrev pub ShowsPassword : World → Share → Option String → Type 0
ShowsPassword w s given =
    (truthy (password_of s.security) ≡ false)
    ⊎ ((hash : String) × (p : String) × (password_of s.security ≡ some hash)
        × (given ≡ some p)
        × ((p === "") ≡ false)
        × (w.argon.verify hash p ≡ true))

-- The views have no limit, or fewer were counted than it allows; 0 is no limit.
abbrev pub HasRoom : Share → Type 0
HasRoom s =
    (max_views_of s.security ≡ none)
    ⊎ ((most : ℕ) × (max_views_of s.security ≡ some most) × ((most ≡ 0) ⊎ (s.views < most)))

HasRoom-left : (s : Share) → HasRoom s → views_exceeded s ≡ false
unfolding views_exceeded
HasRoom-left s (inl unlimited) = rw unlimited refl
HasRoom-left s (inr (most, limited, left)) = rw limited (ground arith)

left-HasRoom : (s : Share) → views_exceeded s ≡ false → HasRoom s
unfolding views_exceeded
left-HasRoom s left = elim (Option-cases (max_views_of s.security)) [
  | inl unlimited ↦ inl unlimited
  | inr (most, limited) ↦ let fewer = rw limited at left in inr (most, limited, ground arith)
]

right_outcome :
    (w : World) (s : Share) (given : Option String)
    → ShowsPassword w s given
    → password_outcome w (password_of s.security) given ≡ done tt
right_outcome w s given (inl free) = elim (Option-cases (password_of s.security)) [
  | inl none_there ↦ rw none_there refl
  | inr (hash, there) ↦ let empty = rw there at free in rw there (ground arith)
]
right_outcome w s given (inr (hash, p, there, is, real, verified)) = rw (there, is) (ground arith)

outcome_right :
    (w : World) (s : Share) (given : Option String)
    → password_outcome w (password_of s.security) given ≡ done tt
    → ShowsPassword w s given
outcome_right w s given e = elim (Option-cases (password_of s.security)) [
  | inl none_there ↦ inl (rw none_there refl)
  | inr (hash, there) ↦ elim (Bool-cases (hash === "")) [
    | inl empty ↦ inl (rw there (ground arith))
    | inr full ↦ elim (Option-cases given) [
      | inl missing ↦ let never = rw (there, missing, full) at e in absurd (cc)
      | inr (p, is) ↦
          let passed = rw (there, is, full) at e in
          inr (hash, p, there, is, ground arith, ground arith)
    ]
  ]
]

module _ {P : Prisma} (w : World) (request : Request) (id : String) where
  token_found :
      (t : Share) (db : Db P)
      → P.find id db.shares ≡ some t
      → generate_share_token w id db ≡ (done (share_token w id t), db)
  unfolding generate_share_token
  token_found t db found = rw found refl

  view_found :
      (s t : Share) (db : Db P)
      → P.find id db.shares ≡ some t
      → increase_view_count id s db ≡ (
        done (record t { views = s.views + 1 }),
        put_share id (record t { views = s.views + 1 }) db,
      )
  unfolding increase_view_count
  view_found s t db found = ground arith

  give_token_done :
      (s : Share) (db : Db P)
      → P.find id db.shares ≡ some s
      → views_exceeded s ≡ false
      → (assert_share_ip_access w id s.security request true db).0 ≡ done tt
      → (token : String) × ((give_token w request id s db).0 ≡ done token)
  unfolding give_token
  give_token_done s db found room checked =
      let after = (assert_share_ip_access w id s.security request true db).1 in
      let (t, kept, same) =
        OnlyAddresses-found id db after s
          (assert_share_ip_access-OnlyAddresses w id s.security request true db) found in
      (
        share_token w id t,
        rw (room, checked, token_found t after kept, view_found s t after kept) refl,
      )

  give_token_checks :
      (s : Share) (db : Db P) (token : String)
      → (give_token w request id s db).0 ≡ done token
      → (views_exceeded s ≡ false)
        × ((assert_share_ip_access w id s.security request true db).0 ≡ done tt)
  unfolding give_token
  give_token_checks s db token e = elim (Bool-cases (views_exceeded s)) [
    | inl full ↦ absurd (ground arith)
    | inr room ↦ elim (Outcome-cases (assert_share_ip_access w id s.security request true db).0) [
      | inl (error, refused) ↦ absurd (ground arith)
      | inr (u, checked) ↦ (room, checked)
    ]
  ]

  get_token_found :
      (s : Share) (password : Option String) (db : Db P)
      → P.find id db.shares ≡ some s
      → get_share_token w request id password db
        ≡ after_password w request id s (password_outcome w (password_of s.security) password) db
  unfolding get_share_token
  get_token_found s password db found = rw (found, get_share_token) refl

  -- A visitor of a share that is there is given a token exactly when the password is right, where the
  -- share has one, that is when the share's hash verifies a password that is given and not empty, views
  -- of the share are left, if they are limited, and the address rules are met.
  pub get_share_token_iff :
      (s : Share) (password : Option String) (db : Db P)
      → P.find id db.shares ≡ some s
      → ((token : String) × ((get_share_token w request id password db).0 ≡ done token)) ↔ (
          ShowsPassword w s password
          × HasRoom s
          × ((assert_share_ip_access w id s.security request true db).0 ≡ done tt))
  get_share_token_iff s password db found =
      rw (get_token_found s password db found)
        (elim (Outcome-cases (password_outcome w (password_of s.security) password)) [
          | inl (error, wrong) ↦ rw wrong (
            λ (token, e). absurd (ground (arith, e)),
            λ (knows, room, checked).
                absurd (ground (arith, right_outcome w s password knows, wrong)),
          )
          | inr (u, right) ↦ rw right (
            λ (token, e).
                let (room, checked) = give_token_checks s db token e in
                (outcome_right w s password right, left-HasRoom s room, checked),
            λ (knows, room, checked). give_token_done s db found (HasRoom-left s room) checked,
          )
        ])

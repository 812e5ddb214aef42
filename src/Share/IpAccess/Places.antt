-- ===== src/Share/IpAccess/Places.antt =====
-- What the address rules let through.
use better_pingvin_share.Prelude.{
  ℕ, ◌<◌, String, Bool, true, false, some, List, [], ◌∷◌, ◌++◌, length, ◌≡◌, ◌↔◌, inl, inr, refl,
  arith, eq_iff, ◌===◌, ===-refl, Option-cases, Bool-cases, includes, truthy_number, ltb, leb,
}
use better_pingvin_share.Http.{done}
use better_pingvin_share.Prisma.{Prisma}
use better_pingvin_share.Schema.{Db, Share, ShareSecurity}
use better_pingvin_share.World.{World}
use better_pingvin_share.Ip.Address.{get_request_ip_address}
use better_pingvin_share.Share.Request.{Request}
use better_pingvin_share.Share.IpAccess.{
  assign_share_ip_address, claim, check_ip, assert_share_ip_access, with_address, is_empty,
}

-- The address that a request shows is not blank, and stands in the list.
abbrev pub Shows : World → Request → List String → Type 0
Shows w request l =
    (ip : String) × (get_request_ip_address w.is_ip request.forwarded_for request.ip ≡ some ip)
    × ((ip === "") ≡ false)
    × (includes l ip ≡ true)

includes_last : (l : List String) (a : String) → includes (l ++ a ∷ []) a ≡ true
includes_last [] a = ground (arith, eq_iff a a)
includes_last (x ∷ l) a = ground (arith, includes_last l a)

module _ {P : Prisma} where
  -- A share with a list of allowed addresses lets a request through exactly when the request shows
  -- an address of the list.
  pub allowed_list_iff :
      (w : World) (id : String) (sec : ShareSecurity) (request : Request) (assign : Bool)
      (db : Db P)
      → is_empty sec.allowed_ips ≡ false
      → ((assert_share_ip_access w id (some sec) request assign db).0 ≡ done tt)
        ↔ Shows w request sec.allowed_ips
  unfolding assert_share_ip_access
  allowed_list_iff w id sec request assign db listed =
      elim (Option-cases (get_request_ip_address w.is_ip request.forwarded_for request.ip)) [
        | inl unknown ↦ rw (unknown, listed) (ground arith)
        | inr (ip, known) ↦
            rw (known, listed)
              (λ e. (ip, refl, ground arith, ground arith), λ shows. ground (arith, shows.1))
      ]

  -- The stored row of a share, which now holds an address.
  abbrev pub Holds : String → Db P → String → Type 0
  Holds id db ip =
      (s : Share) × (sec : ShareSecurity) × (P.find id db.shares ≡ some s)
      × (s.security ≡ some sec)
      × (includes sec.assigned_ips ip ≡ true)

  claim-Holds :
      (id ip : String) (limit : ℕ) (s : Share) (sec : ShareSecurity) (db : Db P)
      → P.find id db.shares ≡ some s
      → s.security ≡ some sec
      → (claim id ip limit s (some sec) db).0 ≡ done true
      → Holds id (claim id ip limit s (some sec) db).1 ip
  claim-Holds id ip limit s sec db found has e = elim (Bool-cases (includes sec.assigned_ips ip)) [
    | inl there ↦ rw there (s, sec, found, has, there)
    | inr fresh ↦ elim (Bool-cases (leb limit (length sec.assigned_ips))) [
      | inl full ↦ absurd (ground arith)
      | inr room ↦
          rw (fresh, room)
            (
              record s { security = some (with_address ip sec) },
              with_address ip sec,
              simp (P.find-write, ===-refl),
              refl,
              includes_last sec.assigned_ips ip,
            )
    ]
  ]

  assign-Holds :
      (id ip : String) (s : Share) (sec : ShareSecurity) (limit : ℕ) (db : Db P)
      → P.find id db.shares ≡ some s
      → s.security ≡ some sec
      → 0 < limit
      → (assign_share_ip_address id ip (some limit) db).0 ≡ done true
      → Holds id (assign_share_ip_address id ip (some limit) db).1 ip
  unfolding assign_share_ip_address
  assign-Holds id ip s sec limit db found has pos e = elim (Bool-cases (ltb 0 limit)) [
    | inr no_limit ↦ absurd (ground arith)
    | inl limited ↦
        rw (limited, found, has)
          (claim-Holds id ip limit s sec db found has (rw (limited, found, has) at e))
  ]

  check-Holds :
      (id ip : String) (s : Share) (sec : ShareSecurity) (limit : ℕ) (db : Db P)
      → P.find id db.shares ≡ some s
      → s.security ≡ some sec
      → is_empty sec.allowed_ips ≡ true
      → sec.max_ips ≡ some limit
      → 0 < limit
      → (check_ip id sec ip true db).0 ≡ done tt
      → Holds id (check_ip id sec ip true db).1 ip
  unfolding check_ip
  check-Holds id ip s sec limit db found has open_list e pos granted =
      elim (Bool-cases (includes sec.assigned_ips ip)) [
        | inl there ↦ rw (open_list, there) (s, sec, found, has, there)
        | inr fresh ↦
            let ran : (assign_share_ip_address id ip (some limit) db).0 ≡ done true =
              ground arith in
            let held = assign-Holds id ip s sec limit db found has pos ran in
            rw (open_list, fresh, e, ran) held
      ]

  -- Where a share has no list but a limit on the number of addresses, a request that the check with
  -- assignment lets through shows an address, and that address holds one of the share's places
  -- afterwards.
  pub limited_share-Holds :
      (w : World) (id : String) (s : Share) (sec : ShareSecurity) (limit : ℕ) (request : Request)
      (db : Db P)
      → P.find id db.shares ≡ some s
      → s.security ≡ some sec
      → is_empty sec.allowed_ips ≡ true
      → sec.max_ips ≡ some limit
      → 0 < limit
      → (assert_share_ip_access w id (some sec) request true db).0 ≡ done tt
      → (ip : String) × (get_request_ip_address w.is_ip request.forwarded_for request.ip ≡ some ip)
        × Holds id (assert_share_ip_access w id (some sec) request true db).1 ip
  unfolding assert_share_ip_access
  limited_share-Holds w id s sec limit request db found has open_list e pos granted =
      elim (Option-cases (get_request_ip_address w.is_ip request.forwarded_for request.ip)) [
        | inl unknown ↦ absurd (ground arith)
        | inr (ip, known) ↦ elim (Bool-cases (ip === "")) [
          | inl blank ↦ absurd (ground arith)
          | inr real ↦
              let limited : truthy_number sec.max_ips ≡ true = ground arith in
              let checked : (check_ip id sec ip true db).0 ≡ done tt =
                rw (open_list, limited, known, real) at granted in
              (
                ip,
                known,
                rw (open_list, limited, known, real)
                    (check-Holds id ip s sec limit db found has open_list e pos checked),
              )
        ]
      ]

-- ===== src/Share/IpAccess/Laws.antt =====
-- What the address rules of a share change, and what they let through.
use better_pingvin_share.Prelude.{
  ℕ, String, Bool, not, ◌&&◌, Option, none, some, [], length, ◌≡◌, ◌⊎◌, ◌≢◌, inl, inr, refl, arith,
  eq_iff, ◌===◌, ===-refl, Option-cases, Bool-cases, includes, truthy_number, ltb, leb,
}
use mathlib.Core.Option
use better_pingvin_share.Prisma.{Prisma}
use better_pingvin_share.Schema.{Db, Share, ShareSecurity}
use better_pingvin_share.World.{World}
use better_pingvin_share.Store.{put_share}
use better_pingvin_share.Ip.Address.{get_request_ip_address}
use better_pingvin_share.Share.Request.{Request}
use better_pingvin_share.Share.IpAccess.{
  assign_share_ip_address, claim, check_ip, assert_share_ip_access, with_address, is_empty,
}

abbrev pub no_addresses : ShareSecurity → ShareSecurity
no_addresses sec = record sec { assigned_ips = [] }

-- A share without its assigned addresses: what the address rules leave alone.
abbrev pub without_addresses : Share → Share
without_addresses s = record s { security = Option.map no_addresses s.security }

module _ {P : Prisma} where
  -- Two states that differ in the assigned addresses of one share at most.
  pub record OnlyAddresses (id : String) (a b : Db P) : Type 0 where
    pub own :
        Option.map without_addresses (P.find id b.shares)
        ≡ Option.map without_addresses (P.find id a.shares)
    pub others : (j : String) → id ≢ j → P.find j b.shares ≡ P.find j a.shares

  pub OnlyAddresses-refl : (id : String) (a : Db P) → OnlyAddresses id a a
  OnlyAddresses-refl id a = record { own = refl; others = λ j h. refl }

  put-OnlyAddresses :
      (id ip : String) (db : Db P) (s : Share) (sec : ShareSecurity)
      → P.find id db.shares ≡ some s
      → s.security ≡ some sec
      → OnlyAddresses id db (put_share id (record s { security = some (with_address ip sec) }) db)
  put-OnlyAddresses id ip db s sec found has = record {
    own = simp (P.find-write, ===-refl) (ground (arith, found, has));
    others = λ j h. simp P.find-write (ground (arith, eq_iff id j));
  }

  claim-OnlyAddresses :
      (id ip : String) (limit : ℕ) (s : Share) (sec : Option ShareSecurity) (db : Db P)
      → P.find id db.shares ≡ some s
      → s.security ≡ sec
      → OnlyAddresses id db (claim id ip limit s sec db).1
  claim-OnlyAddresses id ip limit s none db found has = OnlyAddresses-refl id db
  claim-OnlyAddresses id ip limit s (some sec) db found has =
      elim (Bool-cases (includes sec.assigned_ips ip)) [
        | inl there ↦ rw there (OnlyAddresses-refl id db)
        | inr fresh ↦ rw fresh (elim (Bool-cases (leb limit (length sec.assigned_ips))) [
          | inl full ↦ rw full (OnlyAddresses-refl id db)
          | inr room ↦ rw room (put-OnlyAddresses id ip db s sec found has)
        ])
      ]

  assign-OnlyAddresses :
      (id ip : String) (limit : Option ℕ) (db : Db P)
      → OnlyAddresses id db (assign_share_ip_address id ip limit db).1
  unfolding assign_share_ip_address
  assign-OnlyAddresses id ip none db = OnlyAddresses-refl id db
  assign-OnlyAddresses id ip (some limit) db = elim (Bool-cases (ltb 0 limit)) [
    | inr no_limit ↦ rw no_limit (OnlyAddresses-refl id db)
    | inl limited ↦ rw limited (elim (Option-cases (P.find id db.shares)) [
      | inl missing ↦ rw missing (OnlyAddresses-refl id db)
      | inr (s, found) ↦ rw found (claim-OnlyAddresses id ip limit s s.security db found refl)
    ])
  ]

  -- A check leaves the state alone, or runs the assignment of the request's address.
  check_cases :
      (id ip : String) (sec : ShareSecurity) (assign : Bool) (db : Db P)
      → ((check_ip id sec ip assign db).1 ≡ db)
        ⊎ ((check_ip id sec ip assign db).1 ≡ (assign_share_ip_address id ip sec.max_ips db).1)
  unfolding check_ip
  check_cases id ip sec assign db = ground arith

  pub assert_cases :
      (w : World) (id : String) (sec : ShareSecurity) (request : Request) (assign : Bool)
      (db : Db P)
      → ((assert_share_ip_access w id (some sec) request assign db).1 ≡ db)
        ⊎ ((ip : String) × ((assert_share_ip_access w id (some sec) request assign db).1
              ≡ (assign_share_ip_address id ip sec.max_ips db).1))
  unfolding assert_share_ip_access
  assert_cases w id sec request assign db =
      elim (Bool-cases (is_empty sec.allowed_ips && not (truthy_number sec.max_ips))) [
        | inl free ↦ rw free (inl refl)
        | inr ruled ↦
            rw ruled
              (elim (Option-cases
                (get_request_ip_address w.is_ip request.forwarded_for request.ip)) [
                  | inl unknown ↦ rw unknown (inl refl)
                  | inr (ip, known) ↦ rw known (elim (Bool-cases (ip === "")) [
                    | inl blank ↦ rw blank (inl refl)
                    | inr real ↦ rw real (elim (check_cases id ip sec assign db) [
                      | inl same ↦ inl same
                      | inr ran ↦ inr (ip, ran)
                    ])
                  ])
                ])
      ]

  -- Whatever its outcome, the check of a request's address changes nothing of the shares but the
  -- assigned addresses of the share that is asked for.
  pub assert_share_ip_access-OnlyAddresses :
      (w : World) (id : String) (sec : Option ShareSecurity) (request : Request) (assign : Bool)
      (db : Db P)
      → OnlyAddresses id db (assert_share_ip_access w id sec request assign db).1
  assert_share_ip_access-OnlyAddresses w id none request assign db =
      unfold assert_share_ip_access in OnlyAddresses-refl id db
  assert_share_ip_access-OnlyAddresses w id (some sec) request assign db =
      elim (assert_cases w id sec request assign db) [
        | inl same ↦ rw same (OnlyAddresses-refl id db)
        | inr (ip, ran) ↦ rw ran (assign-OnlyAddresses id ip sec.max_ips db)
      ]

  -- The row of a share, found again after its addresses have changed.
  pub OnlyAddresses-found :
      (id : String) (a b : Db P) (s : Share)
      → OnlyAddresses id a b
      → P.find id a.shares ≡ some s
      → (t : Share) × (P.find id b.shares ≡ some t) × (without_addresses t ≡ without_addresses s)
  OnlyAddresses-found id a b s only found = elim (Option-cases (P.find id b.shares)) [
    | inl lost ↦ absurd (ground (arith, only.own))
    | inr (t, kept) ↦ (t, kept, ground (arith, only.own))
  ]

-- ===== src/Share/IpAccess/Bounds.antt =====
-- The number of addresses that hold a place of a share stays within the share's limit.
use better_pingvin_share.Prelude.{
  ℕ, String, Bool, false, ◌&&◌, Option, none, some, [], ◌∷◌, length, length-append, ◌≡◌, inl, inr,
  refl, arith, ===-refl, Option-cases, Bool-cases, includes, ltb, leb,
}
use better_pingvin_share.Prisma.{Prisma}
use better_pingvin_share.Schema.{Db, Share, ShareSecurity}
use better_pingvin_share.World.{World}
use better_pingvin_share.Share.IpAccess.Laws.{assert_cases}
use better_pingvin_share.Share.Request.{Request}
use better_pingvin_share.Share.IpAccess.{
  assign_share_ip_address, claim, assert_share_ip_access, with_address,
}

-- A limit of zero is none.
abbrev pub exceeds_ips : ShareSecurity → Bool
exceeds_ips sec = elim sec.max_ips [
  | none ↦ false
  | some limit ↦ ltb 0 limit && ltb limit (length sec.assigned_ips)
]

-- The bound that a security row sets on its assigned addresses.
abbrev pub WithinIps : Option ShareSecurity → Type 0
WithinIps none = Unit
WithinIps (some sec) = exceeds_ips sec ≡ false

abbrev pub RowWithinIps : Option Share → Type 0
RowWithinIps none = Unit
RowWithinIps (some s) = WithinIps s.security

-- The assignment keeps the bound, as long as the limit is the one of the row.
with_address-WithinIps :
    (ip : String) (limit : ℕ) (sec : ShareSecurity)
    → sec.max_ips ≡ some limit
    → leb limit (length sec.assigned_ips) ≡ false
    → WithinIps (some (with_address ip sec))
with_address-WithinIps ip limit sec e room =
    ground (arith, length-append sec.assigned_ips (ip ∷ []))

module _ {P : Prisma} where
  claim-WithinIps :
      (id ip : String) (limit : ℕ) (s : Share) (sec : ShareSecurity) (db : Db P)
      → P.find id db.shares ≡ some s
      → s.security ≡ some sec
      → sec.max_ips ≡ some limit
      → WithinIps (some sec)
      → RowWithinIps (P.find id (claim id ip limit s (some sec) db).1.shares)
  claim-WithinIps id ip limit s sec db found has e within =
      elim (Bool-cases (includes sec.assigned_ips ip)) [
        | inl there ↦ rw (there, found, has) within
        | inr fresh ↦ rw fresh (elim (Bool-cases (leb limit (length sec.assigned_ips))) [
          | inl full ↦ rw (full, found, has) within
          | inr room ↦
              rw room (simp (P.find-write, ===-refl) (with_address-WithinIps ip limit sec e room))
        ])
      ]

  assign-WithinIps :
      (id ip : String) (s : Share) (sec : ShareSecurity) (limit : Option ℕ) (db : Db P)
      → P.find id db.shares ≡ some s
      → s.security ≡ some sec
      → sec.max_ips ≡ limit
      → WithinIps (some sec)
      → RowWithinIps (P.find id (assign_share_ip_address id ip limit db).1.shares)
  unfolding assign_share_ip_address
  assign-WithinIps id ip s sec none db found has e within = rw (found, has) within
  assign-WithinIps id ip s sec (some limit) db found has e within =
      elim (Bool-cases (ltb 0 limit)) [
        | inr no_limit ↦ rw (no_limit, found, has) within
        | inl limited ↦
            rw (limited, found, has) (claim-WithinIps id ip limit s sec db found has e within)
      ]

  -- The places of a share are never given to more addresses than its limit says: a check of the
  -- address of any request, by the security row as it stands, keeps the bound.
  pub assert_share_ip_access-WithinIps :
      (w : World) (id : String) (s : Share) (request : Request) (assign : Bool) (db : Db P)
      → P.find id db.shares ≡ some s
      → WithinIps s.security
      → RowWithinIps (P.find id (assert_share_ip_access w id s.security request assign db).1.shares)
  assert_share_ip_access-WithinIps w id s request assign db found within =
      elim (Option-cases s.security) [
        | inl free ↦ rw free (unfold assert_share_ip_access in rw (found, free) tt)
        | inr (sec, has) ↦
            let bound : WithinIps (some sec) = rw has at within in
            rw has (elim (assert_cases w id sec request assign db) [
              | inl same ↦ rw (same, found, has) bound
              | inr (ip, ran) ↦
                  rw ran (assign-WithinIps id ip s sec sec.max_ips db found has refl bound)
            ])
      ]

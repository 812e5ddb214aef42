-- ===== src/Share/Guard/ViewLimit.antt =====
-- The count of views stays within the limit of a share.
use mathlib.Core.Option
use better_pingvin_share.Prelude.{
  ℕ, ◌+◌, String, false, Option, none, some, ◌≡◌, inl, inr, refl, sym, ◌∙◌, arith, ap, eq_iff,
  Bool-cases, ◌===◌, ltb, ◌&&◌,
}
use better_pingvin_share.Prisma.{Prisma}
use better_pingvin_share.Schema.{Db, Share, ShareSecurity}
use better_pingvin_share.World.{World}
use better_pingvin_share.Share.Request.{Request}
use better_pingvin_share.Share.IpAccess.Laws.{without_addresses, no_addresses}
use better_pingvin_share.Share.Guard.{
  share_security_guard, file_security_guard, max_views_of, views_exceeded, exceeds,
}
use better_pingvin_share.Share.Guard.Views.{
  Visit, uncounted, counted, share_security_guard-Visit, file_security_guard-Visit,
}

-- A limit of views that is not zero is not passed.
abbrev pub WithinLimit : Option ℕ → ℕ → Type 0
WithinLimit none views = Unit
WithinLimit (some most) views = (ltb 0 most && ltb most views) ≡ false

abbrev pub WithinViews : Option Share → Type 0
WithinViews none = Unit
WithinViews (some s) = WithinLimit (max_views_of s.security) s.views

max_views_of-no_addresses :
    (o : Option ShareSecurity) → max_views_of (Option.map no_addresses o) ≡ max_views_of o
max_views_of-no_addresses none = refl
max_views_of-no_addresses (some sec) = refl

-- The limit and the count, which the assigned addresses do not touch.
abbrev limit_and_views : Share → Option ℕ × ℕ
limit_and_views s = (max_views_of s.security, s.views)

same_limit :
    (s t : Share)
    → without_addresses t ≡ without_addresses s
    → (max_views_of t.security ≡ max_views_of s.security) × (t.views ≡ s.views)
same_limit s t e = (
  sym (max_views_of-no_addresses t.security)
      ∙ ap (λ (x : Share). max_views_of x.security) e
      ∙ max_views_of-no_addresses s.security,
  ap (λ (x : Share). x.views) e,
)

WithinLimit-next :
    (most : Option ℕ) (views : ℕ) → exceeds most views ≡ false → WithinLimit most (views + 1)
WithinLimit-next none views h = tt
WithinLimit-next (some most) views h = ground arith

WithinViews-same :
    (o p : Option Share)
    → Option.map without_addresses p ≡ Option.map without_addresses o
    → WithinViews o
    → WithinViews p
WithinViews-same none none e h = tt
WithinViews-same none (some t) e h = absurd (ground arith)
WithinViews-same (some s) none e h = tt
WithinViews-same (some s) (some t) e h =
    let (limit, views) = same_limit s t (ground arith) in rw (limit, views) h

module _ {P : Prisma} where
  Visit-WithinViews :
      (id j : String) (a b : Db P)
      → Visit id a b
      → WithinViews (P.find j a.shares)
      → WithinViews (P.find j b.shares)
  Visit-WithinViews id j a b (uncounted only) h = elim (Bool-cases (id === j)) [
    | inl same ↦ let e : id ≡ j = (eq_iff id j).0 same in WithinViews-same _ _ (rw e at only.own) h
    | inr other ↦ rw (only.others j (λ e. ground (arith, (eq_iff id j).1 e))) h
  ]
  Visit-WithinViews id j a b (counted s t found kept room same others) h =
      elim (Bool-cases (id === j)) [
        | inl own ↦
            let e : id ≡ j = (eq_iff id j).0 own in
            let (limit, views) = same_limit (record s { views = s.views + 1 }) t same in
            rw (← e, kept, limit, views)
              (WithinLimit-next (max_views_of s.security) s.views (unfold views_exceeded in room))
        | inr other ↦ rw (others j (λ e. ground (arith, (eq_iff id j).1 e))) h
      ]

  -- Neither guard ever counts a view beyond the limit of a share: whatever the request and the
  -- outcome, every share whose views were within its limit is within it afterwards.
  pub guards-WithinViews :
      (w : World) (request : Request) (id j : String) (db : Db P)
      → WithinViews (P.find j db.shares)
      → WithinViews (P.find j (share_security_guard w request id db).1.shares)
        × WithinViews (P.find j (file_security_guard w request id db).1.shares)
  guards-WithinViews w request id j db h = (
    Visit-WithinViews id j db _ (share_security_guard-Visit w request id db) h,
    Visit-WithinViews id j db _ (file_security_guard-Visit w request id db) h,
  )

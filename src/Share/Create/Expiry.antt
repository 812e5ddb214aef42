-- ===== src/Share/Create/Expiry.antt =====
-- The expiration of new and of changed shares.
use better_pingvin_share.Prelude.{
  ℕ, ◌≤◌, String, Bool, Option, some, false, not, ◌&&◌, ◌≡◌, ◌≢◌, refl, arith, if◌then◌else◌,
  Bool-cases, inl, inr,
}
use better_pingvin_share.Http.{Outcome, done, throw}
use better_pingvin_share.World.{World}
use better_pingvin_share.Dates.{parse_relative_date_to_absolute, is_epoch}
use better_pingvin_share.Share.Create.{creation_date, exceeds_maximum, too_late}

-- `parseAndValidateExpiration`, for a change of the expiration of a share
unfoldable pub parse_and_validate_expiration : World → String → Bool → Outcome (Option ℕ)
parse_and_validate_expiration w text skip_max =
    let parsed = parse_relative_date_to_absolute w.moment w.now text in
    if not skip_max && exceeds_maximum w (is_epoch parsed) parsed
    then throw too_late
    else done parsed

done_inj : (a b : Option ℕ) → done a ≡ done b → a ≡ b
done_inj a b e = ground (arith, e)

parsed_never : (w : World) → parse_relative_date_to_absolute w.moment w.now "never" ≡ some 0
unfolding parse_relative_date_to_absolute
parsed_never w = refl

-- A date that is one, and not after the configured maximum from now
abbrev pub WithinMaximum : World → ℕ → Type 0
WithinMaximum w d = (d ≢ 0) × (d ≤ w.moment.add w.now w.config.max_expiration)

bounded :
    (w : World) (d : ℕ)
    → w.config.max_expiration.value ≢ 0
    → exceeds_maximum w (is_epoch (some d)) (some d) ≡ false
    → WithinMaximum w d
bounded w d limited within = (ground arith, ground arith)

-- Where a maximum expiration is set, a date that is not refused in a change by somebody who is no
-- administrator is within it.
pub accepted_date :
    (w : World) (text : String) (d : ℕ)
    → w.config.max_expiration.value ≢ 0
    → parse_and_validate_expiration w text false ≡ done (some d)
    → WithinMaximum w d
unfolding parse_and_validate_expiration
accepted_date w text d limited e =
    let parsed = parse_relative_date_to_absolute w.moment w.now text in
    elim (Bool-cases (exceeds_maximum w (is_epoch parsed) parsed)) [
      | inl late ↦ let refused = rw late at e in absurd (cc)
      | inr within ↦
          let same : parsed ≡ some d = done_inj _ _ (rw within at e) in
          bounded w d limited (rw same at within)
    ]

-- Where a maximum expiration is set, the expiration "never" is accepted for a new share with no
-- reverse share, and refused in a change by somebody who is no administrator.
pub never_is_created :
    (w : World)
    → w.config.max_expiration.value ≢ 0
    → (creation_date w "never" ≡ done (some 0))
      × (parse_and_validate_expiration w "never" false ≡ throw too_late)
unfolding creation_date parse_and_validate_expiration
never_is_created w limited =
    (rw (parsed_never w) (ground arith), rw (parsed_never w) (ground arith))

-- ===== src/Config/Order.antt =====
-- The two periods among the values of the configuration.
use better_pingvin_share.Prelude.{
  ℕ, ◌≤◌, ◌≡◌, refl, arith, String, Bool, false, some, List, [], ◌∷◌, inl, inr, Bool-cases, ◌===◌,
  eq_iff, if◌then◌else◌,
}
use better_pingvin_share.Http.{done, Outcome-cases}
use better_pingvin_share.Prisma.Keyed.{lookup}
use better_pingvin_share.World.{Timespan}
use better_pingvin_share.Config.Definitions.{ConfigRow, Definition, Definitions}
use better_pingvin_share.Config.Timespan.{
  Value, text, number, flag, null, parse_timespan_value, timespan_to_minutes,
}
use better_pingvin_share.Config.Checks.{
  Values, create_config_value_map, set_value, merged_value, value_at, editable_key, retention_key,
  validate_periods, validate_config_consistency, check_update,
}

pub lookup-create_config_value_map :
    (k : String) (defs : Definitions) (variables : List (String × ConfigRow)) (d : Definition)
    → lookup k defs ≡ some d
    → lookup k (create_config_value_map defs variables)
      ≡ some (text (merged_value (lookup k variables) d))
unfolding create_config_value_map
lookup-create_config_value_map k [] variables d e = absurd (ground arith)
lookup-create_config_value_map k ((j, c) ∷ more) variables d e = elim (Bool-cases (j === k)) [
  | inl same ↦ let at_key : c ≡ d = ground arith in rw (same, (eq_iff j k).0 same, at_key) refl
  | inr other ↦ ground (arith, lookup-create_config_value_map k more variables d)
]

pub lookup-set_value :
    (j k : String) (v : Value) (values : Values)
    → lookup k (set_value j v values) ≡ (if j === k then some v else lookup k values)
unfolding set_value
lookup-set_value j k v [] = refl
lookup-set_value j k v ((i, old) ∷ more) =
    ground (arith, lookup-set_value j k v more, eq_iff i j, eq_iff i k, eq_iff j k)

-- The two periods of a map of values can be read, and are in order.
pub record InOrder (values : Values) : Type 0 where
  pub editable : Timespan
  pub retention : Timespan
  pub reads_editable : parse_timespan_value (value_at editable_key values) ≡ done editable
  pub reads_retention : parse_timespan_value (value_at retention_key values) ≡ done retention
  pub ordered : timespan_to_minutes editable ≤ timespan_to_minutes retention

pub validate_periods_passed : (values : Values) → validate_periods values ≡ done tt → InOrder values
unfolding validate_periods
validate_periods_passed values e =
    elim (Outcome-cases (parse_timespan_value (value_at editable_key values))) [
      | inl (x, bad) ↦ absurd (ground arith)
      | inr (editable, reads) ↦
          elim (Outcome-cases (parse_timespan_value (value_at retention_key values))) [
            | inl (x, bad) ↦ absurd (ground arith)
            | inr (retention, reads') ↦ record {
              editable = editable;
              retention = retention;
              reads_editable = reads;
              reads_retention = reads';
              ordered = ground arith;
            }
          ]
    ]

-- A timespan is read from a text only.
pub reads_text :
    (v : Value) (t : Timespan) → parse_timespan_value v ≡ done t → (s : String) × (v ≡ text s)
unfolding parse_timespan_value
reads_text (text s) t e = (s, refl)
reads_text (number n) t e = absurd (ground arith)
reads_text (flag b) t e = absurd (ground arith)
reads_text null t e = absurd (ground arith)

module _ (between : ℕ → ℕ → String → Bool) (defs : Definitions) where
  pub check_update_passed :
      (key : String) (v : Value) (variables : List (String × ConfigRow))
      → check_update between defs false key v variables ≡ done tt
      → InOrder (set_value key v (create_config_value_map defs variables))
  unfolding check_update validate_config_consistency
  check_update_passed key v variables e = validate_periods_passed _ (ground arith)

-- ===== src/Config/Checks.antt =====
-- backend/src/config/config.service.ts: the values of the configuration, and their checks.
use better_pingvin_share.Prelude.{
  ℕ, String, Bool, false, not, ◌&&◌, Option, none, some, List, [], ◌∷◌, leb, ltb, ◌===◌,
  if◌then◌else◌,
}
use better_pingvin_share.Http.{Outcome, done, throw, bad_request, and_then}
use better_pingvin_share.Prisma.Keyed.{lookup}
use better_pingvin_share.Text.{◌⧺◌, split, decimal}
use better_pingvin_share.World.{Timespan}
use better_pingvin_share.Config.Definitions.{ConfigRow, Definition, Definitions, or_else}
use better_pingvin_share.Config.Timespan.{
  Value, text, number, flag, null, parse_timespan_value, timespan_to_minutes,
}

-- Keys with their values, as `createConfigValueMap` has them
abbrev pub Values : Type 0
Values = List (String × Value)

-- `normalizeConfigValue`
unfoldable pub normalize_config_value : Value → Value
normalize_config_value (text s) = if s === "" then null else text s
normalize_config_value (number n) = number n
normalize_config_value (flag b) = flag b
normalize_config_value null = null

-- The merged value of a variable: that of its row, that of the definition, or the default
abbrev pub row_value : Option ConfigRow → Option String
row_value none = none
row_value (some row) = row.value

abbrev pub merged_value : Option ConfigRow → Definition → String
merged_value row d = elim (row_value row) [
  | some v ↦ v
  | none ↦ elim d.properties.value [ some v ↦ v | none ↦ or_else d.properties.default_value "" ]
]

-- `createConfigValueMap`
unfoldable pub create_config_value_map : Definitions → List (String × ConfigRow) → Values
create_config_value_map [] variables = []
create_config_value_map ((key, d) ∷ more) variables =
    (key, text (merged_value (lookup key variables) d)) ∷ create_config_value_map more variables

-- `values[key] = value`
unfoldable pub set_value : String → Value → Values → Values
set_value key v [] = (key, v) ∷ []
set_value key v ((k, old) ∷ more) =
    if k === key then (k, v) ∷ more else (k, old) ∷ set_value key v more

-- The values after all updates at once
unfoldable pub set_values : List (String × Value) → Values → Values
set_values [] values = values
set_values ((key, value) ∷ more) values =
    set_values more (set_value key (normalize_config_value value) values)

-- `key.split(".")[0]` and `[1]`, as a key of the table; undefined parts are an error of the client.
abbrev pub two_parts : List String → Option String
two_parts [] = none
two_parts (a ∷ []) = none
two_parts (a ∷ b ∷ more) = some (a ⧺ "." ⧺ b)

unfoldable pub config_key : String → Option String
config_key key = two_parts (split b'.' key)

-- `getDefinedConfigVariable`
unfoldable pub get_defined_config_variable : Definitions → String → Option Definition
get_defined_config_variable defs key = elim (config_key key) [
  | none ↦ none
  | some k ↦ lookup k defs
]

abbrev pub is_timespan : Option Definition → Bool
is_timespan none = false
is_timespan (some d) = d.properties.kind === "timespan"

-- `value >= low && value <= high`; `between` is JavaScript's, for a text.
abbrev pub in_range : (ℕ → ℕ → String → Bool) → ℕ → ℕ → Value → Bool
in_range between low high (text s) = between low high s
in_range between low high (number n) = leb low n && leb n high
in_range between low high (flag b) = leb low (if b then 1 else 0) && leb (if b then 1 else 0) high
in_range between low high null = leb low 0

-- A value that the map does not have is undefined, and no text.
abbrev pub value_at : String → Values → Value
value_at key values = or_else (lookup key values) null

abbrev pub editable_key : String
editable_key = "share.expiredEditablePeriod"

abbrev pub retention_key : String
retention_key = "share.fileRetentionPeriod"

abbrev pub periods_in_order : Timespan → Timespan → Outcome (Unit {0})
periods_in_order editable retention =
    if ltb (timespan_to_minutes retention) (timespan_to_minutes editable)
    then throw (bad_request "Expired editable period must not exceed file retention period")
    else done tt

unfoldable pub validate_periods : Values → Outcome (Unit {0})
validate_periods values =
    and_then (parse_timespan_value (value_at editable_key values)) (λ editable.
      and_then (parse_timespan_value (value_at retention_key values))
        (λ retention. periods_in_order editable retention))

-- `typeof value != configVariable.type && …`
abbrev pub wrong_type : String → Value → Bool
wrong_type kind (text s) =
    not (kind === "string") && not (kind === "text") && not (kind === "timespan")
wrong_type kind (number n) = false
wrong_type kind (flag b) = false
wrong_type kind null = false

-- `value === null ? null : value.toString()`
abbrev pub stored_value : Value → Option String
stored_value (text s) = some s
stored_value (number n) = some (decimal n)
stored_value (flag b) = some (if b then "true" else "false")
stored_value null = none

abbrev pub valid_timespan : Outcome Timespan → Outcome (Unit {0})
valid_timespan (throw e) = throw e
valid_timespan (done t) = done tt

module _ (between : ℕ → ℕ → String → Bool) (defs : Definitions) where
  -- The two validations by key
  abbrev pub failed_validation : String → Value → Option String
  failed_validation key value =
      if key === "share.shareIdLength"
      then (if in_range between 2 50 value
          then none
          else some "Share ID length must be between 2 and 50")
      else if key === "share.zipCompressionLevel"
      then (if in_range between 0 9 value
          then none
          else some "Zip compression level must be between 0 and 9")
      else none

  unfoldable pub validate_config_variable : String → Value → Outcome (Unit {0})
  validate_config_variable key value = elim (failed_validation key value) [
    | some message ↦ throw (bad_request message)
    | none ↦
        if is_timespan (get_defined_config_variable defs key)
        then valid_timespan (parse_timespan_value value)
        else done tt
  ]

  unfoldable pub validate_all : Values → Outcome (Unit {0})
  validate_all [] = done tt
  validate_all ((key, value) ∷ more) =
      and_then (validate_config_variable key value) (λ u. validate_all more)

  unfoldable pub validate_config_consistency : Values → Outcome (Unit {0})
  validate_config_consistency values = and_then (validate_all values) (λ u. validate_periods values)

  -- The checks of `update` on a row
  unfoldable pub check_update :
      Bool → String → Value → List (String × ConfigRow) → Outcome (Unit {0})
  check_update skip key normalized variables =
      and_then (validate_config_variable key normalized) (λ u.
        if skip
        then done tt
        else validate_config_consistency
            (set_value key normalized (create_config_value_map defs variables)))

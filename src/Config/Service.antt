-- ===== src/Config/Service.antt =====
-- backend/src/config/config.service.ts: reading, checking and changing the configuration variables.
use better_pingvin_share.Prelude.{
  ℕ, String, Bool, true, not, Option, none, some, List, [], ◌∷◌, ◌++◌,
}
use better_pingvin_share.Http.{
  done, throw, Handler, HttpError, bad_request, not_found, prisma_error, pure, gets, lift, throw_if,
  ◌>>=◌, ◌>>◌,
}
use better_pingvin_share.Prisma.{Prisma}
use better_pingvin_share.Text.{◌⧺◌}
use better_pingvin_share.Config.Definitions.{ConfigRow, Definitions}
use better_pingvin_share.Config.Timespan.{Value}
use better_pingvin_share.Config.Checks.{
  normalize_config_value, create_config_value_map, set_values, config_key, wrong_type, stored_value,
  validate_config_consistency, check_update,
}

-- What the service keeps: the table of the database, its copy of the rows with their keys, and
-- whether there is a config.yaml; with the updates that it has told of.
pub record ConfigState (P : Prisma) : Type 0 where
  pub table : P.Table ConfigRow
  pub variables : List (String × ConfigRow)
  pub yaml : Bool
  pub emitted : List (String × Value)

-- `isEditAllowed`
abbrev pub is_edit_allowed : {P : Prisma} → ConfigState P → Bool
is_edit_allowed st = not st.yaml

abbrev pub only_yaml : HttpError
only_yaml = bad_request "You are only allowed to update config variables via the config.yaml file"

module _ {P : Prisma} (between : ℕ → ℕ → String → Bool) (defs : Definitions) where
  abbrev pub find_row : Option String → ConfigState P → Option ConfigRow
  find_row none st = none
  find_row (some k) st = P.find k st.table

  -- The row with its new value is written, the copy is read again, and the update is told of.
  abbrev pub write_value : String → ConfigRow → String → Value → Handler (ConfigState P) ConfigRow
  write_value k row key value st =
      let t = P.write k (record row { value = stored_value value }) st.table in
      (
        done (record row { value = stored_value value }),
        record st { table = t; variables = P.rows t; emitted = st.emitted ++ (key, value) ∷ [] },
      )

  -- From the row on
  unfoldable pub update_row :
      Bool → String → String → Value → ConfigRow → Handler (ConfigState P) ConfigRow
  update_row skip k key value row = do
    throw_if row.locked (not_found "Config variable not found" none)
    throw_if (wrong_type row.kind (normalize_config_value value))
        (bad_request ("Config variable must be of type " ⧺ row.kind))
    variables ← gets (λ st. st.variables)
    lift (check_update between defs skip key (normalize_config_value value) variables)
    write_value k row key (normalize_config_value value)

  abbrev pub update_found :
      Bool → Option String → String → Value → Option ConfigRow → Handler (ConfigState P) ConfigRow
  update_found skip none key value row st = (throw (prisma_error "PrismaClientValidationError"), st)
  update_found skip (some k) key value none st =
      (throw (not_found "Config variable not found" none), st)
  update_found skip (some k) key value (some row) st = update_row skip k key value row st

  unfoldable pub update : Bool → String → Value → Handler (ConfigState P) ConfigRow
  update skip key value = do
    allowed ← gets is_edit_allowed
    throw_if (not allowed) only_yaml
    row ← gets (find_row (config_key key))
    update_found skip (config_key key) key value row

  unfoldable pub update_each : List (String × Value) → Handler (ConfigState P) (List ConfigRow)
  update_each [] = pure []
  update_each ((key, value) ∷ more) = do
    row ← update true key value
    rows ← update_each more
    pure (row ∷ rows)

  unfoldable pub update_many : List (String × Value) → Handler (ConfigState P) (List ConfigRow)
  update_many changes = do
    allowed ← gets is_edit_allowed
    throw_if (not allowed) only_yaml
    variables ← gets (λ st. st.variables)
    lift (
        validate_config_consistency between defs
          (set_values changes (create_config_value_map defs variables)))
    update_each changes

-- ===== src/Config/Definitions.antt =====
-- backend/src/config/configDefinitions.ts: the configuration variables that the program defines, and
-- `syncConfigVariables`, which brings the table of the database up to date with them at start.
use better_pingvin_share.Prelude.{
  ℕ, ◌+◌, String, Bool, true, false, Option, none, some, List, [], ◌∷◌, ◌++◌,
}
use better_pingvin_share.Prisma.{Prisma}
use better_pingvin_share.Text.{◌⧺◌}

-- The properties of a variable, `type` first; a property that is not written is `none`.
pub record Entry : Type 0 where
  pub name : String
  pub kind : String
  pub default_value : Option String
  pub value : Option String
  pub obscured : Option Bool
  pub secret : Option Bool
  pub locked : Option Bool

abbrev pub entry : String → String → String → Entry
entry name kind default_value = record {
  name = name;
  kind = kind;
  default_value = some default_value;
  value = none;
  obscured = none;
  secret = none;
  locked = none;
}

-- `secret: false`, `secret: true`, `obscured: true`, and a locked text with a value
abbrev pub shown : Entry → Entry
shown e = record e { secret = some false }

abbrev pub hidden : Entry → Entry
hidden e = record e { secret = some true }

abbrev pub masked : Entry → Entry
masked e = record e { obscured = some true }

abbrev pub locked_with : String → String → Entry
locked_with name value = record {
  name = name;
  kind = "string";
  default_value = none;
  value = some value;
  obscured = none;
  secret = none;
  locked = some true;
}

-- A variable with its category and its place there
pub record Definition : Type 0 where
  pub category : String
  pub order : ℕ
  pub properties : Entry

-- Variables with their keys, `category.name`
abbrev pub Definitions : Type 0
Definitions = List (String × Definition)

-- `Object.entries` of a category, from a place on
unfoldable pub defined_in : String → ℕ → List Entry → Definitions
defined_in category order [] = []
defined_in category order (e ∷ more) =
    (category ⧺ "." ⧺ e.name, record { category = category; order = order; properties = e })
    ∷ defined_in category (order + 1) more

unfoldable pub get_defined_config_variables : List (String × List Entry) → Definitions
get_defined_config_variables [] = []
get_defined_config_variables ((category, entries) ∷ more) =
    defined_in category 0 entries ++ get_defined_config_variables more

-- A row of the table of configuration variables; `none` is null.
pub record ConfigRow : Type 0 where
  pub name : String
  pub category : String
  pub kind : String
  pub default_value : String
  pub value : Option String
  pub obscured : Bool
  pub secret : Bool
  pub locked : Bool
  pub order : ℕ

abbrev pub or_else {ℓ} : {A : Type ℓ} → Option A → A → A
or_else none d = d
or_else (some a) d = a

-- The row that `create` makes, with the defaults of the schema, and the row that `update` leaves:
-- a property that is not written keeps what the row has, and the value is that of the row.
abbrev pub defined_row : Definition → ConfigRow
defined_row d = record {
  name = d.properties.name;
  category = d.category;
  kind = d.properties.kind;
  default_value = or_else d.properties.default_value "";
  value = d.properties.value;
  obscured = or_else d.properties.obscured false;
  secret = or_else d.properties.secret true;
  locked = or_else d.properties.locked false;
  order = d.order;
}

abbrev pub redefined_row : Definition → ConfigRow → ConfigRow
redefined_row d row = record {
  name = d.properties.name;
  category = d.category;
  kind = d.properties.kind;
  default_value = or_else d.properties.default_value row.default_value;
  value = row.value;
  obscured = or_else d.properties.obscured row.obscured;
  secret = or_else d.properties.secret row.secret;
  locked = or_else d.properties.locked row.locked;
  order = d.order;
}

abbrev pub synced_row : Definition → Option ConfigRow → ConfigRow
synced_row d none = defined_row d
synced_row d (some row) = redefined_row d row

module _ (P : Prisma) where
  unfoldable pub sync_config_variables : Definitions → P.Table ConfigRow → P.Table ConfigRow
  sync_config_variables [] t = t
  sync_config_variables ((key, d) ∷ more) t =
      sync_config_variables more (P.write key (synced_row d (P.find key t)) t)

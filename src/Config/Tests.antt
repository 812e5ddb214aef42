-- ===== src/Config/Tests.antt =====
-- Changes of the two periods, on the program's own variables.
use better_pingvin_share.Prelude.{
  ℕ, ◌+◌, ◌-◌, ◌≤◌, ◌≡◌, refl, arith, String, Bool, true, false, none, some, List, [], ◌∷◌,
}
use better_pingvin_share.Http.{done}
use better_pingvin_share.Prisma.Assoc.{assoc}
use better_pingvin_share.Prisma.Keyed.{lookup}
use better_pingvin_share.Text.{split, trim, trim_start, trim_end, parse_digits}
use better_pingvin_share.Config.Definitions.{
  entry, shown, Definitions, Definition, ConfigRow, defined_in, get_defined_config_variables,
  defined_row, sync_config_variables,
}
use better_pingvin_share.Config.Variables.{config_variables}
use better_pingvin_share.Config.Timespan.{
  string_to_timespan, text, parse_timespan_value, match_timespan, span, timespan_to_minutes,
  timespan_in_minutes,
}
use better_pingvin_share.Config.Service.{ConfigState, update, update_many, update_each, update_row}
use better_pingvin_share.Config.Checks.{
  check_update, config_key, normalize_config_value, validate_config_variable, validate_all,
  validate_periods, validate_config_consistency, create_config_value_map, set_value, set_values,
  get_defined_config_variable, editable_key, retention_key,
}
use better_pingvin_share.Config.Periods.{Synced, values_of, update_keeps_periods}
use better_pingvin_share.Config.Order.{InOrder}
use better_pingvin_share.Config.Retention.{milliseconds, editable_share_kept}
use better_pingvin_share.Schema.{Db, Share}
use better_pingvin_share.World.{World, Timespan, Moment}
use better_pingvin_share.World.Example.{world_at, plain_moment, plain_config}
use better_pingvin_share.Jobs.{delete_expired_shares}
use better_pingvin_share.Share.Access.{is_share_within_expired_editable_period, is_share_expired}

abbrev defs : Definitions
defs = get_defined_config_variables (config_variables "jwt" "api")

-- No text is a number in a range here.
abbrev between : ℕ → ℕ → String → Bool
between low high s = true

abbrev start : ConfigState assoc
start = record {
  table = sync_config_variables assoc defs [];
  variables = assoc.rows (sync_config_variables assoc defs []);
  yaml = false;
  emitted = [];
}

abbrev period : String → ℕ → Definition
period name order = record {
  category = "share";
  order = order;
  properties = shown (entry name "timespan" "0 days");
}

editable_defined : lookup editable_key defs ≡ some (period "expiredEditablePeriod" 13)
unfolding get_defined_config_variables defined_in
editable_defined = refl

retention_defined : lookup retention_key defs ≡ some (period "fileRetentionPeriod" 12)
unfolding get_defined_config_variables defined_in
retention_defined = refl

abbrev three_days : ConfigRow
three_days = record (defined_row (period "fileRetentionPeriod" 12)) { value = some "3 days" }

accepted : (update between defs false retention_key (text "3 days") start).0 ≡ done three_days
unfolding get_defined_config_variables defined_in sync_config_variables update update_row
    check_update config_key split normalize_config_value validate_config_variable validate_all
    validate_periods validate_config_consistency create_config_value_map set_value
    get_defined_config_variable parse_timespan_value match_timespan span timespan_to_minutes
    timespan_in_minutes trim trim_start trim_end parse_digits
accepted = refl

plain_key : config_key retention_key ≡ some retention_key
unfolding config_key split
plain_key = refl

in_step : Synced between defs start
in_step = λ k. assoc.lookup-rows k start.table

update_keeps_periods_example : InOrder (
    values_of between defs
      (update {P = assoc} between defs false retention_key (text "3 days") start).1)
update_keeps_periods_example =
    update_keeps_periods {P = assoc} between defs retention_key (text "3 days")
      (period "expiredEditablePeriod" 13) (period "fileRetentionPeriod" 12) three_days start
      editable_defined retention_defined plain_key in_step accepted

-- A key with one more part names the same row, and passes the check of the periods by.
passed_by :
    (update {P = assoc} between defs false "share.expiredEditablePeriod.x" (text "5 days") start).0
    ≡ done (record (defined_row (period "expiredEditablePeriod" 13)) { value = some "5 days" })
unfolding get_defined_config_variables defined_in sync_config_variables update update_row
    check_update config_key split normalize_config_value validate_config_variable validate_all
    validate_periods validate_config_consistency create_config_value_map set_value
    get_defined_config_variable parse_timespan_value match_timespan span timespan_to_minutes
    timespan_in_minutes trim trim_start trim_end parse_digits
passed_by = refl

-- Two spaces pass the check, and are then read as no unit.
two_spaces :
    (parse_timespan_value (text "3  days") ≡ done (record { value = 3; unit = "days" }))
    × (string_to_timespan "3  days" ≡ (some 3, some ""))
unfolding parse_timespan_value match_timespan span trim trim_start trim_end parse_digits split
    string_to_timespan
two_spaces = (refl, refl)

-- Both periods at two days; a change of several variables that fails midway leaves the retention
-- period below the editable period.
abbrev both : List (String × ConfigRow)
both =
    (
      editable_key,
      record (defined_row (period "expiredEditablePeriod" 13)) { value = some "2 days" },
    )
    ∷ (
      retention_key,
      record (defined_row (period "fileRetentionPeriod" 12)) { value = some "2 days" },
    )
    ∷ []

abbrev two_days : ConfigState assoc
two_days = record { table = both; variables = both; yaml = false; emitted = [] }

half_done :
    lookup retention_key
      (update_many {P = assoc} between defs
        ((retention_key, text "1 days")
          ∷ ("share.nothing", text "1")
          ∷ (editable_key, text "1 days")
          ∷ [])
        two_days).1.table
    ≡ some (record (defined_row (period "fileRetentionPeriod" 12)) { value = some "1 days" })
unfolding update_many update_each set_values get_defined_config_variables defined_in
    sync_config_variables update update_row check_update config_key split normalize_config_value
    validate_config_variable validate_all validate_periods validate_config_consistency
    create_config_value_map set_value get_defined_config_variable parse_timespan_value
    match_timespan span timespan_to_minutes timespan_in_minutes trim trim_start trim_end
    parse_digits
half_done = refl

-- A clock whose units have the lengths that the configuration counts
later : (d : ℕ) (t : Timespan) → d ≤ d + milliseconds t
later d t = omega arith

abbrev exact : Moment
exact = record plain_moment {
  add = λ d t. d + milliseconds t;
  subtract = λ d t. d - milliseconds t;
  le-add = later;
}

abbrev days : ℕ → Timespan
days n = record { value = n; unit = "days" }

abbrev w : World
w = record (world_at 200_000_000) {
  moment = exact;
  config = record plain_config { expired_editable_period = days 2; file_retention_period = days 3 };
}

abbrev expired : Share
expired = record {
  created_at = 1000;
  name = none;
  upload_locked = true;
  is_zip_ready = false;
  views = 0;
  expiration = 100_000_000;
  description = none;
  removed_reason = none;
  creator_id = none;
  reverse_share_id = none;
  security = none;
  recipients = [];
  storage_provider = "LOCAL";
}

abbrev db : Db assoc
db = record {
  users = [];
  api_tokens = [];
  refresh_tokens = [];
  login_tokens = [];
  reset_password_tokens = [];
  oauth_users = [];
  shares = ("expired", expired) ∷ [];
  reverse_shares = [];
  files = [];
  disk = [];
  bucket = [];
  multipart_uploads = [];
  started = [];
}

periods_ordered : timespan_to_minutes (days 2) ≤ timespan_to_minutes (days 3)
unfolding timespan_to_minutes timespan_in_minutes
periods_ordered = omega arith

still_editable :
    is_share_within_expired_editable_period exact 200_000_000 100_000_000 (days 2) ≡ true
unfolding is_share_within_expired_editable_period is_share_expired timespan_to_minutes
    timespan_in_minutes
still_editable = refl

editable_share_kept_example :
    lookup "expired" (delete_expired_shares {P = assoc} w db).1.shares ≡ some expired
editable_share_kept_example =
    editable_share_kept {P = assoc} w "expired" expired db periods_ordered (λ d. refl) (λ d. refl)
      refl still_editable

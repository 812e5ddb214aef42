-- ===== src/Share/SecurityUpdate.antt =====
-- `createSecurityUpdateInput` of backend/src/share/share.service.ts.
pub mod Exclusive
use better_pingvin_share.Prelude.{
  ℕ, String, Bool, true, false, not, ◌&&◌, ◌||◌, Option, none, some, List, [], if◌then◌else◌,
  truthy, truthy_number,
}
use better_pingvin_share.Http.{Outcome, done, throw, and_then}
use better_pingvin_share.Schema.{ShareSecurity}
use better_pingvin_share.World.{World}
use better_pingvin_share.Share.IpAccess.{is_empty}
use better_pingvin_share.Share.Security.{
  SecurityUpdate, SecurityWrite, leave, delete, upsert, normalize_allowed_ips, combination_error,
  is_some, password_update, or_current, flat, or_none, current_password, current_max_views,
  current_max_ips, current_allowed_ips,
}

-- The four columns that the row is to have.
abbrev pub new_password : World → SecurityUpdate → Option ShareSecurity → Option String
new_password w update current = elim update.password [
  | none ↦ current_password current
  | some p ↦ password_update w p
]

abbrev pub new_max_views : SecurityUpdate → Option ShareSecurity → Option ℕ
new_max_views update current = or_current update.max_views (current_max_views current)

-- A new limit on addresses drops the present list, unless the request has a list.
abbrev pub new_allowed_ips : World → SecurityUpdate → Option ShareSecurity → Outcome (List String)
new_allowed_ips w update current = elim update.allowed_ips [
  | some l ↦ normalize_allowed_ips w (or_none l)
  | none ↦
      if truthy_number (flat update.max_ips) then done [] else done (current_allowed_ips current)
]

-- A new list drops the present limit, unless the request has a limit.
abbrev pub new_max_ips : SecurityUpdate → Option ShareSecurity → List String → Option ℕ
new_max_ips update current allowed = elim update.max_ips [
  | some n ↦ n
  | none ↦
      if is_some update.allowed_ips && not (is_empty allowed) then none else current_max_ips current
]

-- The update of a row that is there: only the columns that the request speaks of, and a change of
-- the address rules forgets the addresses that have places.
abbrev pub updated_row :
    SecurityUpdate
    → Option String
    → Option ℕ
    → Option ℕ
    → List String
    → ShareSecurity
    → ShareSecurity
updated_row update password max_views max_ips allowed sec =
    let ip_rules = is_some update.max_ips || is_some update.allowed_ips in
    record {
      password = if is_some update.password then password else sec.password;
      max_views = if is_some update.max_views then max_views else sec.max_views;
      max_ips = if ip_rules then max_ips else sec.max_ips;
      allowed_ips = if ip_rules then allowed else sec.allowed_ips;
      assigned_ips = if ip_rules then [] else sec.assigned_ips;
    }

abbrev pub created_row : Option String → Option ℕ → Option ℕ → List String → ShareSecurity
created_row password max_views max_ips allowed = record {
  password = password;
  max_views = max_views;
  max_ips = max_ips;
  allowed_ips = allowed;
  assigned_ips = [];
}

abbrev pub speaks : SecurityUpdate → Bool
speaks update =
    is_some update.password
    || (is_some update.max_views || (is_some update.max_ips || is_some update.allowed_ips))

unfoldable pub decide_write :
    SecurityUpdate
    → Option ShareSecurity
    → Option String
    → Option ℕ
    → Option ℕ
    → List String
    → Outcome SecurityWrite
decide_write update current password max_views max_ips allowed =
    if truthy_number max_ips && not (is_empty allowed)
    then throw combination_error
    else if not (truthy password)
        && (not (is_some max_views) && (not (is_some max_ips) && is_empty allowed))
    then done (if is_some current then delete else leave)
    else if not (speaks update) && is_some current
    then done leave
    else done (
        upsert (created_row password max_views max_ips allowed)
          (updated_row update password max_views max_ips allowed))

unfoldable pub create_security_update_input :
    World → Option SecurityUpdate → Option ShareSecurity → Outcome SecurityWrite
create_security_update_input w none current = done leave
create_security_update_input w (some update) current =
    and_then (new_allowed_ips w update current) λ allowed.
      decide_write update current (new_password w update current) (new_max_views update current)
        (new_max_ips update current allowed) allowed

-- What the write makes of the present row.
unfoldable pub apply_write : SecurityWrite → Option ShareSecurity → Option ShareSecurity
apply_write leave current = current
apply_write delete current = none
apply_write (upsert created update) none = some created
apply_write (upsert created update) (some sec) = some (update sec)

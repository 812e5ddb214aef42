-- ===== src/Config/Periods.antt =====
-- What a change of a variable leaves: the editable period of expired shares is not longer than the
-- time for which their files are kept.
use better_pingvin_share.Prelude.{
  ℕ, ◌≡◌, refl, arith, String, Bool, true, false, some, inl, inr, Bool-cases, Option-cases, ◌===◌,
  if◌then◌else◌,
}
use better_pingvin_share.Http.{done, throw, Outcome-cases}
use better_pingvin_share.Prisma.{Prisma}
use better_pingvin_share.Prisma.Keyed.{lookup}
use better_pingvin_share.World.{Timespan}
use better_pingvin_share.Config.Definitions.{ConfigRow, Definition, Definitions}
use better_pingvin_share.Config.Timespan.{Value, parse_timespan_value}
use better_pingvin_share.Config.Service.{
  ConfigState, update, update_row, update_found, write_value, only_yaml,
}
use better_pingvin_share.Config.Checks.{
  Values, create_config_value_map, set_value, value_at, editable_key, retention_key, check_update,
  config_key, normalize_config_value, stored_value, wrong_type,
}
use better_pingvin_share.Config.Order.{
  lookup-create_config_value_map, lookup-set_value, InOrder, reads_text, check_update_passed,
}

module _ {P : Prisma} (between : ℕ → ℕ → String → Bool) (defs : Definitions) where
  -- The copy has the rows of the table.
  abbrev pub Synced : ConfigState P → Type 0
  Synced st = (k : String) → lookup k st.variables ≡ P.find k st.table

  -- The values of a state
  abbrev pub values_of : ConfigState P → Values
  values_of st = create_config_value_map defs st.variables

  -- What the checks of `update` have passed when it returns
  pub record Updated (key : String) (value : Value) (a b : ConfigState P) : Type 0 where
    pub row : ConfigRow
    pub found : P.find key a.table ≡ some row
    pub checked :
        check_update between defs false key (normalize_config_value value) a.variables ≡ done tt
    pub written : b ≡ (write_value between defs key row key (normalize_config_value value) a).1

  update_row-Updated :
      (key : String) (value : Value) (row r : ConfigRow) (st : ConfigState P)
      → P.find key st.table ≡ some row
      → (update_row between defs false key key value row st).0 ≡ done r
      → Updated key value st (update_row between defs false key key value row st).1
  unfolding update_row
  update_row-Updated key value row r st found e = elim (Bool-cases row.locked) [
    | inl locked ↦ absurd (ground arith)
    | inr unlocked ↦ elim (Bool-cases (wrong_type row.kind (normalize_config_value value))) [
      | inl wrong ↦ absurd (ground arith)
      | inr right ↦
          elim (Outcome-cases
            (check_update between defs false key (normalize_config_value value) st.variables)) [
              | inl (x, bad) ↦ absurd (ground arith)
              | inr (u, passed) ↦ record {
                row = row;
                found = found;
                checked = passed;
                written = rw (unlocked, right, passed) refl;
              }
            ]
    ]
  ]

  update_lem :
      (key : String) (value : Value) (st : ConfigState P)
      → st.yaml ≡ false
      → config_key key ≡ some key
      → update between defs false key value st
        ≡ update_found between defs false (some key) key value (P.find key st.table) st
  unfolding update
  update_lem key value st editable plain = rw (editable, plain) refl

  update_yaml :
      (key : String) (value : Value) (st : ConfigState P)
      → st.yaml ≡ true
      → update between defs false key value st ≡ (throw only_yaml, st)
  unfolding update
  update_yaml key value st e = rw e refl

  update-Updated :
      (key : String) (value : Value) (r : ConfigRow) (st : ConfigState P)
      → config_key key ≡ some key
      → (update between defs false key value st).0 ≡ done r
      → Updated key value st (update between defs false key value st).1
  update-Updated key value r st plain e = elim (Bool-cases st.yaml) [
    | inl yaml ↦ absurd (ground (arith, update_yaml key value st yaml))
    | inr editable ↦
        let is = update_lem key value st editable plain in
        elim (Option-cases (P.find key st.table)) [
          | inl missing ↦ absurd (ground (arith, is))
          | inr (row, found) ↦
              let is' : update between defs false key value st
                  ≡ update_row between defs false key key value row st =
                rw (is, found) refl in
              rw is' (update_row-Updated key value row r st found (rw is' at e))
        ]
  ]

  -- A period that the checks read is the one that is read afterwards.
  same_value :
      (k key : String) (value : Value) (d : Definition) (t : Timespan) (a b : ConfigState P)
      → Synced a
      → lookup k defs ≡ some d
      → Updated key value a b
      → parse_timespan_value
          (value_at k (set_value key (normalize_config_value value) (values_of a)))
        ≡ done t
      → value_at k (values_of b)
        ≡ value_at k (set_value key (normalize_config_value value) (values_of a))
  same_value k key value d t a b synced defined up read =
      let v = normalize_config_value value in
      let row : ConfigRow = record up.row { value = stored_value v } in
      let rows : lookup k b.variables ≡ (if key === k then some row else lookup k a.variables) =
        rw (up.written, P.lookup-rows, P.find-write, synced k) refl in
      let after = lookup-create_config_value_map k defs b.variables d defined in
      let earlier = lookup-create_config_value_map k defs a.variables d defined in
      let set = lookup-set_value key k v (values_of a) in
      elim (Bool-cases (key === k)) [
        | inr other ↦ rw (after, rows, set, other, earlier) refl
        | inl same ↦
            let own : value_at k (set_value key v (values_of a)) ≡ v = rw (set, same) refl in
            let (s, is) = reads_text v t (rw own at read) in rw (after, rows, own, same, is) refl
      ]

  -- After a change of one variable that is accepted, the editable period of expired shares and the
  -- retention period of their files are both texts that can be read, and the editable period is not
  -- the longer one, a month counting as 30 days and a year as 365. It is asked that the service's
  -- copy had the rows of the table, that both periods are defined variables, and that the key has
  -- one dot only.
  pub update_keeps_periods :
      (key : String) (value : Value) (editable retention : Definition) (r : ConfigRow)
      (st : ConfigState P)
      → lookup editable_key defs ≡ some editable
      → lookup retention_key defs ≡ some retention
      → config_key key ≡ some key
      → Synced st
      → (update between defs false key value st).0 ≡ done r
      → InOrder (values_of (update between defs false key value st).1)
  update_keeps_periods key value editable retention r st has_editable has_retention plain synced e =
      let b = (update between defs false key value st).1 in
      let up = update-Updated key value r st plain e in
      let next = check_update_passed between defs key _ st.variables up.checked in
      record {
        editable = next.editable;
        retention = next.retention;
        reads_editable =
            rw
              (same_value editable_key key value editable next.editable st b synced has_editable up
                next.reads_editable)
              next.reads_editable;
        reads_retention =
            rw
              (same_value retention_key key value retention next.retention st b synced has_retention
                up next.reads_retention)
              next.reads_retention;
        ordered = next.ordered;
      }

  -- A change keeps the copy up to date.
  pub update-Synced :
      (key : String) (value : Value) (r : ConfigRow) (st : ConfigState P)
      → config_key key ≡ some key
      → (update between defs false key value st).0 ≡ done r
      → Synced (update between defs false key value st).1
  update-Synced key value r st plain e =
      let up = update-Updated key value r st plain e in rw up.written (λ k. P.lookup-rows k _)

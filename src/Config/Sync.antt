-- ===== src/Config/Sync.antt =====
-- What bringing the table up to date at start keeps, and what it adds.
use better_pingvin_share.Prelude.{
  ◌≡◌, ◌∙◌, ap, refl, String, some, [], ◌∷◌, inl, inr, Bool-cases, ◌===◌, eq_iff,
}
use better_pingvin_share.Prisma.{Prisma}
use better_pingvin_share.Config.Definitions.{
  ConfigRow, Definitions, sync_config_variables, synced_row,
}

module _ (P : Prisma) where
  -- A value that an administrator has set stays what it is, whatever the program defines now.
  pub sync_keeps_value :
      (defs : Definitions) (k : String) (row : ConfigRow) (t : P.Table ConfigRow)
      → P.find k t ≡ some row
      → (after : ConfigRow) × (P.find k (sync_config_variables P defs t) ≡ some after)
        × (after.value ≡ row.value)
  unfolding sync_config_variables
  sync_keeps_value [] k row t found = (row, found, refl)
  sync_keeps_value ((key, d) ∷ more) k row t found = elim (Bool-cases (key === k)) [
    | inr other ↦ sync_keeps_value more k row _ (P.find-write key k _ t ∙ rw other found)
    | inl same ↦
        let (after, there, value) =
          sync_keeps_value more k (synced_row d (P.find key t)) _
            (P.find-write key k _ t ∙ rw same refl) in
        let at_key : P.find key t ≡ some row = rw ((eq_iff key k).0 same) found in
        (after, there, value ∙ ap (λ o. (synced_row d o).value) at_key)
  ]

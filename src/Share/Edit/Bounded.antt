-- ===== src/Share/Edit/Bounded.antt =====
-- A changed expiration of a share.
use better_pingvin_share.Prelude.{
  ℕ, String, false, Option, none, some, ◌≡◌, ◌≢◌, inl, inr, refl, arith, Option-cases, ===-refl,
}
use better_pingvin_share.Http.{done, throw, Outcome-cases}
use better_pingvin_share.Prisma.{Prisma}
use better_pingvin_share.Schema.{Db, Share}
use better_pingvin_share.Store.{update_share, put_share}
use better_pingvin_share.World.{World}
use better_pingvin_share.Share.SecurityUpdate.{create_security_update_input}
use better_pingvin_share.Share.Create.Expiry.{
  parse_and_validate_expiration, WithinMaximum, accepted_date,
}
use better_pingvin_share.Share.Guard.{share_not_found}
use better_pingvin_share.Share.Edit.{
  ShareUpdate, new_expiration, written_expiration, updated_share, or_same, editable_outcome,
  get_editable_share_entity, update,
}

same_twice : (o : Option ℕ) (d : ℕ) → or_same o d ≡ or_same o (or_same o d)
same_twice none d = refl
same_twice (some e) d = refl

asked_date :
    (w : World) (text : String)
    → (e : Option (Option ℕ)) → new_expiration w (some text) false ≡ done e
    → (o : Option ℕ) × (e ≡ some o) × (parse_and_validate_expiration w text false ≡ done o)
asked_date w text e parsed = elim (Outcome-cases (parse_and_validate_expiration w text false)) [
  | inl (x, late) ↦ absurd (ground (arith, late, parsed))
  | inr (o, taken) ↦ (o, ground (arith, taken, parsed), taken)
]

written_some :
    (o written : Option ℕ)
    → written_expiration (some o) ≡ done written
    → (d : ℕ) × (o ≡ some d) × (written ≡ some d)
written_some none written e = absurd (ground (arith, e))
written_some (some d) written e = (d, refl, ground (arith, e))

-- The date that a change is asked for is the one that is written.
new_date :
    (w : World) (text : String) (changes : ShareUpdate) (date : Option (Option ℕ))
    (written : Option ℕ)
    → changes.expiration ≡ some text
    → new_expiration w changes.expiration false ≡ done date
    → written_expiration date ≡ done written
    → (d : ℕ) × (written ≡ some d) × (parse_and_validate_expiration w text false ≡ done (some d))
new_date w text changes date written asked parsed valid =
    let (o, is, taken) = asked_date w text date (rw asked at parsed) in
    let (d, there, stored) = written_some o written (rw is at valid) in
    (d, stored, rw there at taken)

module _ {P : Prisma} (w : World) where
  pub entity :
      (id : String) (user : Option String) (s : Share) (db : Db P)
      → P.find id db.shares ≡ some s
      → get_editable_share_entity w id user false db ≡ (editable_outcome w s user false, db)
  unfolding get_editable_share_entity
  entity id user s db found = rw (found, get_editable_share_entity) refl

  no_entity :
      (id : String) (user : Option String) (db : Db P)
      → P.find id db.shares ≡ none
      → get_editable_share_entity w id user false db ≡ (throw share_not_found, db)
  unfolding get_editable_share_entity
  no_entity id user db missing = rw (missing, get_editable_share_entity) refl

  updated_row :
      (id : String) (f : Share → Share) (s : Share) (db : Db P)
      → P.find id db.shares ≡ some s
      → update_share id f db ≡ (done (f s), put_share id (f s) db)
  updated_row id f s db found = rw (found, update_share) refl

  -- What an accepted change has written
  accepted :
      (id : String) (changes : ShareUpdate) (user : Option String) (s : Share) (db : Db P)
      → (update w id changes user false db).0 ≡ done s
      → (t : Share) × (date : Option (Option ℕ)) × (written : Option ℕ) × (new_expiration w
            changes.expiration false
          ≡ done date)
        × (written_expiration date ≡ done written)
        × (P.find id (update w id changes user false db).1.shares ≡ some t)
        × (t.expiration ≡ or_same written t.expiration)
  unfolding update
  accepted id changes user s db e = elim (Option-cases (P.find id db.shares)) [
    | inl missing ↦ let refused = rw (no_entity id user db missing) at e in absurd (cc)
    | inr (row, found) ↦
        let read = entity id user row db found in
        elim (Outcome-cases (editable_outcome w row user false)) [
          | inl (x, closed) ↦ let refused = rw (read, closed) at e in absurd (cc)
          | inr (share, editable) ↦
              elim (Outcome-cases (new_expiration w changes.expiration false)) [
                | inl (x, late) ↦ let refused = rw (read, editable, late) at e in absurd (cc)
                | inr (date, parsed) ↦
                    elim (Outcome-cases
                      (create_security_update_input w changes.security share.security)) [
                        | inl (x, wrong) ↦
                            let refused = rw (read, editable, parsed, wrong) at e in absurd (cc)
                        | inr (write, right) ↦ elim (Outcome-cases (written_expiration date)) [
                          | inl (x, invalid) ↦
                              let refused = rw (read, editable, parsed, right, invalid) at e in
                              absurd (cc)
                          | inr (written, valid) ↦
                              let t = updated_share changes written write row in
                              let stored =
                                updated_row id (updated_share changes written write) row db found in
                              let again =
                                entity id user t (put_share id t db)
                                  (simp (P.find-write, ===-refl)) in
                              (
                                t,
                                date,
                                written,
                                parsed,
                                valid,
                                rw (read, editable, parsed, right, valid, stored, again)
                                    (simp (P.find-write, ===-refl)),
                                same_twice written row.expiration,
                              )
                        ]
                      ]
              ]
        ]
  ]

  -- Where a maximum expiration is set, a change of the expiration by somebody who is no administrator
  -- that succeeds leaves the share with a real date, and not after the maximum from now.
  pub update_expiration_bounded :
      (id text : String) (changes : ShareUpdate) (user : Option String) (s : Share) (db : Db P)
      → w.config.max_expiration.value ≢ 0
      → changes.expiration ≡ some text
      → (update w id changes user false db).0 ≡ done s
      → (t : Share) × (P.find id (update w id changes user false db).1.shares ≡ some t)
        × WithinMaximum w t.expiration
  update_expiration_bounded id text changes user s db limited asked e =
      let (t, date, written, parsed, valid, stored, is) = accepted id changes user s db e in
      let (d, there, taken) = new_date w text changes date written asked parsed valid in
      let at_date : t.expiration ≡ d = rw there at is in
      (t, stored, rw at_date (accepted_date w text d limited taken))

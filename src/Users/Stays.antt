-- ===== src/Users/Stays.antt =====
-- The operations on users keep what holds of every row, where it is said of the columns that they do
-- not write.
use better_pingvin_share.Prelude.{
  List, String, Bool, Option, none, some, inl, inr, arith, Bool-cases, Option-cases, ◌&&◌, ◌==◌,
  length,
}
use better_pingvin_share.Http.{Handler, ◌>>◌}
use better_pingvin_share.Http.Stays.{Stays, stays_rules}
use better_pingvin_share.Prisma.{Prisma}
use better_pingvin_share.Schema.{Db, User, Share}
use better_pingvin_share.World.{World}
use better_pingvin_share.Users.{delete, delete_user_row, admins, created_by, delete_files_of}
use better_pingvin_share.Users.Admins.{delete_files_of-users}
use better_pingvin_share.Prisma.Keyed.{select}
use better_pingvin_share.Users.Rows.{Account, update_user}
use better_pingvin_share.Users.Manage.{
  CreateUser, UpdateUser, LdapEntry, new_user, updated, create, update, first_password,
  send_invite_email, upsert, name_user, sync_email, ignoring_errors, find_or_create_from_ldap,
}
use better_pingvin_share.Users.Every.{
  EveryUser, Keeps-EveryUser, create_user-Stays, update_user-Stays,
}

-- What is said of a row holds of a new row, and does not speak of the columns of its names, its
-- password, its role and its LDAP entry.
pub record OfFactor (Q : User → Type 0) : Type 0 where
  pub fresh :
      (username email : String) (password : Option String) (is_admin : Bool) (dn : Option String)
      → Q (new_user username email password is_admin dn)
  pub kept :
      (u : User) (username email : String) (password : Option String) (is_admin : Bool)
      (dn : Option String)
      → Q u
      → Q (record u {
        username = username;
        email = email;
        password = password;
        is_admin = is_admin;
        ldap_dn = dn;
      })

module _ {P : Prisma} (w : World) {Q : User → Type 0} (q : OfFactor Q) where
  send_invite_email-Stays :
      (email : String) → Stays (EveryUser Q) (send_invite_email {P = P} w email)
  send_invite_email-Stays email =
      Keeps-EveryUser Q (send_invite_email {P = P} w email) (record { at = λ db. ground arith })

  first_password-Stays :
      (email : String) (p : Option String) → Stays (EveryUser Q) (first_password {P = P} w email p)
  first_password-Stays email none = search (stays_rules, send_invite_email-Stays)
  first_password-Stays email (some p) = search (stays_rules, send_invite_email-Stays)

  pub create-Stays : (dto : CreateUser) → Stays (EveryUser Q) (create {P = P} w dto)
  unfolding create
  create-Stays dto =
      search (stays_rules, first_password-Stays, create_user-Stays Q w w.fresh_user_id, q.fresh)

  ignoring_errors-Stays :
      {A : Type 0} (old : A) (m : Handler (Db P) A)
      → Stays (EveryUser Q) m
      → Stays (EveryUser Q) (ignoring_errors old m)
  ignoring_errors-Stays old m st = record { at = λ db every. st.at db every }

  pub update-Stays :
      (id : String) (dto : UpdateUser) → Stays (EveryUser Q) (update {P = P} w id dto)
  unfolding update
  update-Stays id dto = record {
    at = λ db every.
        (update_user-Stays Q w id (updated w dto) (λ u h. q.kept u _ _ _ _ _ h)).at db every;
  }

  renamed-Stays :
      (id username : String)
      → Stays (EveryUser Q) (update_user {P = P} w id λ u. record u { username = username })
  renamed-Stays id username = update_user-Stays Q w id _ (λ u h. q.kept u _ _ _ _ _ h)

  mailed-Stays :
      (id email : String)
      → Stays (EveryUser Q) (update_user {P = P} w id λ u. record u { email = email })
  mailed-Stays id email = update_user-Stays Q w id _ (λ u h. q.kept u _ _ _ _ _ h)

  listed-Stays :
      (id : String) (is_admin : Bool) (dn : Option String)
      → Stays
          (EveryUser Q)
          (update_user {P = P} w id λ u. record u { is_admin = is_admin; ldap_dn = dn })
  listed-Stays id is_admin dn = update_user-Stays Q w id _ (λ u h. q.kept u _ _ _ _ _ h)

  upsert-Stays :
      (username email : String) (is_admin : Bool) (entry : LdapEntry) (old : Option Account)
      → Stays (EveryUser Q) (upsert {P = P} w username email is_admin entry old)
  upsert-Stays username email is_admin entry none =
      search (stays_rules, create_user-Stays Q w w.fresh_user_id, q.fresh)
  upsert-Stays username email is_admin entry (some (id, u)) = search (stays_rules, listed-Stays)

  name_user-Stays :
      (placeholder : String) (a : Account) → Stays (EveryUser Q) (name_user {P = P} w placeholder a)
  name_user-Stays placeholder (id, u) = search (stays_rules, ignoring_errors-Stays, renamed-Stays)

  sync_email-Stays :
      (email : Option String) (a : Account) → Stays (EveryUser Q) (sync_email {P = P} w email a)
  sync_email-Stays none (id, u) = search stays_rules
  sync_email-Stays (some email) (id, u) = search (stays_rules, ignoring_errors-Stays, mailed-Stays)

  pub find_or_create_from_ldap-Stays :
      (email username : Option String) (entry : LdapEntry)
      → Stays (EveryUser Q) (find_or_create_from_ldap {P = P} w email username entry)
  unfolding find_or_create_from_ldap
  find_or_create_from_ldap-Stays email username entry =
      search (stays_rules, upsert-Stays, name_user-Stays, sync_email-Stays)

module _ {P : Prisma} {Q : User → Type 0} where
  delete_user_row-Stays : (id : String) → Stays (EveryUser Q) (delete_user_row {P = P} id)
  delete_user_row-Stays id = record {
    at = λ db every. elim (Option-cases (P.find id db.users)) [
      | inl missing ↦ rw (missing, delete_user_row) every
      | inr (u, found) ↦
          rw (found, delete_user_row)
            λ j v there. every j v (ground (arith, P.find-erase id j db.users))
    ];
  }

  delete_files_of-Stays :
      (l : List (String × Share)) → Stays (EveryUser Q) (delete_files_of {P = P} l)
  delete_files_of-Stays l =
      Keeps-EveryUser Q (delete_files_of l) (record { at = delete_files_of-users l })

  removal-Stays :
      (l : List (String × Share)) (id : String)
      → Stays (EveryUser Q) (do delete_files_of {P = P} l; delete_user_row id)
  removal-Stays l id = search (stays_rules, delete_files_of-Stays, delete_user_row-Stays)

  pub delete-Stays : (id : String) → Stays (EveryUser Q) (delete {P = P} id)
  unfolding delete
  delete-Stays id = record {
    at = λ db every. elim (Option-cases (P.find id db.users)) [
      | inl missing ↦ rw (missing, delete) every
      | inr (u, found) ↦
          rw (found, delete)
            (elim (Bool-cases (u.is_admin && length (admins (P.rows db.users)) == 1)) [
              | inl last ↦ rw last every
              | inr several ↦
                  rw several
                    ((removal-Stays (select (created_by id) (P.rows db.shares)) id).at db every)
            ])
    ];
  }

-- ===== src/Accounts/Links.antt =====
-- No account at another site is linked twice, after every sequence of calls.
use better_pingvin_share.Prelude.{
  String, Option, none, some, List, [], ◌∷◌, ◌≡◌, inl, inr, arith, refl, ◌∙◌, Bool-cases,
  Option-cases, ◌&&◌, ◌==◌, ◌===◌, length,
}
use better_pingvin_share.Http.{◌>>◌}
use better_pingvin_share.Http.Stays.{Stays, stays_rules}
use better_pingvin_share.Prisma.{Prisma}
use better_pingvin_share.Prisma.Keyed.{select}
use better_pingvin_share.Schema.{Db, Share, OauthUser}
use better_pingvin_share.World.{World}
use better_pingvin_share.FileStore.{delete_all_files, delete_local_files, delete_s3_files}
use better_pingvin_share.Users.{delete, delete_user_row, admins, created_by, delete_files_of}
use better_pingvin_share.Auth.{Totp}
use better_pingvin_share.Auth.Ldap.{LdapServer}
use better_pingvin_share.Oauth.Links.{LinkedOnce}
use better_pingvin_share.Oauth.Untouched.{sign_up-Keeps}
use better_pingvin_share.Oauth.Once.{oauth_sign_in-Stays, link-Stays, unlink-Stays}
use better_pingvin_share.Accounts.{
  Call, signs_up, signs_in, signs_in_totp, signs_in_by, refreshes, signs_out, asks_reset, resets,
  updates_password, enables, verifies, disables, creates, updates, deletes, links, unlinks, step,
  run_calls,
}
use better_pingvin_share.Accounts.Untouched.{
  create-Keeps, update-Keeps, sign_in-Keeps, request_reset_password-Keeps, update_password-Keeps,
  sign_out-Keeps, sign_in_totp-Keeps, reset_password-Keeps, refresh-Keeps, enable_totp-Keeps,
  verify_totp-Keeps, disable_totp-Keeps,
}
use better_pingvin_share.Oauth.Links.{Once}
use better_pingvin_share.Oauth.Once.{kept}

module _ {P : Prisma} where
  delete_all_files-links :
      (id : String) (provider : Option String) (db : Db P)
      → (delete_all_files id provider db).1.oauth_users ≡ db.oauth_users
  unfolding delete_all_files delete_local_files delete_s3_files
  delete_all_files-links id provider db = ground arith

  delete_files_of-links :
      (l : List (String × Share)) (db : Db P)
      → (delete_files_of l db).1.oauth_users ≡ db.oauth_users
  unfolding delete_files_of
  delete_files_of-links [] db = refl
  delete_files_of-links ((id, s) ∷ more) db =
      delete_files_of-links more (delete_all_files id none db).1 ∙ delete_all_files-links id none db

  -- With a user go the links of that user.
  delete_user_row-Stays : (id : String) → Stays LinkedOnce (delete_user_row {P = P} id)
  delete_user_row-Stays id = record {
    at = λ db once. elim (Option-cases (P.find id db.users)) [
      | inl missing ↦ rw (missing, delete_user_row) once
      | inr (u, found) ↦
          rw (found, delete_user_row)
            (λ j k a b ja kb same.
              once j k a b
                (ground (
                  arith,
                  P.find-erase_where (λ (o : OauthUser). o.user_id === id) j db.oauth_users,
                ))
                (ground (
                  arith,
                  P.find-erase_where (λ (o : OauthUser). o.user_id === id) k db.oauth_users,
                ))
                same)
    ];
  }

  delete_files_of-Stays : (l : List (String × Share)) → Stays LinkedOnce (delete_files_of {P = P} l)
  delete_files_of-Stays l = record { at = λ db once. rw (delete_files_of-links l db) once }

  removal-Stays :
      (l : List (String × Share)) (id : String)
      → Stays LinkedOnce (do delete_files_of {P = P} l; delete_user_row id)
  removal-Stays l id = search (stays_rules, delete_files_of-Stays, delete_user_row-Stays)

  delete-Stays : (id : String) → Stays LinkedOnce (delete {P = P} id)
  unfolding delete
  delete-Stays id = record {
    at = λ db once. elim (Option-cases (P.find id db.users)) [
      | inl missing ↦ rw (missing, delete) once
      | inr (u, found) ↦
          rw (found, delete)
            (elim (Bool-cases (u.is_admin && length (admins (P.rows db.users)) == 1)) [
              | inl last ↦ rw last once
              | inr several ↦
                  rw several
                    ((removal-Stays (select (created_by id) (P.rows db.shares)) id).at db once)
            ])
    ];
  }

module _ {P : Prisma} (server : LdapServer) (totp : Totp) where
  step-LinkedOnce :
      (db : Db P) (c : World × Call) → LinkedOnce db → LinkedOnce (step server totp db c)
  unfolding step
  step-LinkedOnce db (w, signs_up email username password) =
      (kept w (Once P) _ (sign_up-Keeps w email username (some password) none)).at db
  step-LinkedOnce db (w, signs_in dto) = (kept w (Once P) _ (sign_in-Keeps w server dto)).at db
  step-LinkedOnce db (w, signs_in_totp token code) =
      (kept w (Once P) _ (sign_in_totp-Keeps w totp token code)).at db
  step-LinkedOnce db (w, signs_in_by dto) = (oauth_sign_in-Stays w dto).at db
  step-LinkedOnce db (w, refreshes token) = (kept w (Once P) _ (refresh-Keeps w token)).at db
  step-LinkedOnce db (w, signs_out token) = (kept w (Once P) _ (sign_out-Keeps w token)).at db
  step-LinkedOnce db (w, asks_reset email) =
      (kept w (Once P) _ (request_reset_password-Keeps w email)).at db
  step-LinkedOnce db (w, resets token password) =
      (kept w (Once P) _ (reset_password-Keeps w token password)).at db
  step-LinkedOnce db (w, updates_password a password old) =
      (kept w (Once P) _ (update_password-Keeps w a password old)).at db
  step-LinkedOnce db (w, enables a password) =
      (kept w (Once P) _ (enable_totp-Keeps w server totp a password)).at db
  step-LinkedOnce db (w, verifies a password code) =
      (kept w (Once P) _ (verify_totp-Keeps w server totp a password code)).at db
  step-LinkedOnce db (w, disables a password code) =
      (kept w (Once P) _ (disable_totp-Keeps w server totp a password code)).at db
  step-LinkedOnce db (w, creates dto) = (kept w (Once P) _ (create-Keeps w dto)).at db
  step-LinkedOnce db (w, updates id dto) = (kept w (Once P) _ (update-Keeps w id dto)).at db
  step-LinkedOnce db (w, deletes id) = (delete-Stays id).at db
  step-LinkedOnce db (w, links user provider id name) = (link-Stays w user provider id name).at db
  step-LinkedOnce db (w, unlinks user provider) = (unlink-Stays user provider).at db

  -- Whatever calls on accounts come, in whatever order, and whether they succeed or fail: if no two links
  -- had the same account at another site before, no two have the same one afterwards.
  pub run_calls-LinkedOnce :
      (calls : List (World × Call)) (db : Db P)
      → LinkedOnce db
      → LinkedOnce (run_calls server totp db calls)
  unfolding run_calls
  run_calls-LinkedOnce [] db once = once
  run_calls-LinkedOnce (c ∷ more) db once =
      run_calls-LinkedOnce more (step server totp db c) (step-LinkedOnce db c once)

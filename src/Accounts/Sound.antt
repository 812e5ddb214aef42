-- ===== src/Accounts/Sound.antt =====
-- What holds of the users after every sequence of calls.
use better_pingvin_share.Prelude.{String, List, [], ◌∷◌, none, some, ◌≡◌, arith}
use better_pingvin_share.Prisma.{Prisma}
use better_pingvin_share.Schema.{Db}
use better_pingvin_share.World.{World}
use better_pingvin_share.Users.Every.{EveryUser}
use better_pingvin_share.Users.Stays.{create-Stays, update-Stays, delete-Stays}
use better_pingvin_share.Auth.{Totp, refresh_access_token}
use better_pingvin_share.Auth.Ldap.{LdapServer}
use better_pingvin_share.Auth.Stays.{
  sign_in-Stays, sign_up-Stays, request_reset_password-Stays, update_password-Stays, sign_out-Stays,
  sign_in_totp-Stays, reset_password-Stays,
}
use better_pingvin_share.Auth.Enrolled.{
  Enrolled, Enrolled-OfFactor, enable_totp-Stays, verify_totp-Stays, disable_totp-Stays,
}
use better_pingvin_share.Oauth.Stays.{oauth_sign_in-Stays, link-Stays, unlink-Stays}
use better_pingvin_share.Accounts.{
  Call, signs_up, signs_in, signs_in_totp, signs_in_by, refreshes, signs_out, asks_reset, resets,
  updates_password, enables, verifies, disables, creates, updates, deletes, links, unlinks, step,
  run_calls,
}

module _ {P : Prisma} (server : LdapServer) (totp : Totp) where
  refresh-keeps :
      (w : World) (token : String) (db : Db P) → (refresh_access_token w token db).1 ≡ db
  unfolding refresh_access_token
  refresh-keeps w token db = ground arith

  step-Enrolled :
      (db : Db P) (c : World × Call)
      → EveryUser Enrolled db
      → EveryUser Enrolled (step server totp db c)
  unfolding step
  step-Enrolled db (w, signs_up email username password) =
      (sign_up-Stays w Enrolled-OfFactor email username (some password) none).at db
  step-Enrolled db (w, signs_in dto) = (sign_in-Stays w Enrolled-OfFactor server dto).at db
  step-Enrolled db (w, signs_in_totp token code) =
      (sign_in_totp-Stays w Enrolled-OfFactor totp token code).at db
  step-Enrolled db (w, signs_in_by dto) = (oauth_sign_in-Stays w Enrolled-OfFactor dto).at db
  step-Enrolled db (w, refreshes token) = λ every. rw (refresh-keeps w token db) every
  step-Enrolled db (w, signs_out token) = (sign_out-Stays w Enrolled-OfFactor token).at db
  step-Enrolled db (w, asks_reset email) =
      (request_reset_password-Stays w Enrolled-OfFactor email).at db
  step-Enrolled db (w, resets token password) =
      (reset_password-Stays w Enrolled-OfFactor token password).at db
  step-Enrolled db (w, updates_password a password old) =
      (update_password-Stays w Enrolled-OfFactor a password old).at db
  step-Enrolled db (w, enables a password) = (enable_totp-Stays w server totp a password).at db
  step-Enrolled db (w, verifies a password code) =
      (verify_totp-Stays w server totp a password code).at db
  step-Enrolled db (w, disables a password code) =
      (disable_totp-Stays w server totp a password code).at db
  step-Enrolled db (w, creates dto) = (create-Stays w Enrolled-OfFactor dto).at db
  step-Enrolled db (w, updates id dto) = (update-Stays w Enrolled-OfFactor id dto).at db
  step-Enrolled db (w, deletes id) = (delete-Stays id).at db
  step-Enrolled db (w, links user provider id name) =
      (link-Stays w Enrolled-OfFactor user provider id name).at db
  step-Enrolled db (w, unlinks user provider) = (unlink-Stays user provider).at db

  -- Whatever calls on accounts come, in whatever order, and whether they succeed or fail: if every user
  -- who is asked for a code has had a secret to make it from, every user who is asked for one has a
  -- secret still.
  pub run_calls-Enrolled :
      (calls : List (World × Call)) (db : Db P)
      → EveryUser Enrolled db
      → EveryUser Enrolled (run_calls server totp db calls)
  unfolding run_calls
  run_calls-Enrolled [] db every = every
  run_calls-Enrolled (c ∷ more) db every =
      run_calls-Enrolled more (step server totp db c) (step-Enrolled db c every)

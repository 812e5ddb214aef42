-- ===== src/Auth/Sessions.antt =====
-- What ends a session, and how a forgotten password is replaced.
use better_pingvin_share.Prelude.{
  ℕ, String, true, false, Option, none, some, ◌≡◌, inl, inr, arith, refl, Option-cases, ◌===◌,
  eq_iff, ===-refl,
}
use better_pingvin_share.Http.{done, throw, unauthorized, Outcome-cases}
use better_pingvin_share.Prisma.{Prisma}
use better_pingvin_share.Schema.{Db, User, RefreshToken, ResetPasswordToken}
use better_pingvin_share.World.{World}
use better_pingvin_share.Users.Rows.{conflict, update_user}
use better_pingvin_share.Auth.{
  one_hour, create_access_token, create_refresh_token, refresh_access_token,
}
use better_pingvin_share.Auth.SignIn.{
  update_password, replace_password, old_password_right, sign_out,
}
use better_pingvin_share.Auth.Granted.{refresh_row}

abbrev with_password : World → String → User → User
with_password w password u = record u { password = some (w.argon.hash w.salt password) }

abbrev reset_row : World → String → ResetPasswordToken
reset_row w id = record { expires_at = w.moment.add w.now one_hour; user_id = id }

module _ {P : Prisma} where
  -- A refresh token that is not there is refused.
  absent_refused :
      (w : World) (token : String) (db : Db P)
      → P.find token db.refresh_tokens ≡ none
      → refresh_access_token w token db ≡ (throw (unauthorized "Unauthorized"), db)
  unfolding refresh_access_token
  absent_refused w token db gone = rw (gone, refresh_access_token) refl

  signed_out :
      (w : World) (time : ℕ) (id refresh : String) (u : User) (db : Db P)
      → (refresh === "") ≡ false
      → (sign_out (record w { now = time }) (create_access_token w id u refresh) db).1
        ≡ record db { refresh_tokens = P.erase refresh db.refresh_tokens }
  unfolding sign_out create_access_token
  signed_out w time id refresh u db real = rw (w.jwt.decode-sign, real) refl

  -- Signing out with an access token ends the session that the token belongs to: its refresh token is
  -- refused from then on. The access token may have expired.
  pub sign_out_ends_session :
      (w later : World) (time : ℕ) (id refresh : String) (u : User) (db : Db P)
      → (refresh === "") ≡ false
      → (refresh_access_token later refresh
          (sign_out (record w { now = time }) (create_access_token w id u refresh) db).1).0
        ≡ throw (unauthorized "Unauthorized")
  sign_out_ends_session w later time id refresh u db real =
      rw
        (
          signed_out w time id refresh u db real,
          absent_refused later refresh
              (record db { refresh_tokens = P.erase refresh db.refresh_tokens })
              (ground (arith, P.find-erase refresh refresh db.refresh_tokens, ===-refl refresh)),
        )
        refl

  -- The state after a password was replaced
  abbrev with_new_password : World → String → String → User → Db P → Db P
  with_new_password w id password u db = record db {
    users = P.write id (with_password w password u) db.users;
    refresh_tokens =
        P.write w.fresh_id (refresh_row w id none)
          (P.erase_where (λ (t : RefreshToken). t.user_id === id) db.refresh_tokens);
  }

  replaced :
      (w : World) (id password : String) (db : Db P) (fresh : String)
      → (replace_password w id password db).0 ≡ done fresh
      → (u : User) × ((replace_password w id password db).1 ≡ with_new_password w id password u db)
  unfolding update_user create_refresh_token
  replaced w id password db fresh e = elim (Option-cases (P.find id db.users)) [
    | inl missing ↦ absurd (ground arith)
    | inr (u, found) ↦ elim (Option-cases (conflict w id (with_password w password u) db)) [
      | inl free ↦ (u, ground arith)
      | inr (column, taken) ↦ absurd (ground arith)
    ]
  ]

  updated :
      (w : World) (id password fresh : String) (u : User) (old : Option String) (db : Db P)
      → (update_password w (id, u) password old db).0 ≡ done fresh
      → (v : User) × ((update_password w (id, u) password old db).1
          ≡ with_new_password w id password v db)
  unfolding update_password
  updated w id password fresh u old db e = elim (Outcome-cases (old_password_right w u old)) [
    | inl (error, failed) ↦ let refused = rw failed at e in absurd (cc)
    | inr (true, right) ↦ rw right (replaced w id password db fresh (rw right at e))
    | inr (false, wrong) ↦ let refused = rw wrong at e in absurd (cc)
  ]

  -- A changed password ends the other sessions of the user: after a change that succeeded, every
  -- refresh token that the user had is refused, but for one spelled like the new one, and the user's
  -- stored hash verifies the new password.
  pub update_password_ends_sessions :
      (w later : World) (id password fresh token : String) (u : User) (old : Option String)
      (t : RefreshToken) (db : Db P)
      → (update_password w (id, u) password old db).0 ≡ done fresh
      → P.find token db.refresh_tokens ≡ some t
      → t.user_id ≡ id
      → (w.fresh_id === token) ≡ false
      → ((refresh_access_token later token (update_password w (id, u) password old db).1).0
          ≡ throw (unauthorized "Unauthorized"))
        × ((v : User) × (hash : String) × (P.find id
                (update_password w (id, u) password old db).1.users
              ≡ some (record v { password = some hash }))
            × (w.argon.verify hash password ≡ true))
  update_password_ends_sessions w later id password fresh token u old t db e found owned other =
      let (v, state) = updated w id password fresh u old db e in
      rw
        (
          state,
          absent_refused later token (with_new_password w id password v db) (
              ground (
                arith,
                P.find-write w.fresh_id token (refresh_row w id none)
                    (P.erase_where (λ (t : RefreshToken). t.user_id === id) db.refresh_tokens),
                P.find-erase_where (λ (t : RefreshToken). t.user_id === id) token db.refresh_tokens,
                eq_iff t.user_id id,
              )),
        )
        (
          refl,
          (
            v,
            w.argon.hash w.salt password,
            ground (arith, P.find-write id id (with_password w password v) db.users, ===-refl id),
            w.argon.verify-hash w.salt password,
          ),
        )

-- ===== src/Auth/Enrolled.antt =====
-- Whoever is asked for a code has a secret to make it from.
use better_pingvin_share.Prelude.{
  String, true, false, none, some, ◌≡◌, inl, inr, arith, Bool-cases, Option-cases, ◌===◌, refl,
}
use better_pingvin_share.Http.{
  done, HttpError, bad_request, Handler, pure, ◌>>=◌, ◌>>◌, Outcome-cases,
}
use better_pingvin_share.Http.Stays.{Stays, Stays-check, continue-pure, Stays-bind, stays_rules}
use better_pingvin_share.Prisma.{Prisma}
use better_pingvin_share.Schema.{Db, User}
use better_pingvin_share.World.{World}
use better_pingvin_share.Users.Rows.{Account, update_user}
use better_pingvin_share.Users.Every.{EveryUser, update_user_at}
use better_pingvin_share.Users.Stays.{OfFactor}
use better_pingvin_share.Auth.{Totp}
use better_pingvin_share.Auth.Ldap.{LdapServer}
use better_pingvin_share.Auth.SecondFactor.{
  stored_secret, not_verified, check_password, check_code, check_unverified, store_secret,
  clear_secret, set_verified, enable_totp, verify_totp, disable_totp,
}

abbrev pub Enrolled : User → Type 0
Enrolled u =
    u.totp_verified ≡ true
    → (secret : String) × (u.totp_secret ≡ some secret) × ((secret === "") ≡ false)

pub Enrolled-OfFactor : OfFactor Enrolled
Enrolled-OfFactor = record {
  fresh = λ username email password is_admin dn verified. absurd (ground arith);
  kept = λ u username email password is_admin dn h verified. h verified;
}

unverified : (u : User) → not_verified (some u) ≡ done tt → u.totp_verified ≡ false
unverified u e = ground arith

secret_there :
    (missing : HttpError) (u : User) (secret : String)
    → stored_secret missing (some u) ≡ done secret
    → (u.totp_secret ≡ some secret) × ((secret === "") ≡ false)
secret_there missing u secret e = elim (Option-cases u.totp_secret) [
  | inl none_there ↦ absurd (ground arith)
  | inr (s, there) ↦ elim (Bool-cases (s === "")) [
    | inl empty ↦ absurd (ground arith)
    | inr real ↦ (ground arith, ground arith)
  ]
]

then_returned :
    {P : Prisma} {A B : Type 0} (m : Handler (Db P) A) (b : B) (db : Db P)
    → EveryUser Enrolled (m db).1
    → EveryUser Enrolled ((m >>= λ a. pure b) db).1
then_returned m b db every = rw (continue-pure (m db).0 b (m db).1) every

module _ {P : Prisma} (w : World) (server : LdapServer) (totp : Totp) where
  check_password-same :
      (u : User) (password : String) (db : Db P) → (check_password w server u password db).1 ≡ db
  check_password-same u password db = ground arith

  check_password-Stays :
      (u : User) (password : String)
      → Stays (EveryUser Enrolled) (check_password {P = P} w server u password)
  check_password-Stays u password = search stays_rules

  check_code-same :
      (missing : HttpError) (a : Account) (password code : String) (db : Db P)
      → (check_code w server totp missing a password code db).1 ≡ db
  check_code-same missing (id, u) password code db = ground arith

  check_code-Stays :
      (missing : HttpError) (a : Account) (password code : String)
      → Stays (EveryUser Enrolled) (check_code {P = P} w server totp missing a password code)
  check_code-Stays missing (id, u) password code = record {
    at = λ db every. rw (check_code-same missing (id, u) password code db) every;
  }

  -- A code that passes was checked by the secret that the row has.
  check_code_done :
      (missing : HttpError) (id : String) (u : User) (password code : String) (db : Db P)
      → (check_code w server totp missing (id, u) password code db).0 ≡ done tt
      → (secret : String) × (stored_secret missing (P.find id db.users) ≡ done secret)
  check_code_done missing id u password code db e =
      elim (Outcome-cases (stored_secret missing (P.find id db.users))) [
        | inl (error, none_there) ↦ absurd (ground arith)
        | inr (secret, there) ↦ (secret, there)
      ]

  -- The row that the checks of `enable_totp` have read is not verified yet.
  enabled-Stays :
      (id : String)
      → Stays (EveryUser Enrolled) (do check_unverified {P = P} id; store_secret w server totp id)
  enabled-Stays id =
      Stays-check (EveryUser Enrolled) (check_unverified id) (λ u. store_secret w server totp id)
        (λ db. refl)
        λ db a e every.
          then_returned
            (update_user w id
              λ v. record v { totp_enabled = true; totp_secret = some totp.generate_secret })
            totp.generate_secret db
            (update_user_at Enrolled w id
              (λ v. record v { totp_enabled = true; totp_secret = some totp.generate_secret }) db
              every (λ u found h verified. absurd (ground (arith, found, unverified u))))

  pub enable_totp-Stays :
      (a : Account) (password : String)
      → Stays (EveryUser Enrolled) (enable_totp {P = P} w server totp a password)
  unfolding enable_totp
  enable_totp-Stays (id, u) password =
      Stays-bind (check_password w server u password)
        (λ t. do check_unverified id; store_secret w server totp id)
        (check_password-Stays u password) (λ t. enabled-Stays id)

  pub disable_totp-Stays :
      (a : Account) (password code : String)
      → Stays (EveryUser Enrolled) (disable_totp {P = P} w server totp a password code)
  unfolding disable_totp
  disable_totp-Stays (id, u) password code =
      Stays-bind
        (check_code w server totp (bad_request "TOTP is not enabled") (id, u) password code)
        (λ t. clear_secret w server id) (check_code-Stays _ (id, u) password code)
        λ t. record {
          at = λ db every.
              then_returned
                (update_user w id
                  λ v. record v { totp_verified = false; totp_enabled = false; totp_secret = none })
                true db
                (update_user_at Enrolled w id
                  (λ v. record v {
                    totp_verified = false;
                    totp_enabled = false;
                    totp_secret = none;
                  })
                  db every (λ v found h verified. absurd (ground arith)));
        }

  pub verify_totp-Stays :
      (a : Account) (password code : String)
      → Stays (EveryUser Enrolled) (verify_totp {P = P} w server totp a password code)
  unfolding verify_totp
  verify_totp-Stays (id, u) password code =
      Stays-check (EveryUser Enrolled)
        (check_code w server totp (bad_request "TOTP is not in progress") (id, u) password code)
        (λ t. set_verified w server id) (check_code-same _ (id, u) password code)
        λ db a e every.
          then_returned (update_user w id λ v. record v { totp_verified = true }) true db (
            update_user_at Enrolled w id (λ v. record v { totp_verified = true }) db every
              (λ v found h verified.
                let (secret, there) = check_code_done _ id u password code db e in
                let (stored, real) = secret_there _ v secret (rw found at there) in
                (secret, stored, real)))

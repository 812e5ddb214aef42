-- ===== src/Auth/SecondFactor.antt =====
-- backend/src/auth/authTotp.service.ts: enableTotp, verifyTotp and disableTotp. The secret's address
-- and picture that enableTotp returns are made by packages from the secret.
use better_pingvin_share.Prelude.{
  String, Bool, true, false, Option, none, some, if◌then◌else◌, ◌===◌,
}
use better_pingvin_share.Http.{
  Outcome, done, throw, Handler, HttpError, forbidden, bad_request, type_error, pure, raise, lift,
  ◌>>=◌, ◌>>◌,
}
use better_pingvin_share.Prisma.{Prisma}
use better_pingvin_share.Schema.{Db, User}
use better_pingvin_share.World.{World}
use better_pingvin_share.Users.Rows.{Account, update_user}
use better_pingvin_share.Auth.{Totp}
use better_pingvin_share.Auth.Ldap.{LdapServer}
use better_pingvin_share.Auth.SignIn.{verify_password}

-- The secret of a user's row as it stands in the table
abbrev pub stored_secret : HttpError → Option User → Outcome String
stored_secret missing none = throw type_error
stored_secret missing (some u) = elim u.totp_secret [
  | none ↦ throw missing
  | some secret ↦ if secret === "" then throw missing else done secret
]

abbrev pub not_verified : Option User → Outcome (Unit {0})
not_verified none = throw type_error
not_verified (some u) =
    if u.totp_verified then throw (bad_request "TOTP is already enabled") else done tt

module _ {P : Prisma} where
  abbrev pub check_unverified : String → Handler (Db P) Unit
  check_unverified id db = (not_verified (P.find id db.users), db)

  abbrev pub read_secret : HttpError → String → Handler (Db P) String
  read_secret missing id db = (stored_secret missing (P.find id db.users), db)

module _ {P : Prisma} (w : World) (server : LdapServer) where
  abbrev pub check_password : User → String → Handler (Db P) Unit
  check_password u password = do
    right ← lift (verify_password w server u password)
    if right then pure tt else raise (forbidden "Invalid password" none)

  abbrev pub store_secret : Totp → String → Handler (Db P) String
  store_secret totp id = do
    update_user w id
        (λ v. record v { totp_enabled = true; totp_secret = some totp.generate_secret })
    pure totp.generate_secret

  unfoldable pub enable_totp : Totp → Account → String → Handler (Db P) String
  unfolding update_user
  enable_totp totp (id, u) password = do
    check_password u password
    check_unverified id
    store_secret totp id

  -- The checks that verifyTotp and disableTotp share
  abbrev pub check_code : Totp → HttpError → Account → String → String → Handler (Db P) Unit
  check_code totp missing (id, u) password code = do
    check_password u password
    secret ← read_secret missing id
    if code === totp.generate secret then pure tt else raise (bad_request "Invalid code")

  abbrev pub set_verified : String → Handler (Db P) Bool
  set_verified id = do update_user w id (λ v. record v { totp_verified = true }); pure true

  unfoldable pub verify_totp : Totp → Account → String → String → Handler (Db P) Bool
  unfolding update_user
  verify_totp totp (id, u) password code = do
    check_code totp (bad_request "TOTP is not in progress") (id, u) password code
    set_verified id

  abbrev pub clear_secret : String → Handler (Db P) Bool
  clear_secret id = do
    update_user w id
        (λ v. record v { totp_verified = false; totp_enabled = false; totp_secret = none })
    pure true

  unfoldable pub disable_totp : Totp → Account → String → String → Handler (Db P) Bool
  unfolding update_user
  disable_totp totp (id, u) password code = do
    check_code totp (bad_request "TOTP is not enabled") (id, u) password code
    clear_secret id

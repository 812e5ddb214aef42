-- ===== src/Users/Manage.antt =====
-- backend/src/user/user.service.ts: create, update and findOrCreateFromLDAP.
use better_pingvin_share.Prelude.{
  String, Bool, false, ◌||◌, not, Option, none, some, List, [], ◌∷◌, if◌then◌else◌, ◌===◌, truthy,
  includes,
}
use better_pingvin_share.Text.{◌⧺◌}
use better_pingvin_share.Http.{
  Outcome, done, throw, Handler, HttpError, prisma_error, internal_server_error, pure, raise, gets,
  ◌>>=◌, ◌>>◌,
}
use better_pingvin_share.Prisma.{Prisma}
use better_pingvin_share.Schema.{Db, User, mail_invite}
use better_pingvin_share.Store.{start}
use better_pingvin_share.World.{World}
use better_pingvin_share.Users.Rows.{Account, shares_ldap_dn, first_user, create_user, update_user}

-- A new row has the defaults of the schema.
abbrev pub new_user : String → String → Option String → Bool → Option String → User
new_user username email password is_admin ldap_dn = record {
  username = username;
  email = email;
  password = password;
  is_admin = is_admin;
  ldap_dn = ldap_dn;
  totp_enabled = false;
  totp_verified = false;
  totp_secret = none;
}

pub record CreateUser : Type 0 where
  pub username : String
  pub email : String
  pub is_admin : Bool
  pub password : Option String

pub record UpdateUser : Type 0 where
  pub username : Option String
  pub email : Option String
  pub is_admin : Option Bool
  pub password : Option String

abbrev pub given {ℓ} : {A : Type ℓ} → Option A → A → A
given none old = old
given (some a) old = a

-- The columns that an update speaks of; `password && hash` is `""` where the password is empty.
abbrev pub hashed : World → Option String → Option String
hashed w none = none
hashed w (some p) = some (if p === "" then "" else w.argon.hash w.salt p)

abbrev pub replaced {ℓ} : {A : Type ℓ} → Option A → Option A → Option A
replaced none old = old
replaced (some a) old = some a

abbrev pub updated : World → UpdateUser → User → User
updated w dto u = record u {
  username = given dto.username u.username;
  email = given dto.email u.email;
  is_admin = given dto.is_admin u.is_admin;
  password = replaced (hashed w dto.password) u.password;
}

-- An entry of the LDAP server: a value stands for the list of it.
pub record LdapEntry : Type 0 where
  pub dn : String
  pub attributes : String → Option (List String)

abbrev pub in_group : String → Option (List String) → Bool
in_group group none = false
in_group group (some groups) = includes groups group

-- The first value, where it is not empty
abbrev pub first_value : Option (List String) → Option String
first_value none = none
first_value (some []) = none
first_value (some (v ∷ more)) = if v === "" then none else some v

abbrev pub user_email : World → Option String → LdapEntry → Option String
user_email w provided entry =
    if truthy provided
    then provided
    else first_value (entry.attributes w.config.ldap_field_name_email)

-- `catch` of an error: nothing comes of it.
abbrev pub or_else {ℓ} : {A : Type ℓ} → A → Outcome A → Outcome A
or_else old (done a) = done a
or_else old (throw e) = done old

abbrev pub ignoring_errors {ℓ} : {S A : Type ℓ} → A → Handler S A → Handler S A
ignoring_errors old m s = let (r, s') = m s in (or_else old r, s')

-- The `catch` of `update` throws P2002 again, as `bad_request`, and drops any other error.
abbrev pub client_error : HttpError → Outcome (Option User)
client_error (prisma_error code) = done none
client_error e = throw e

abbrev pub caught_update : Outcome User → Outcome (Option User)
caught_update (done u) = done (some u)
caught_update (throw e) = client_error e

module _ {P : Prisma} (w : World) where
  -- `sendInviteEmail`: refused where mails are not enabled
  abbrev pub send_invite_email : String → Handler (Db P) Unit
  send_invite_email email =
      if not w.config.smtp_enabled
      then raise (internal_server_error "SMTP is disabled")
      else if w.delivers_to email
      then start (mail_invite email w.random_uuid)
      else raise (internal_server_error "Failed to send email")

  -- The password of a new user, drawn and sent where none is given
  abbrev pub first_password : String → Option String → Handler (Db P) String
  first_password email none = do send_invite_email email; pure (w.argon.hash w.salt w.random_uuid)
  first_password email (some p) =
      if p === ""
      then (do send_invite_email email; pure (w.argon.hash w.salt w.random_uuid))
      else pure (w.argon.hash w.salt p)

  -- `create` of the service
  unfoldable pub create : CreateUser → Handler (Db P) User
  unfolding create_user
  create dto = do
    hash ← first_password dto.email dto.password
    create_user w w.fresh_user_id (new_user dto.username dto.email (some hash) dto.is_admin none)

  -- `update` of the service: any other error of the client is dropped, and nothing is returned.
  unfoldable pub update : String → UpdateUser → Handler (Db P) (Option User)
  unfolding update_user
  update id dto db = let (r, db') = update_user w id (updated w dto) db in (caught_update r, db')

  -- The upsert by the name of the LDAP entry
  abbrev pub upsert : String → String → Bool → LdapEntry → Option Account → Handler (Db P) Account
  upsert username email is_admin entry (some (id, u)) = do
    v ← update_user w id (λ row. record row { is_admin = is_admin; ldap_dn = some entry.dn })
    pure (id, v)
  upsert username email is_admin entry none = do
    v ← create_user w w.fresh_user_id (
        new_user username email (some (w.argon.hash w.salt w.random_uuid)) is_admin (some entry.dn))
    pure (w.fresh_user_id, v)

  abbrev pub name_user : String → Account → Handler (Db P) Account
  name_user placeholder (id, u) =
      if u.username === placeholder
      then (do
        v ← ignoring_errors u (update_user w id λ row. record row { username = "user_" ⧺ id })
        pure (id, record u { username = v.username }))
      else pure (id, u)

  abbrev pub sync_email : Option String → Account → Handler (Db P) Account
  sync_email none (id, u) = pure (id, u)
  sync_email (some email) (id, u) = if email === u.email || email === "" then pure (id, u) else (do
    v ← ignoring_errors u (update_user w id λ row. record row { email = email })
    pure (id, record u { email = v.email }))

  unfoldable pub find_or_create_from_ldap :
      Option String → Option String → LdapEntry → Handler (Db P) Account
  unfolding create_user update_user
  find_or_create_from_ldap email username entry = do
    let is_admin =
        in_group w.config.ldap_admin_groups (entry.attributes w.config.ldap_field_name_member_of)
    let mail = user_email w email entry
    let placeholder = "ldap_user_" ⧺ w.random_uuid
    old ← gets (λ (db : Db P). first_user (shares_ldap_dn (some entry.dn)) db)
    made ←
        upsert (given username placeholder) (given mail (w.random_uuid ⧺ "@ldap.local")) is_admin
          entry old
    named ← name_user placeholder made
    sync_email mail named

-- ===== src/Oauth.antt =====
-- backend/src/oauth: the accounts at other sites that users sign in by (oauth.service.ts), and the guards
-- and the callback of oauth.controller.ts. What a provider answers about an account is a parameter.
mod Tests
pub mod Names
pub mod Links
pub mod Untouched
pub mod Once
pub mod Signed
pub mod Stays
use Prim.Native.Char.{Char, code}
use better_pingvin_share.Prelude.{
  ℕ, zero, suc, ◌+◌, ◌≤◌, String, Bool, true, false, not, ◌&&◌, ◌||◌, Option, none, some, List, [],
  ◌∷◌, leb, ltb, ◌==◌, ◌===◌, same_id, if◌then◌else◌, truthy, keep, includes,
}
use better_pingvin_share.Text.{◌⧺◌, count_chars, keep_chars, take_chars}
use better_pingvin_share.Http.{
  done, throw, Handler, HttpError, internal_server_error, type_error, error_page, pure, raise, gets,
  ◌>>=◌, ◌>>◌,
}
use better_pingvin_share.Prisma.{Prisma}
use better_pingvin_share.Prisma.Keyed.{select}
use better_pingvin_share.Schema.{Db, User, OauthUser}
use better_pingvin_share.Store.{first_row}
use better_pingvin_share.World.{World}
use better_pingvin_share.Users.Rows.{
  Account, any_row, has_username, has_email, first_user, update_user,
}
use better_pingvin_share.Auth.{Session}
use better_pingvin_share.Auth.SignIn.{Granted, session, generate_token, sign_up}

pub record OauthSignIn : Type 0 where
  pub provider : String
  pub provider_id : String
  pub provider_username : String
  pub email : Option String
  pub is_admin : Option Bool
  pub id_token : Option String

abbrev pub is_account : String → String → OauthUser → Bool
is_account provider id o = o.provider === provider && o.provider_user_id === id

abbrev pub linked_by : String → String → OauthUser → Bool
linked_by user provider o = o.user_id === user && o.provider === provider

-- /[^a-zA-Z0-9._]/
abbrev pub is_username_char : Char → Bool
is_username_char c =
    leb b'a' (code c) && leb (code c) b'z'
    || leb b'A' (code c) && leb (code c) b'Z'
    || leb b'0' (code c) && leb (code c) b'9'
    || code c == b'.'
    || code c == b'_'

abbrev pub preferred : String → String
preferred name = take_chars 20 (keep_chars is_username_char name)

-- The loop of `getAvailableUsername` over the rows of the users, with the draws from a place on: each
-- round that finds a user of the name adds one more draw. `none` means that the rounds ran out.
unfoldable pub find_username : ℕ → (ℕ → String) → ℕ → List Account → String → Option String
find_username zero draws i rows name = none
find_username (suc rounds) draws i rows name =
    let longer = find_username rounds draws (i + 1) rows (name ⧺ "_" ⧺ draws i) in
    if any_row (has_username name) rows then longer else some name

-- The length of the longest username
unfoldable pub longest : List Account → ℕ
longest [] = 0
longest ((k, u) ∷ l) =
    let rest = longest l in
    if ltb rest (count_chars u.username) then count_chars u.username else rest

-- Once the name is longer than any other, it is free.
unfoldable pub get_available_username : (ℕ → String) → List Account → String → Option String
unfolding find_username longest
get_available_username draws rows name =
    find_username (suc (suc (longest rows))) draws 0 rows (preferred name)

abbrev pub is_admin_asked : Option Bool → Bool
is_admin_asked none = false
is_admin_asked (some b) = b

-- `available`
abbrev pub available : World → List String → List String
available w platforms = keep w.config.oauth_enabled platforms

-- `ProviderGuard`, and `OAuthGuard` on the state of the query and that of the cookie
abbrev pub provider_guard : World → List String → String → Bool
provider_guard w platforms provider = includes platforms provider && w.config.oauth_enabled provider

abbrev pub oauth_guard : Option String → Option String → Bool
oauth_guard none none = true
oauth_guard (some a) (some b) = a === b
oauth_guard none (some b) = false
oauth_guard (some a) none = false

module _ {P : Prisma} where
  -- `prisma.oAuthUser.findFirst({ where })`
  abbrev pub first_link : (OauthUser → Bool) → Db P → Option (String × OauthUser)
  first_link p db = first_row (select p (P.rows db.oauth_users))

  abbrev pub put_link : String → OauthUser → Db P → Db P
  put_link id o db = record db { oauth_users = P.write id o db.oauth_users }

  abbrev pub create_link : World → OauthUser → Handler (Db P) Unit
  create_link w o db = (done tt, put_link w.fresh_link_id o db)

  -- `link`
  abbrev pub link_unless : World → OauthUser → Option (String × OauthUser) → Handler (Db P) Unit
  link_unless w o none = create_link w o
  link_unless w o (some old) = raise (error_page "already_linked")

  unfoldable pub link : World → String → String → String → String → Handler (Db P) Unit
  link w user provider id name db =
      link_unless w
        (record {
          provider = provider;
          provider_user_id = id;
          provider_username = name;
          user_id = user;
        })
        (first_link (is_account provider id) db) db

  -- `unlink`
  abbrev pub unlink_row : Option (String × OauthUser) → Handler (Db P) Unit
  unlink_row none db = (throw (error_page "not_linked"), db)
  unlink_row (some (k, o)) db = (done tt, record db { oauth_users = P.erase k db.oauth_users })

  unfoldable pub unlink : String → String → Handler (Db P) Unit
  unlink user provider db = unlink_row (first_link (linked_by user provider) db) db

abbrev pub account_link : OauthSignIn → String → OauthUser
account_link dto user = record {
  provider = dto.provider;
  provider_user_id = dto.provider_id;
  provider_username = dto.provider_username;
  user_id = user;
}

module _ {P : Prisma} (w : World) where
  -- `updateIsAdmin`: the role is given, and never taken.
  abbrev pub update_is_admin : String → Option Bool → Handler (Db P) Unit
  update_is_admin id is_admin =
      if is_admin_asked is_admin
      then (do update_user w id (λ u. record u { is_admin = true }); pure tt)
      else pure tt

  abbrev pub grant_row : String → Option User → OauthSignIn → Handler (Db P) Granted
  grant_row id none dto = raise type_error
  grant_row id (some u) dto = generate_token w id u (some dto.id_token)

  -- The sign-in of the user that the account is linked to
  abbrev pub sign_in_linked : OauthSignIn → OauthUser → Handler (Db P) Granted
  sign_in_linked dto o = do
    update_is_admin o.user_id dto.is_admin
    u ← gets (λ (db : Db P). P.find o.user_id db.users)
    grant_row o.user_id u dto

  -- An account with the address of a user is linked to that user.
  -- The tokens are made of the row as it was read before the role was given.
  abbrev pub promote_and_grant : OauthSignIn → String → User → Handler (Db P) Granted
  promote_and_grant dto id u = do
    update_is_admin id dto.is_admin
    generate_token w id u (some dto.id_token)

  abbrev pub join_user : OauthSignIn → Account → Handler (Db P) Granted
  join_user dto (id, u) = do create_link w (account_link dto id); promote_and_grant dto id u

  abbrev pub link_made : OauthSignIn → Account × Session → Handler (Db P) Granted
  link_made dto ((id, u), tokens) = do create_link w (account_link dto id); pure (session tokens)

  abbrev pub register_as : OauthSignIn → String → Option String → Handler (Db P) Granted
  register_as dto email none = raise (internal_server_error "no username")
  register_as dto email (some name) = do
    made ← sign_up w email name none dto.is_admin
    link_made dto made

  abbrev pub register : OauthSignIn → String → Option Account → Handler (Db P) Granted
  register dto email (some a) = join_user dto a
  register dto email none = do
    name ←
        gets
          (λ (db : Db P). get_available_username w.nanoid (P.rows db.users) dto.provider_username)
    register_as dto email name

  -- `signUp` of the service
  abbrev pub oauth_sign_up : OauthSignIn → Option String → Handler (Db P) Granted
  oauth_sign_up dto none = raise (error_page "no_email")
  oauth_sign_up dto (some email) =
      if email === ""
      then raise (error_page "no_email")
      else (do old ← gets (λ (db : Db P). first_user (has_email email) db); register dto email old)

  abbrev pub sign_up_allowed : OauthSignIn → Handler (Db P) Granted
  sign_up_allowed dto =
      if not w.config.oauth_allow_registration
      then raise (error_page "no_user")
      else oauth_sign_up dto dto.email

  abbrev pub by_link : OauthSignIn → Option (String × OauthUser) → Handler (Db P) Granted
  by_link dto none = sign_up_allowed dto
  by_link dto (some (k, o)) = sign_in_linked dto o

  -- `signIn` of the service
  unfoldable pub oauth_sign_in : OauthSignIn → Handler (Db P) Granted
  unfolding generate_token sign_up update_user get_available_username
  oauth_sign_in dto = do
    linked ← gets (λ (db : Db P). first_link (is_account dto.provider dto.provider_id) db)
    by_link dto linked

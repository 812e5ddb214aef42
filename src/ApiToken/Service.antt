-- ===== src/ApiToken/Service.antt =====
-- backend/src/apiToken/apiToken.service.ts: tokens are given out, revoked, and checked against the
-- header of a request.
pub mod Admitted
pub mod Issued
mod Tests
use better_pingvin_share.Prelude.{
  ℕ, String, Bool, true, false, not, ◌||◌, ◌==◌, Option, none, some, List, [], ◌∷◌, length, leb,
  ◌===◌, if◌then◌else◌, truthy,
}
use better_pingvin_share.Http.{
  Outcome, done, throw, Handler, bad_request, unauthorized, not_found, prisma_error, pure, lift,
  throw_if, ◌>>=◌, ◌>>◌,
}
use better_pingvin_share.Prisma.{Prisma}
use better_pingvin_share.Schema.{Db, ApiToken, User}
use better_pingvin_share.World.{World}
use better_pingvin_share.ApiToken.{parse_api_token, token_text}
use better_pingvin_share.ApiToken.Scopes.{
  normalize_api_token_scopes, serialize_api_token_scopes, deserialize_api_token_scopes,
}

-- What `createForUser` is asked, what it tells of the token, and who a request acts as
pub record TokenRequest : Type 0 where
  pub user_id : String
  pub name : String
  pub scopes : List String
  pub expires_at : Option String

pub record CreatedToken : Type 0 where
  pub id : String
  pub row : ApiToken
  pub token : String

pub record ApiPrincipal : Type 0 where
  pub token_id : String
  pub scopes : List String
  pub user : User

-- `hashSecret`
abbrev pub hash_secret : World → String → String
hash_secret w secret = w.hmac w.config.api_token_secret secret

-- The date of the expiry, which must be one and lie ahead; an empty text is none.
abbrev pub future_date : World → Option ℕ → Outcome (Option ℕ)
future_date w none = throw (bad_request "Invalid expiration date")
future_date w (some date) =
    if leb date w.now
    then throw (bad_request "Expiration date must be in the future")
    else done (some date)

unfoldable pub expiration_date : World → Option String → Outcome (Option ℕ)
expiration_date w none = done none
expiration_date w (some text) = if text === "" then done none else future_date w (w.parse_date text)

abbrev pub is_none : List String → Bool
is_none l = length l == 0

abbrev pub is_some {ℓ} : {A : Type ℓ} → Option A → Bool
is_some none = false
is_some (some a) = true

-- `token.expiresAt && token.expiresAt <= new Date()`
abbrev pub token_expired : ℕ → Option ℕ → Bool
token_expired now none = false
token_expired now (some date) = leb date now

module _ (w : World) where
  abbrev pub new_token : TokenRequest → Option ℕ → ApiToken
  new_token request expires_at = record {
    name = request.name;
    secret_hash = hash_secret w w.random_text;
    scopes = serialize_api_token_scopes (normalize_api_token_scopes request.scopes);
    expires_at = expires_at;
    revoked_at = none;
    user_id = request.user_id;
  }

  -- The checks of `validateAuthorizationHeader` on a token and its user
  abbrev pub check_token : String → String → ApiToken → Option User → Outcome ApiPrincipal
  check_token token_id secret row none = throw (unauthorized "Invalid API token")
  check_token token_id secret row (some user) =
      if is_some row.revoked_at
      then throw (unauthorized "Invalid API token")
      else if token_expired w.now row.expires_at
      then throw (unauthorized "API token expired")
      else if not (hash_secret w secret === row.secret_hash)
      then throw (unauthorized "Invalid API token")
      else done (record {
        token_id = token_id;
        scopes = deserialize_api_token_scopes row.scopes;
        user = user;
      })

module _ {P : Prisma} (w : World) where
  -- `prisma.apiToken.create`, under an id that the client draws
  abbrev pub create_token : ApiToken → Handler (Db P) CreatedToken
  create_token row db = elim (P.find w.fresh_id db.api_tokens) [
    | some old ↦ (throw (prisma_error "P2002"), db)
    | none ↦ (
      done (record { id = w.fresh_id; row = row; token = token_text w.fresh_id w.random_text }),
      record db { api_tokens = P.write w.fresh_id row db.api_tokens },
    )
  ]

  unfoldable pub create_for_user : TokenRequest → Handler (Db P) CreatedToken
  create_for_user request = do
    throw_if (is_none (normalize_api_token_scopes request.scopes))
        (bad_request "At least one valid scope is required")
    expires_at ← lift (expiration_date w request.expires_at)
    create_token (new_token w request expires_at)

  -- `token.userId !== userId`, of a row that may not be there
  abbrev pub revoke_row : String → String → ApiToken → Handler (Db P) Unit
  revoke_row token_id user_id row db =
      if not (row.user_id === user_id)
      then (throw (not_found "API token not found" none), db)
      else if is_some row.revoked_at
      then (done tt, db)
      else (
        done tt,
        record db {
          api_tokens = P.write token_id (record row { revoked_at = some w.now }) db.api_tokens;
        },
      )

  unfoldable pub revoke_for_user : String → String → Handler (Db P) Unit
  revoke_for_user token_id user_id db = elim (P.find token_id db.api_tokens) [
    | none ↦ (throw (not_found "API token not found" none), db)
    | some row ↦ revoke_row token_id user_id row db
  ]

  abbrev pub check_parsed : Option (String × String) → Db P → Outcome ApiPrincipal
  check_parsed none db = throw (unauthorized "API token required")
  check_parsed (some (token_id, secret)) db = elim (P.find token_id db.api_tokens) [
    | none ↦ throw (unauthorized "Invalid API token")
    | some row ↦ check_token w token_id secret row (P.find row.user_id db.users)
  ]

  unfoldable pub validate_authorization_header : Option String → Db P → Outcome ApiPrincipal
  validate_authorization_header header db = check_parsed (parse_api_token header) db

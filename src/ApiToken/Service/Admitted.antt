-- ===== src/ApiToken/Service/Admitted.antt =====
-- Which requests are admitted by the header that they carry.
use better_pingvin_share.Prelude.{
  ℕ, ◌≡◌, ◌∙◌, refl, arith, String, false, Option, none, some, inl, inr, Bool-cases, Option-cases,
  ◌===◌, eq_iff, ◌↔◌,
}
use better_pingvin_share.Http.{done, throw, unauthorized}
use better_pingvin_share.Prisma.{Prisma}
use better_pingvin_share.Schema.{Db, ApiToken, User}
use better_pingvin_share.World.{World}
use better_pingvin_share.ApiToken.{parse_api_token}
use better_pingvin_share.ApiToken.Scopes.{deserialize_api_token_scopes}
use better_pingvin_share.ApiToken.Service.{
  ApiPrincipal, hash_secret, is_some, token_expired, check_token, check_parsed,
  validate_authorization_header,
}

module _ (w : World) where
  -- A token's row, its secret and its user pass the checks, and the request acts as `p`.
  pub record Passes (id secret : String) (row : ApiToken) (user : User) (p : ApiPrincipal)
      : Type 0 where
    pub not_revoked : row.revoked_at ≡ none
    pub not_expired : token_expired w.now row.expires_at ≡ false
    pub right_secret : hash_secret w secret ≡ row.secret_hash
    pub acts_as :
        p ≡ record { token_id = id; scopes = deserialize_api_token_scopes row.scopes; user = user }

  absent : (o : Option ℕ) → is_some o ≡ false → o ≡ none
  absent none e = refl
  absent (some n) e = absurd (ground arith)

  done_inj : (a b : ApiPrincipal) → done a ≡ done b → b ≡ a
  done_inj a b e = ground (arith, e)

  check_token-Passes :
      (id secret : String) (row : ApiToken) (user : User) (p : ApiPrincipal)
      → check_token w id secret row (some user) ≡ done p
      → Passes id secret row user p
  check_token-Passes id secret row user p e = elim (Bool-cases (is_some row.revoked_at)) [
    | inl revoked ↦ absurd (ground arith)
    | inr kept ↦ elim (Bool-cases (token_expired w.now row.expires_at)) [
      | inl expired ↦ absurd (ground arith)
      | inr valid ↦ elim (Bool-cases (hash_secret w secret === row.secret_hash)) [
        | inr wrong ↦ absurd (ground arith)
        | inl right ↦ record {
          not_revoked = absent row.revoked_at kept;
          not_expired = valid;
          right_secret = (eq_iff _ _).0 right;
          acts_as = done_inj _ p (rw (kept, valid, right) at e);
        }
      ]
    ]
  ]

  pub Passes-check_token :
      (id secret : String) (row : ApiToken) (user : User) (p : ApiPrincipal)
      → Passes id secret row user p
      → check_token w id secret row (some user) ≡ done p
  Passes-check_token id secret row user p h =
      rw (h.not_revoked, h.not_expired, (eq_iff _ _).1 h.right_secret, h.acts_as) refl

module _ {P : Prisma} (w : World) where
  pub validate_found :
      (header : Option String) (id secret : String) (row : ApiToken) (db : Db P)
      → parse_api_token header ≡ some (id, secret)
      → P.find id db.api_tokens ≡ some row
      → validate_authorization_header w header db
        ≡ check_token w id secret row (P.find row.user_id db.users)
  unfolding validate_authorization_header
  validate_found header id secret row db named found =
      rw (named, validate_authorization_header) (rw (found, check_parsed) refl)

  -- The header of a request names a token whose row, secret and user pass the checks.
  pub record Admits (header : Option String) (p : ApiPrincipal) (db : Db P) : Type 0 where
    pub id : String
    pub secret : String
    pub row : ApiToken
    pub user : User
    pub named : parse_api_token header ≡ some (id, secret)
    pub found : P.find id db.api_tokens ≡ some row
    pub user_found : P.find row.user_id db.users ≡ some user
    pub passed : Passes w id secret row user p

  validate_unnamed :
      (header : Option String) (db : Db P)
      → parse_api_token header ≡ none
      → validate_authorization_header w header db ≡ throw (unauthorized "API token required")
  unfolding validate_authorization_header
  validate_unnamed header db e = rw (e, validate_authorization_header) refl

  validate_missing :
      (header : Option String) (id secret : String) (db : Db P)
      → parse_api_token header ≡ some (id, secret)
      → P.find id db.api_tokens ≡ none
      → validate_authorization_header w header db ≡ throw (unauthorized "Invalid API token")
  unfolding validate_authorization_header
  validate_missing header id secret db named e =
      rw (named, validate_authorization_header) (rw (e, check_parsed) refl)

  admitted :
      (header : Option String) (p : ApiPrincipal) (db : Db P)
      → Admits header p db
      → validate_authorization_header w header db ≡ done p
  admitted header p db h =
      validate_found header h.id h.secret h.row db h.named h.found
      ∙ rw h.user_found (Passes-check_token w h.id h.secret h.row h.user p h.passed)

  token_named :
      (header : Option String) (id secret : String) (row : ApiToken) (p : ApiPrincipal) (db : Db P)
      → parse_api_token header ≡ some (id, secret)
      → P.find id db.api_tokens ≡ some row
      → check_token w id secret row (P.find row.user_id db.users) ≡ done p
      → Admits header p db
  token_named header id secret row p db named found e =
      elim (Option-cases (P.find row.user_id db.users)) [
        | inl missing ↦ absurd (ground arith)
        | inr (user, there) ↦ record {
          id = id;
          secret = secret;
          row = row;
          user = user;
          named = named;
          found = found;
          user_found = there;
          passed = check_token-Passes w id secret row user p (rw there at e);
        }
      ]

  admits :
      (header : Option String) (p : ApiPrincipal) (db : Db P)
      → validate_authorization_header w header db ≡ done p
      → Admits header p db
  admits header p db e = elim (Option-cases (parse_api_token header)) [
    | inl unnamed ↦ absurd (ground (arith, validate_unnamed header db unnamed))
    | inr ((id, secret), named) ↦ elim (Option-cases (P.find id db.api_tokens)) [
      | inl missing ↦ absurd (ground (arith, validate_missing header id secret db named missing))
      | inr (row, found) ↦
          token_named header id secret row p db named found
            (rw (validate_found header id secret row db named found) at e)
    ]
  ]

  -- A request is admitted as a principal exactly when its header names a token by id and secret, the
  -- token's row and its user are there, the token is neither revoked nor expired, the secret hashes
  -- to what the row has, and the principal has that user and the scopes that the row stores.
  pub validate_authorization_header_iff :
      (header : Option String) (p : ApiPrincipal) (db : Db P)
      → (validate_authorization_header w header db ≡ done p) ↔ Admits header p db
  validate_authorization_header_iff header p db = (admits header p db, admitted header p db)

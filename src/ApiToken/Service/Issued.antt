-- ===== src/ApiToken/Service/Issued.antt =====
-- A token from the day it is given out to the day it is revoked.
use better_pingvin_share.Prelude.{
  ℕ, ◌≡◌, ◌∙◌, ap, refl, arith, String, true, false, Option, none, some, List, includes, ◌&&◌, inl,
  inr, Bool-cases, Option-cases, ◌===◌, ===-refl,
}
use better_pingvin_share.Http.{done, throw, unauthorized, not_found, prisma_error, Outcome-cases}
use better_pingvin_share.Prisma.{Prisma}
use better_pingvin_share.Schema.{Db, ApiToken, User}
use better_pingvin_share.World.{World}
use better_pingvin_share.Text.{◌⧺◌, has_char}
use better_pingvin_share.ApiToken.{parse_api_token, token_text}
use better_pingvin_share.ApiToken.Header.{parse_api_token-token_text}
use better_pingvin_share.ApiToken.Scopes.{
  normalize_api_token_scopes, serialize_api_token_scopes, deserialize_api_token_scopes,
  api_token_scopes, deserialize-serialize_api_token_scopes, includes-normalize_api_token_scopes,
}
use better_pingvin_share.ApiToken.Service.{
  TokenRequest, CreatedToken, ApiPrincipal, hash_secret, expiration_date, is_none, is_some,
  token_expired, new_token, create_token, create_for_user, revoke_row, revoke_for_user, check_token,
  validate_authorization_header,
}
use better_pingvin_share.ApiToken.Service.Admitted.{
  validate_found, validate_authorization_header_iff,
}

revoked_refused :
    (w : World) (id secret : String) (row : ApiToken) (user : Option User)
    → is_some row.revoked_at ≡ true
    → check_token w id secret row user ≡ throw (unauthorized "Invalid API token")
revoked_refused w id secret row none h = refl
revoked_refused w id secret row (some user) h = rw h refl

scopes_asked :
    (scope : String) (l : List String)
    → includes
        (deserialize_api_token_scopes (serialize_api_token_scopes (normalize_api_token_scopes l)))
        scope
      ≡ (includes api_token_scopes scope && includes l scope)
scopes_asked scope l = ground (
  arith,
  deserialize-serialize_api_token_scopes scope (normalize_api_token_scopes l),
  includes-normalize_api_token_scopes scope l,
)

-- What giving out a token leaves
abbrev pub given : World → ApiToken → CreatedToken
given w row = record { id = w.fresh_id; row = row; token = token_text w.fresh_id w.random_text }

created_inj : (a b : CreatedToken) → done a ≡ done b → b ≡ a
created_inj a b e = ground (arith, e)

module _ {P : Prisma} (w : World) where
  revoke_missing :
      (id user : String) (db : Db P)
      → P.find id db.api_tokens ≡ none
      → revoke_for_user w id user db ≡ (throw (not_found "API token not found" none), db)
  unfolding revoke_for_user
  revoke_missing id user db missing = rw (missing, revoke_for_user) refl

  revoke_found :
      (id user : String) (row : ApiToken) (db : Db P)
      → P.find id db.api_tokens ≡ some row
      → revoke_for_user w id user db ≡ revoke_row w id user row db
  unfolding revoke_for_user
  revoke_found id user row db found = rw (found, revoke_for_user) refl

  -- What a revocation leaves: a row with a date of revocation
  revoked_row :
      (id user : String) (db : Db P)
      → (revoke_for_user w id user db).0 ≡ done tt
      → (row : ApiToken) × (P.find id (revoke_for_user w id user db).1.api_tokens ≡ some row)
        × (is_some row.revoked_at ≡ true)
  revoked_row id user db e = elim (Option-cases (P.find id db.api_tokens)) [
    | inl missing ↦ absurd (ground (arith, revoke_missing id user db missing))
    | inr (row, found) ↦
        rw (revoke_found id user row db found) (elim (Bool-cases (row.user_id === user)) [
          | inr other ↦ absurd (ground (arith, revoke_found id user row db found))
          | inl own ↦ elim (Bool-cases (is_some row.revoked_at)) [
            | inl already ↦ rw (own, already) (row, found, already)
            | inr not_yet ↦
                rw (own, not_yet)
                  (record row { revoked_at = some w.now }, simp (P.find-write, ===-refl), refl)
          ]
        ])
  ]

  create_token_unused :
      (row : ApiToken) (db : Db P)
      → P.find w.fresh_id db.api_tokens ≡ none
      → create_token w row db
        ≡ (done (given w row), record db { api_tokens = P.write w.fresh_id row db.api_tokens })
  create_token_unused row db unused = rw (unused, create_token) refl

  create_token_used :
      (row old : ApiToken) (db : Db P)
      → P.find w.fresh_id db.api_tokens ≡ some old
      → create_token w row db ≡ (throw (prisma_error "P2002"), db)
  create_token_used row old db used = rw (used, create_token) refl

  create_for_user_passed :
      (request : TokenRequest) (date : Option ℕ) (db : Db P)
      → is_none (normalize_api_token_scopes request.scopes) ≡ false
      → expiration_date w request.expires_at ≡ done date
      → create_for_user w request db ≡ create_token w (new_token w request date) db
  unfolding create_for_user
  create_for_user_passed request date db some_scope ahead = rw (some_scope, ahead) refl

  issued :
      (request : TokenRequest) (c : CreatedToken) (db : Db P)
      → (create_for_user w request db).0 ≡ done c
      → (expires_at : Option ℕ) × (c ≡ given w (new_token w request expires_at))
        × ((create_for_user w request db).1 ≡ record db {
          api_tokens = P.write w.fresh_id (new_token w request expires_at) db.api_tokens;
        })
  unfolding create_for_user
  issued request c db e = elim (Bool-cases (is_none (normalize_api_token_scopes request.scopes))) [
    | inl empty ↦ absurd (ground arith)
    | inr some_scope ↦ elim (Outcome-cases (expiration_date w request.expires_at)) [
      | inl (x, bad) ↦ absurd (ground arith)
      | inr (date, ahead) ↦ elim (Option-cases (P.find w.fresh_id db.api_tokens)) [
        | inr (old, used) ↦ absurd (
            ground (
              arith,
              create_for_user_passed request date db some_scope ahead,
              create_token_used (new_token w request date) old db used,
            ))
        | inl unused ↦
            let is =
              create_for_user_passed request date db some_scope ahead
              ∙ create_token_unused (new_token w request date) db unused in
            (date, created_inj _ c (rw is at e), ap (λ r. r.1) is)
      ]
    ]
  ]

module _ {P : Prisma} (w later : World) where
  -- After a token has been revoked by its owner, no request is admitted with it, whenever it comes
  -- and whatever secret it carries.
  pub revoked_token_refused :
      (id user secret : String) (header : Option String) (db : Db P)
      → (revoke_for_user w id user db).0 ≡ done tt
      → parse_api_token header ≡ some (id, secret)
      → validate_authorization_header later header (revoke_for_user w id user db).1
        ≡ throw (unauthorized "Invalid API token")
  revoked_token_refused id user secret header db e named =
      let (row, found, revoked) = revoked_row w id user db e in
      validate_found {P = P} later header id secret row (revoke_for_user w id user db).1 named found
      ∙ revoked_refused later id secret row _ revoked

  -- A token that was given out admits its user with the valid ones of the scopes asked for, until it
  -- expires: a later request that carries it after the word Bearer acts as the user that asked for
  -- it, by its id, with a scope exactly where that was asked for and is a valid one. It is asked that the secret of the hashes and the
  -- hash are as before, that the user is still there, that the token has not expired, and that the
  -- id and the secret that were drawn have no space and no full stop and the secret is not empty.
  pub created_token_admitted :
      (request : TokenRequest) (c : CreatedToken) (user : User) (scope : String) (db : Db P)
      → (create_for_user w request db).0 ≡ done c
      → hash_secret later w.random_text ≡ hash_secret w w.random_text
      → P.find request.user_id db.users ≡ some user
      → token_expired later.now c.row.expires_at ≡ false
      → (w.random_text === "") ≡ false
      → has_char b' ' w.fresh_id ≡ false
      → has_char b'.' w.fresh_id ≡ false
      → has_char b' ' w.random_text ≡ false
      → has_char b'.' w.random_text ≡ false
      → (p : ApiPrincipal) × (validate_authorization_header later
            (some ("Bearer " ⧺ c.token))
            (create_for_user w request db).1
          ≡ done p)
        × (p.token_id ≡ c.id)
        × (p.user ≡ user)
        × (includes p.scopes scope
            ≡ (includes api_token_scopes scope && includes request.scopes scope))
  created_token_admitted request c user scope db e hashes there valid nonempty i j k l =
      let (date, is, state) = issued w request c db e in
      let row = new_token w request date in
      let live : token_expired later.now date ≡ false = rw is at valid in
      let p : ApiPrincipal = record {
        token_id = w.fresh_id;
        scopes = deserialize_api_token_scopes row.scopes;
        user = user;
      } in
      rw (is, state)
        (
          p,
          (validate_authorization_header_iff later
                (some ("Bearer " ⧺ token_text w.fresh_id w.random_text)) p
                (record db { api_tokens = P.write w.fresh_id row db.api_tokens })).1
              (record {
                id = w.fresh_id;
                secret = w.random_text;
                row = row;
                user = user;
                named = parse_api_token-token_text w.fresh_id w.random_text nonempty i j k l;
                found = simp (P.find-write, ===-refl);
                user_found = there;
                passed = record {
                  not_revoked = refl;
                  not_expired = live;
                  right_secret = hashes;
                  acts_as = refl;
                };
              }),
          refl,
          refl,
          scopes_asked scope request.scopes,
        )

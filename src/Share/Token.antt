-- ===== src/Share/Token.antt =====
-- The signed tokens of backend/src/share/share.service.ts: `generateShareToken`,
-- `generateShareOwnerToken`, `verifyShareToken` and `verifyShareOwnerToken`. A date in seconds is
-- `unix()` of its milliseconds.
pub mod Lifetime
use better_pingvin_share.Prelude.{
  ℕ, ◌-◌, ◌/◌, String, Bool, true, false, ◌&&◌, ◌||◌, Option, none, some, ◌==◌, ◌===◌, ◌≡◌,
  if◌then◌else◌,
}
use better_pingvin_share.Http.{done, throw, Handler, type_error}
use better_pingvin_share.Prisma.{Prisma}
use better_pingvin_share.Schema.{Db, Share}
use better_pingvin_share.World.{World, Claims, access, share_visitor, share_owner}
use better_pingvin_share.Share.Access.{is_share_within_expired_editable_period}

abbrev pub unix : ℕ → ℕ
unix date = date / 1000

-- `expiresIn`: the seconds that are left to the share, unless it never expires.
abbrev pub expires_in : ℕ → ℕ → Option ℕ
expires_in expiration now = if expiration == 0 then none else some (unix (expiration - now))

-- `claims.shareId == shareId && claims.shareCreatedAt == …`: claims of either kind of share token
-- have these two, those of an access token do not.
abbrev pub names_share : String → ℕ → Claims → Bool
names_share id created (access user is_admin refresh_token_id) = false
names_share id created (share_visitor share_id share_created_at) =
    share_id === id && share_created_at == created
names_share id created (share_owner share_id share_created_at) =
    share_id === id && share_created_at == created

-- The same with `claims.tokenType === "share-owner"`.
abbrev pub owns_share : String → ℕ → Claims → Bool
owns_share id created (share_owner share_id share_created_at) =
    share_id === id && share_created_at == created
owns_share id created _ = false

-- A token that does not verify is an exception, which is caught: false.
abbrev pub claims_hold : (Claims → Bool) → Option Claims → Bool
claims_hold test none = false
claims_hold test (some c) = test c

-- The tokens of a row; the handlers below read the row first.
module _ (w : World) (id : String) (s : Share) where
  unfoldable pub share_token : String
  share_token =
      w.jwt.sign w.config.jwt_secret (share_visitor id (unix s.created_at)) (unix w.now)
        (expires_in s.expiration w.now)

  unfoldable pub share_owner_token : String
  share_owner_token =
      w.jwt.sign w.config.jwt_secret (share_owner id (unix s.created_at)) (unix w.now)
        (expires_in s.expiration w.now)

  unfoldable pub accepts_token : String → Bool
  accepts_token token =
      claims_hold (names_share id (unix s.created_at))
        (w.jwt.verify w.config.jwt_secret (s.expiration == 0) w.now token)

  -- The expiry of an owner's token does not count while the share may still be edited.
  unfoldable pub accepts_owner_token : String → Bool
  unfolding is_share_within_expired_editable_period
  accepts_owner_token token = claims_hold (owns_share id (unix s.created_at)) (
      w.jwt.verify w.config.jwt_secret
        (s.expiration == 0
          || is_share_within_expired_editable_period w.moment w.now s.expiration
              w.config.expired_editable_period)
        w.now token)

module _ {P : Prisma} (w : World) (id : String) where
  -- Each destructures the row that it finds, which is a type error where there is none.
  abbrev pub with_share : {A : Type 0} → (Share → A) → Option Share → Handler (Db P) A
  with_share f none db = (throw type_error, db)
  with_share f (some s) db = (done (f s), db)

  unfoldable pub generate_share_token : Handler (Db P) String
  unfolding share_token
  generate_share_token db = with_share (λ s. share_token w id s) (P.find id db.shares) db

  unfoldable pub generate_share_owner_token : Handler (Db P) String
  unfolding share_owner_token
  generate_share_owner_token db =
      with_share (λ s. share_owner_token w id s) (P.find id db.shares) db

  unfoldable pub verify_share_token : String → Handler (Db P) Bool
  unfolding accepts_token
  verify_share_token token db =
      with_share (λ s. accepts_token w id s token) (P.find id db.shares) db

  unfoldable pub verify_share_owner_token : String → Handler (Db P) Bool
  unfolding accepts_owner_token
  verify_share_owner_token token db =
      with_share (λ s. accepts_owner_token w id s token) (P.find id db.shares) db

  pub verify_found :
      (s : Share) (token : String) (db : Db P)
      → P.find id db.shares ≡ some s
      → verify_share_token token db ≡ (done (accepts_token w id s token), db)
  unfolding verify_share_token
  verify_found s token db found = rw found

  pub owner_token_found :
      (s : Share) (db : Db P)
      → P.find id db.shares ≡ some s
      → generate_share_owner_token db ≡ (done (share_owner_token w id s), db)
  unfolding generate_share_owner_token
  owner_token_found s db found = rw found

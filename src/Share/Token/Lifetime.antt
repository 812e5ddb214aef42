-- ===== src/Share/Token/Lifetime.antt =====
-- How long the tokens of a share are good, and for what.
use better_pingvin_share.Prelude.{
  ℕ, ◌+◌, ◌-◌, ◌≤◌, ◌<◌, String, Bool, true, false, not, ◌||◌, ◌≡◌, ◌↔◌, ◌⊎◌, arith, ◌==◌, ===-refl,
}
use better_pingvin_share.Schema.{Share}
use better_pingvin_share.World.{World, jwt_expired}
use better_pingvin_share.Share.Access.{is_share_within_expired_editable_period}
use better_pingvin_share.Share.Token.{
  unix, expires_in, share_token, share_owner_token, accepts_token, accepts_owner_token,
}

-- The same world at a later time.
abbrev pub at : World → ℕ → World
at w later = record w { now = later }

module _ (w : World) (id : String) (s : Share) (later : ℕ) where
  -- Is a token that was issued at `w.now` still valid, where the share's own expiry counts?
  abbrev pub lapsed : Bool
  lapsed = jwt_expired (unix w.now) (expires_in s.expiration w.now) later

  share_token_accepted :
      accepts_token (at w later) id s (share_token w id s) ≡ (s.expiration == 0 || not lapsed)
  unfolding accepts_token share_token
  share_token_accepted = rw w.jwt.verify-sign (ground (arith, ===-refl id))

  -- A token that a share's visitor was given is accepted later exactly when the share never expires
  -- or the whole seconds that were left to it have not gone by.
  pub share_token_lifetime :
      w.now ≤ later
      → (accepts_token (at w later) id s (share_token w id s) ≡ true)
        ↔ ((s.expiration ≡ 0) ⊎ (unix later < unix w.now + unix (s.expiration - w.now)))
  share_token_lifetime h = rw share_token_accepted (ground arith)

  -- The token of a visitor is never accepted as an owner's, and at any time the token of an owner is
  -- accepted as a visitor's exactly when a visitor's token issued at the same time is.
  pub token_roles :
      (accepts_owner_token (at w later) id s (share_token w id s) ≡ false)
      × (accepts_token (at w later) id s (share_owner_token w id s)
          ≡ accepts_token (at w later) id s (share_token w id s))
  unfolding accepts_token accepts_owner_token share_token share_owner_token
  token_roles = (simp w.jwt.verify-sign (ground arith), simp w.jwt.verify-sign (ground arith))

  -- An owner's token is accepted exactly as long as the share never expires, or may still be edited
  -- after its expiration, or the token itself has not lapsed.
  pub owner_token_lifetime : accepts_owner_token (at w later) id s (share_owner_token w id s) ≡ (
      s.expiration == 0
      || is_share_within_expired_editable_period w.moment later s.expiration
          w.config.expired_editable_period
      || not lapsed)
  unfolding accepts_owner_token share_owner_token
  owner_token_lifetime = simp w.jwt.verify-sign (ground (arith, ===-refl id))

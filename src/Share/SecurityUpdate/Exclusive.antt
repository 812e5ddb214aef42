-- ===== src/Share/SecurityUpdate/Exclusive.antt =====
-- A share has a list of allowed addresses or a limit on their number, never both.
use better_pingvin_share.Prelude.{
  ℕ, String, false, not, ◌&&◌, ◌||◌, Option, none, some, List, ◌≡◌, arith, inl, inr, Bool-cases,
  if◌then◌else◌, truthy, truthy_number,
}
use better_pingvin_share.Http.{Ensures, Ensures-and_then}
use better_pingvin_share.Schema.{ShareSecurity}
use better_pingvin_share.World.{World}
use better_pingvin_share.Share.IpAccess.{is_empty}
use better_pingvin_share.Share.Security.{
  SecurityInput, SecurityUpdate, leave, delete, upsert, with_allowed_ips, normalize_share_security,
  normalize_allowed_ips, or_none, is_some,
}
use better_pingvin_share.Share.SecurityUpdate.{
  create_security_update_input, decide_write, apply_write, new_allowed_ips, new_password,
  new_max_views, new_max_ips, created_row, updated_row, speaks,
}

abbrev pub IsExclusive : Option ShareSecurity → Type 0
IsExclusive none = Unit
IsExclusive (some sec) = (truthy_number sec.max_ips && not (is_empty sec.allowed_ips)) ≡ false

with_allowed_ips-IsExclusive :
    (input : SecurityInput) (allowed : List String)
    → Ensures IsExclusive (with_allowed_ips input allowed)
unfolding with_allowed_ips
with_allowed_ips-IsExclusive input allowed =
    elim (Bool-cases (truthy_number input.max_ips && not (is_empty allowed))) [
      | inl both ↦ rw both tt
      | inr apart ↦
          rw apart
            (elim (Bool-cases (
              not (truthy input.password)
              && (not (is_some input.max_views)
                  && (not (is_some input.max_ips) && is_empty allowed)))) [
                    | inl nothing ↦ rw nothing tt
                    | inr something ↦ rw something (ground arith)
                  ])
    ]

-- The security row of a new share is exclusive, whatever the request asks for.
pub normalize_share_security-IsExclusive :
    (w : World) (input : Option SecurityInput)
    → Ensures IsExclusive (normalize_share_security w input)
unfolding normalize_share_security
normalize_share_security-IsExclusive w none = tt
normalize_share_security-IsExclusive w (some input) =
    Ensures-and_then IsExclusive (normalize_allowed_ips w (or_none input.allowed_ips)) _
      λ allowed normal. with_allowed_ips-IsExclusive input allowed

module _ (update : SecurityUpdate) (password : Option String) (max_views max_ips : Option ℕ) where
  created-IsExclusive :
      (allowed : List String)
      → (truthy_number max_ips && not (is_empty allowed)) ≡ false
      → IsExclusive (some (created_row password max_views max_ips allowed))
  created-IsExclusive allowed apart = apart

  updated-IsExclusive :
      (allowed : List String) (sec : ShareSecurity)
      → (truthy_number max_ips && not (is_empty allowed)) ≡ false
      → IsExclusive (some sec)
      → IsExclusive (some (updated_row update password max_views max_ips allowed sec))
  updated-IsExclusive allowed sec apart h =
      elim (Bool-cases (is_some update.max_ips || is_some update.allowed_ips)) [
        | inl ruled ↦ rw ruled (ground arith)
        | inr unruled ↦ rw unruled h
      ]

  written-IsExclusive :
      (allowed : List String) (current : Option ShareSecurity)
      → (truthy_number max_ips && not (is_empty allowed)) ≡ false
      → IsExclusive current
      → IsExclusive (
          apply_write
            (upsert
              (created_row password max_views max_ips allowed)
              (updated_row update password max_views max_ips allowed))
            current)
  unfolding apply_write
  written-IsExclusive allowed none apart h = created-IsExclusive allowed apart
  written-IsExclusive allowed (some sec) apart h = updated-IsExclusive allowed sec apart h

  decide_write-IsExclusive :
      (allowed : List String) (current : Option ShareSecurity)
      → IsExclusive current
      → Ensures
          (λ write. IsExclusive (apply_write write current))
          (decide_write update current password max_views max_ips allowed)
  unfolding decide_write
  decide_write-IsExclusive allowed current h =
      elim (Bool-cases (truthy_number max_ips && not (is_empty allowed))) [
        | inl both ↦ rw both tt
        | inr apart ↦
            rw apart
              (elim (Bool-cases (
                not (truthy password)
                && (not (is_some max_views) && (not (is_some max_ips) && is_empty allowed)))) [
                  | inl nothing ↦ rw nothing (dropped current h)
                  | inr something ↦
                      rw something (elim (Bool-cases (not (speaks update) && is_some current)) [
                        | inl silent ↦ rw silent (unfold apply_write in h)
                        | inr loud ↦ rw loud (written-IsExclusive allowed current apart h)
                      ])
                ])
      ]
    where
      dropped :
          (o : Option ShareSecurity)
          → IsExclusive o
          → IsExclusive (apply_write (if is_some o then delete else leave) o)
      dropped none k = unfold apply_write in tt
      dropped (some sec) k = unfold apply_write in tt

-- An update of a share keeps its security row exclusive: whatever columns the request speaks of,
-- the row that the write leaves behind has no list beside a limit, if the present one has not.
pub create_security_update_input-IsExclusive :
    (w : World) (update : Option SecurityUpdate) (current : Option ShareSecurity)
    → IsExclusive current
    → Ensures
        (λ write. IsExclusive (apply_write write current))
        (create_security_update_input w update current)
unfolding create_security_update_input
create_security_update_input-IsExclusive w none current h = unfold apply_write in h
create_security_update_input-IsExclusive w (some update) current h =
    Ensures-and_then (λ write. IsExclusive (apply_write write current))
      (new_allowed_ips w update current) _
      λ allowed normal.
        decide_write-IsExclusive update (new_password w update current)
          (new_max_views update current) (new_max_ips update current allowed) allowed current h

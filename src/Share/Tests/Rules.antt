-- ===== src/Share/Tests/Rules.antt =====
-- The theorems about the address rules, the tokens and the updates of shares, on concrete data.
use better_pingvin_share.Share.Visit.{get_share_token}
use better_pingvin_share.Share.Visit.Password.{ShowsPassword, HasRoom, get_share_token_iff}
use better_pingvin_share.Prelude.{
  String, inr, true, false, none, some, [], ◌∷◌, ◌≡◌, ◌↔◌, ◌⊎◌, refl, arith, length,
}
use better_pingvin_share.Http.{done, throw, HttpError, Ensures, prisma_error}
use better_pingvin_share.Prisma.Assoc.{assoc}
use better_pingvin_share.Store.{files_of}
use better_pingvin_share.Schema.{Db, Share}
use better_pingvin_share.Share.IpAccess.{assert_share_ip_access, check_ip, assign_share_ip_address}
use better_pingvin_share.Share.IpAccess.Bounds.{RowWithinIps, assert_share_ip_access-WithinIps}
use better_pingvin_share.Share.IpAccess.Places.{Shows, Holds, allowed_list_iff, limited_share-Holds}
use better_pingvin_share.Ip.Address.{get_request_ip_address, normalize_ip_address}
use better_pingvin_share.Share.Token.{
  accepts_token, accepts_owner_token, share_token, share_owner_token,
}
use better_pingvin_share.Share.Token.Lifetime.{at, token_roles}
use better_pingvin_share.Share.Tests.{limits, open_share, draft, listed, db, w, visitor}
use better_pingvin_share.Share.Complete.{Completed, complete}
use better_pingvin_share.Share.Complete.Locking.{Locked, complete_outcome}
use better_pingvin_share.Share.Complete.Success.{complete_succeeds}
use better_pingvin_share.Share.Security.{SecurityInput, SecurityUpdate}
use better_pingvin_share.Share.SecurityUpdate.{create_security_update_input, apply_write}
use better_pingvin_share.Share.SecurityUpdate.Exclusive.{
  IsExclusive, create_security_update_input-IsExclusive,
}
use better_pingvin_share.Share.Create.{creation_date, too_late}
use better_pingvin_share.Share.Edit.{ShareUpdate, update, get_editable_share_entity}
use better_pingvin_share.Share.Access.{is_share_removed, is_share_within_expired_editable_period}
use better_pingvin_share.Dates.{parse_relative_date_to_absolute}
use better_pingvin_share.Share.Edit.Bounded.{update_expiration_bounded}
use better_pingvin_share.Share.Create.Expiry.{
  parse_and_validate_expiration, WithinMaximum, never_is_created,
}

assert_share_ip_access-WithinIps_example : RowWithinIps (
    assoc.find "open"
      (assert_share_ip_access w "open" open_share.security visitor true db).1.shares)
assert_share_ip_access-WithinIps_example =
    assert_share_ip_access-WithinIps w "open" open_share visitor true db refl refl

allowed_list_iff_example :
    ((assert_share_ip_access w "open" (some listed) visitor true db).0 ≡ done tt)
    ↔ Shows w visitor listed.allowed_ips
allowed_list_iff_example = allowed_list_iff w "open" listed visitor true db refl

limited_share-Holds_example :
    (ip : String) × (get_request_ip_address w.is_ip visitor.forwarded_for visitor.ip ≡ some ip)
    × Holds "open" (assert_share_ip_access w "open" (some limits) visitor true db).1 ip
unfolding assert_share_ip_access get_request_ip_address normalize_ip_address check_ip
    assign_share_ip_address
limited_share-Holds_example =
    limited_share-Holds w "open" open_share limits 2 visitor db refl refl refl refl (omega arith)
      refl

token_roles_example :
    (accepts_owner_token (at w 6000) "open" open_share (share_token w "open" open_share) ≡ false)
    × (accepts_token (at w 6000) "open" open_share (share_owner_token w "open" open_share)
        ≡ accepts_token (at w 6000) "open" open_share (share_token w "open" open_share))
token_roles_example = token_roles w "open" open_share 6000

complete_outcome_example :
    ((c : Completed) × ((complete w "draft" none db).0 ≡ done c)
      × Locked w "draft" draft (length (files_of "draft" db)) db (complete w "draft" none db).1)
    ⊎ ((e : HttpError) × ((complete w "draft" none db).0 ≡ throw e)
        × ((complete w "draft" none db).1.shares ≡ db.shares))
complete_outcome_example = complete_outcome w "draft" none draft db refl

-- A share with a recipient
abbrev mailed : Share
mailed = record draft { recipients = "eve@example.org" ∷ [] }

abbrev mailed_db : Db assoc
mailed_db = record db { shares = ("draft", mailed) ∷ [] }

complete_succeeds_example : (c : Completed) × ((complete w "draft" none mailed_db).0 ≡ done c)
complete_succeeds_example =
    complete_succeeds w "draft" none mailed mailed_db refl refl (omega arith) refl refl

-- A share with a password
abbrev protected : Share
protected = record open_share { security = some (record limits { password = some "secret" }) }

abbrev protected_db : Db assoc
protected_db = record db { shares = ("p", protected) ∷ [] }

get_share_token_iff_example :
    ((token : String) × ((get_share_token w visitor "p" (some "secret") protected_db).0
        ≡ done token))
    ↔ (ShowsPassword w protected (some "secret")
        × HasRoom protected
        × ((assert_share_ip_access w "p" protected.security visitor true protected_db).0 ≡ done tt))
get_share_token_iff_example =
    get_share_token_iff w visitor "p" protected (some "secret") protected_db refl

shows_secret : ShowsPassword w protected (some "secret")
shows_secret = inr ("secret", "secret", refl, refl, refl, refl)

-- A request that asks for a limit on addresses beside a list
abbrev asked : SecurityInput
asked = record {
  password = some "secret";
  max_views = none;
  max_ips = some 2;
  allowed_ips = some ("10.0.0.2" ∷ []);
}

-- An update that sets a list in place of the limit
abbrev change : SecurityUpdate
change = record {
  password = none;
  max_views = some (some 5);
  max_ips = some none;
  allowed_ips = some (some ("10.0.0.2" ∷ []));
}

create_security_update_input-IsExclusive_example :
    Ensures
      (λ write. IsExclusive (apply_write write (some limits)))
      (create_security_update_input w (some change) (some limits))
create_security_update_input-IsExclusive_example =
    create_security_update_input-IsExclusive w (some change) (some limits) refl

-- A change of the expiration alone
abbrev later_end : ShareUpdate
later_end = record {
  name = none;
  description = none;
  expiration = some "2-days";
  recipients = none;
  security = none;
}

changed : (t : Share) × ((update {P = assoc} w "draft" later_end none false db).0 ≡ done t)
unfolding update get_editable_share_entity is_share_removed is_share_within_expired_editable_period
    parse_and_validate_expiration parse_relative_date_to_absolute create_security_update_input
    apply_write
changed = (record draft { expiration = 5000 }, refl)

update_expiration_bounded_example :
    (t : Share) × (assoc.find "draft"
        (update {P = assoc} w "draft" later_end none false db).1.shares
      ≡ some t)
    × WithinMaximum w t.expiration
update_expiration_bounded_example =
    update_expiration_bounded {P = assoc} w "draft" "2-days" later_end none changed.0 db
      (λ e. absurd (omega (arith, e))) refl changed.1

-- An amount beyond JavaScript's dates passes both checks, and the database refuses it.
beyond_dates :
    (parse_and_validate_expiration w "999999999-years" false ≡ done none)
    × ((update {P = assoc} w "draft"
          (record later_end { expiration = some "999999999-years" })
          none
          false
          db).0
        ≡ throw (prisma_error "PrismaClientValidationError"))
unfolding parse_and_validate_expiration update parse_relative_date_to_absolute
    get_editable_share_entity is_share_removed is_share_within_expired_editable_period
    create_security_update_input
beyond_dates = (refl, refl)

never_is_created_example :
    (creation_date w "never" ≡ done (some 0))
    × (parse_and_validate_expiration w "never" false ≡ throw too_late)
never_is_created_example = never_is_created w (λ e. absurd (omega (arith, e)))

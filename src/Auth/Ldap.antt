-- ===== src/Auth/Ldap.antt =====
-- backend/src/auth/ldap.service.ts: authenticateUser. The LDAP server is a parameter.
use Prim.Native.Char.{Char, code}
use better_pingvin_share.Prelude.{
  String, Bool, not, ◌&&◌, ◌||◌, Option, none, some, List, [], ◌∷◌, leb, ◌==◌, if◌then◌else◌, ◌===◌,
}
use better_pingvin_share.Text.{all_chars}
use better_pingvin_share.Http.{Outcome, done, throw, internal_server_error}
use better_pingvin_share.World.{World}
use better_pingvin_share.Users.Manage.{LdapEntry}

-- A search at the server under a base, and a bind as an entry with a password, which may fail too
pub record LdapServer : Type 0 where
  pub connects : Bool
  pub search : String → String → Outcome (List LdapEntry)
  pub bind : String → String → Outcome (Unit {0})

-- /^[a-zA-Z0-9-_.@]+$/
abbrev pub is_name_char : Char → Bool
is_name_char c =
    leb b'a' (code c) && leb (code c) b'z'
    || leb b'A' (code c) && leb (code c) b'Z'
    || leb b'0' (code c) && leb (code c) b'9'
    || code c == b'-'
    || code c == b'_'
    || code c == b'.'
    || code c == b'@'

abbrev pub bound : LdapServer → LdapEntry → String → Option LdapEntry
bound server entry password = elim (server.bind entry.dn password) [
  | done u ↦ some entry
  | throw e ↦ none
]

-- Exactly one entry is asked for, and bound as.
abbrev pub only_entry : LdapServer → String → Outcome (List LdapEntry) → Option LdapEntry
only_entry server password (throw e) = none
only_entry server password (done []) = none
only_entry server password (done (entry ∷ [])) = bound server entry password
only_entry server password (done (entry ∷ other ∷ more)) = none

-- `authenticateUser`: an error before the search is thrown, any later one is null.
unfoldable pub authenticate_user : World → LdapServer → String → String → Outcome (Option LdapEntry)
authenticate_user w server username password =
    if username === "" || not (all_chars is_name_char username)
    then done none
    else if not server.connects
    then throw (internal_server_error "failed to bind to default user")
    else done (
        only_entry server password
          (server.search w.config.ldap_search_base (w.config.ldap_search_query username)))

-- ===== src/Share/Request.antt =====
-- What a handler reads of a request: the headers and the query, the cookies by name, and the subject
-- of a valid access token. The package that reads the access token runs before the handlers, so its
-- result is a field; `extractJWT` of auth/strategy/jwt.strategy.ts gives it the cookie.
use better_pingvin_share.Prelude.{String, Bool, Option, none, some, if◌then◌else◌, truthy}
use better_pingvin_share.Prisma.{Prisma}
use better_pingvin_share.Schema.{Db, User}
use better_pingvin_share.Text.{◌⧺◌}

pub record Request : Type 0 where
  pub forwarded_for : Option String
  pub ip : Option String
  pub query_token : Option String
  pub cookies : String → Option String
  pub session_user : Option String

-- share/shareRequest.util.ts: the token in the query, or else in the share's cookie.
unfoldable pub get_share_token_from_request : Request → String → Option String
get_share_token_from_request request share_id =
    if truthy request.query_token
    then request.query_token
    else if truthy (request.cookies ("share_" ⧺ share_id ⧺ "_token"))
    then request.cookies ("share_" ⧺ share_id ⧺ "_token")
    else none

-- A signed-in user: the id and the row.
abbrev pub SignedIn : Type 0
SignedIn = String × User

-- `validate` of auth/strategy/jwt.strategy.ts finds the user of the access token. Where there is
-- none, `JwtGuard` catches the failure and leaves `request.user` undefined.
abbrev pub with_row : String → Option User → Option SignedIn
with_row id none = none
with_row id (some u) = some (id, u)

module _ {P : Prisma} where
  unfoldable pub authenticated_user : Request → Db P → Option SignedIn
  authenticated_user request db = elim request.session_user [
    | none ↦ none
    | some id ↦ with_row id (P.find id db.users)
  ]

abbrev pub user_id : Option SignedIn → Option String
user_id none = none
user_id (some (id, u)) = some id

-- `user?.isAdmin`
abbrev pub is_admin_user : Option SignedIn → Bool
is_admin_user none = Bool.false
is_admin_user (some (id, u)) = u.is_admin

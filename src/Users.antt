-- ===== src/Users.antt =====
-- backend/src/user/user.service.ts: the removal of a user. The schema cascades to the user's tokens,
-- shares and reverse shares.
mod Tests
pub mod Admins
pub mod Rows
pub mod Every
pub mod Stays
pub mod Manage
use better_pingvin_share.Prelude.{
  ℕ, String, Bool, true, false, ◌&&◌, ◌||◌, Option, none, some, List, [], ◌∷◌, ◌==◌, if◌then◌else◌,
  length, same_id, ◌===◌,
}
use better_pingvin_share.Http.{
  Outcome, done, throw, Handler, HttpError, bad_request, prisma_error, pure, throw_if, and_then,
  ◌>>=◌, ◌>>◌,
}
use better_pingvin_share.Prisma.{Prisma}
use better_pingvin_share.Prisma.Keyed.{select}
use better_pingvin_share.Schema.{
  Db, User, File, Share, ReverseShare, ApiToken, RefreshToken, LoginToken, ResetPasswordToken,
  OauthUser,
}
use better_pingvin_share.Store.{find_reverse_share}
use better_pingvin_share.FileStore.{delete_all_files}

abbrev pub created_by : String → Share → Bool
created_by id s = same_id s.creator_id (some id)

-- `count({ where: { isAdmin: true } })`
abbrev pub admins : List (String × User) → List (String × User)
admins = select (λ (u : User). u.is_admin)

abbrev pub box_goes : String → Option ReverseShare → Bool
box_goes id none = false
box_goes id (some r) = r.creator_id === id

module _ {P : Prisma} where
  -- `Promise.all` over the shares: an error does not stop the other removals; the first is thrown.
  unfoldable pub delete_files_of : List (String × Share) → Handler (Db P) Unit
  delete_files_of [] db = (done tt, db)
  delete_files_of ((id, s) ∷ more) db =
      let (r, db') = delete_all_files id none db in
      let (rest, db'') = delete_files_of more db' in (and_then r λ u. rest, db'')

  -- The cascade: the user's shares, and those of the user's reverse shares
  abbrev pub goes_with : String → Db P → Share → Bool
  goes_with id db s = created_by id s || box_goes id (find_reverse_share s.reverse_share_id db)

  abbrev pub share_goes : String → Db P → Option Share → Bool
  share_goes id db none = false
  share_goes id db (some s) = goes_with id db s

  abbrev pub delete_user_row : String → Handler (Db P) Unit
  delete_user_row id db = elim (P.find id db.users) [
    | none ↦ (throw (prisma_error "P2025"), db)
    | some u ↦ (
      done tt,
      record db {
        users = P.erase id db.users;
        api_tokens = P.erase_where (λ (t : ApiToken). t.user_id === id) db.api_tokens;
        refresh_tokens = P.erase_where (λ (t : RefreshToken). t.user_id === id) db.refresh_tokens;
        login_tokens = P.erase_where (λ (t : LoginToken). t.user_id === id) db.login_tokens;
        reset_password_tokens =
            P.erase_where (λ (t : ResetPasswordToken). t.user_id === id) db.reset_password_tokens;
        oauth_users = P.erase_where (λ (o : OauthUser). o.user_id === id) db.oauth_users;
        shares = P.erase_where (goes_with id db) db.shares;
        files =
            P.erase_where (λ (f : File). share_goes id db (P.find f.share_id db.shares)) db.files;
        reverse_shares =
            P.erase_where (λ (r : ReverseShare). r.creator_id === id) db.reverse_shares;
      },
    )
  ]

  abbrev pub delete_user : String → User → Handler (Db P) Unit
  delete_user id u db =
      if u.is_admin && length (admins (P.rows db.users)) == 1
      then (throw (bad_request "Cannot delete the last admin user"), db)
      else (do delete_files_of (select (created_by id) (P.rows db.shares)); delete_user_row id) db

  unfoldable pub delete : String → Handler (Db P) Unit
  delete id db = elim (P.find id db.users) [
    | none ↦ (throw (bad_request "User not found"), db)
    | some u ↦ delete_user id u db
  ]

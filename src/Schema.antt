-- ===== src/Schema.antt =====
-- backend/prisma/schema.prisma: the rows of the database, one record for each model, and the state
-- that the services share: the tables, and the directories of files on the disk and in the bucket.
-- A row does not repeat the key that it is found under. A share's security row with its allowed and
-- assigned addresses is a field of the share (`shareId` is unique there), so the id of the share
-- stands for that row's id. Sizes are stored as decimal texts; they are the numbers here.
use better_pingvin_share.Prelude.{ℕ, zero, suc, Bool, true, false, String, Option, List}
use better_pingvin_share.Prisma.{Prisma}

-- An `Int` column that may fall below zero; `negsuc n` is -(n + 1).
pub data ℤ : Type 0 where
  pos : ℕ → ℤ
  negsuc : ℕ → ℤ

pub record User : Type 0 where
  pub username : String
  pub email : String
  pub password : Option String
  pub is_admin : Bool
  pub ldap_dn : Option String
  pub totp_enabled : Bool
  pub totp_verified : Bool
  pub totp_secret : Option String

pub record ApiToken : Type 0 where
  pub name : String
  pub secret_hash : String
  pub scopes : String
  pub expires_at : Option ℕ
  pub revoked_at : Option ℕ
  pub user_id : String

pub record RefreshToken : Type 0 where
  pub expires_at : ℕ
  pub user_id : String
  pub oauth_id_token : Option String

pub record LoginToken : Type 0 where
  pub expires_at : ℕ
  pub user_id : String
  pub used : Bool

pub record ResetPasswordToken : Type 0 where
  pub expires_at : ℕ
  pub user_id : String

-- An account at another site, by which a user signs in.
pub record OauthUser : Type 0 where
  pub provider : String
  pub provider_user_id : String
  pub provider_username : String
  pub user_id : String

pub record ShareSecurity : Type 0 where
  pub password : Option String
  pub max_views : Option ℕ
  pub max_ips : Option ℕ
  pub allowed_ips : List String
  pub assigned_ips : List String

pub record Share : Type 0 where
  pub created_at : ℕ
  pub name : Option String
  pub upload_locked : Bool
  pub is_zip_ready : Bool
  pub views : ℕ
  pub expiration : ℕ
  pub description : Option String
  pub removed_reason : Option String
  pub creator_id : Option String
  pub reverse_share_id : Option String
  pub security : Option ShareSecurity
  pub recipients : List String
  pub storage_provider : String

pub record ReverseShare : Type 0 where
  pub token : String
  pub share_expiration : ℕ
  pub max_share_size : ℕ
  pub send_email_notification : Bool
  pub remaining_uses : ℤ
  pub simplified : Bool
  pub public_access : Bool
  pub creator_id : String

pub record File : Type 0 where
  pub name : String
  pub size : ℕ
  pub share_id : String

-- The contents of a file, as numbers below 256, and a directory of files by their names.
abbrev pub Bytes : Type 0
Bytes = List ℕ

abbrev pub Directory : Prisma → Type 0
Directory P = P.Table Bytes

-- A multipart upload to the bucket that is under way: its parts by their numbers, in the order in
-- which they came. A part's ETag stands for its bytes.
pub record MultipartUpload : Type 0 where
  pub parts : List (ℕ × Bytes)

-- What the handlers set going outside of the database: the mails, and the work that is started and
-- not waited for.
pub data Effect : Type 0 where
  mail_share_recipient : String → String → Effect
  mail_reverse_share_creator : String → String → Effect
  mail_reset_password : String → String → Effect
  mail_invite : String → String → Effect
  create_zip : String → Effect
  scan : String → Effect

pub record Db (P : Prisma) : Type 0 where
  pub users : P.Table User
  pub api_tokens : P.Table ApiToken
  pub refresh_tokens : P.Table RefreshToken
  pub login_tokens : P.Table LoginToken
  pub reset_password_tokens : P.Table ResetPasswordToken
  pub oauth_users : P.Table OauthUser
  pub shares : P.Table Share
  pub reverse_shares : P.Table ReverseShare
  pub files : P.Table File
  pub disk : P.Table (Directory P)
  pub bucket : P.Table (Directory P)
  pub multipart_uploads : P.Table MultipartUpload
  pub started : List Effect

-- Tests on the counter of uses.
abbrev pub at_most_zero : ℤ → Bool
at_most_zero (pos zero) = true
at_most_zero (pos (suc n)) = false
at_most_zero (negsuc n) = true

abbrev pub decrement : ℤ → ℤ
decrement (pos zero) = negsuc zero
decrement (pos (suc n)) = pos n
decrement (negsuc n) = negsuc (suc n)

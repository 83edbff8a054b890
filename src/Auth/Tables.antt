-- ===== src/Auth/Tables.antt =====
-- The rows of app/modules/auth/models.py, and what the service reads from outside them. The profile
-- of a user is left out.
use api_kitchen.Base.{
  ℕ, ltb, ◌==◌, unauthorized, Result, or_raise, Text, text, is_empty, text_eq, find_row, change_row,
  Bool, true, ◌||◌, Option, none, some, List,
}

pub record User : Type 0 where
  pub id : ℕ
  pub email : Option Text
  pub password_hash : Text
  pub role : Text
  pub is_active : Bool
  pub email_verification_token : Option Text
  pub email_verification_expires_at : Option ℕ
  pub email_verified_at : Option ℕ
  pub password_reset_token : Option Text
  pub password_reset_expires_at : Option ℕ
  pub must_change_password : Bool
  pub mfa_secret : Option Text
  pub mfa_enabled : Bool
  pub mfa_backup_codes : List Text

pub record RefreshToken : Type 0 where
  pub id : ℕ
  pub user_id : ℕ
  pub token_hash : Text
  pub token_lookup : Option Text
  pub expires_at : ℕ
  pub revoked_at : Option ℕ

-- The newest session comes first.
pub record Accounts : Type 0 where
  pub users : List User
  pub tokens : List RefreshToken
  pub next_token_id : ℕ

-- The claims of a token that `decode_token` accepts.
pub record TokenPayload : Type 0 where
  pub is_refresh : Bool
  pub user_id : ℕ

pub record AuthEnv : Type 0 where
  pub now : ℕ
  -- bcrypt: `get_password_hash` and `verify_password`.
  pub hash : Text → Text
  pub verify : Text → Text → Bool
  -- The HMAC `compute_token_lookup`, and `decode_token`.
  pub lookup : Text → Text
  pub decode : Text → Option TokenPayload
  -- pyotp on a secret that is decrypted first; a secret that does not decrypt verifies nothing.
  pub totp : Text → Text → Bool
  -- What the random generators and `create_refresh_token` return in this request.
  pub new_refresh : Text
  pub new_secret : Text
  pub new_backup_codes : List Text
  pub new_reset_token : Text
  pub new_verification_token : Text
  -- `settings.jwt_refresh_expire_days`, in seconds.
  pub refresh_ttl : ℕ

abbrev pub is_user : ℕ → User → Bool
is_user key u = u.id == key

abbrev pub set_user : ℕ → (User → User) → Accounts → Accounts
set_user key f s = record s { users = change_row (is_user key) f s.users }

-- `session.get(User, user_id)`, or the error of a missing user.
abbrev pub get_user : ℕ → Accounts → Result User
get_user key s = or_raise (find_row (is_user key) s.users) unauthorized 401

-- `role in ("super-admin", "admin")`.
unfoldable pub is_admin : User → Bool
is_admin u = text_eq u.role (text "super-admin") || text_eq u.role (text "admin")

-- `not value`, for an optional text.
abbrev pub is_missing : Option Text → Bool
is_missing none = true
is_missing (some t) = is_empty t

-- `t is None or t < now`.
abbrev pub is_past : Option ℕ → ℕ → Bool
is_past none now = true
is_past (some t) now = ltb t now

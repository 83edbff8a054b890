-- ===== src/Kds/Tables.antt =====
-- The rows of app/modules/kds/models.py, and what the service reads from outside them. The settings
-- of a screen that only its display reads are left out.
use api_kitchen.Base.{ℕ, Text, Bool, Option, List}

pub record Screen : Type 0 where
  pub id : ℕ
  pub screen_key : Text
  pub is_active : Bool
  pub remote_enabled : Bool

pub record PairingCode : Type 0 where
  pub screen_id : ℕ
  pub code_hash : Text
  pub expires_at : ℕ
  pub used_at : Option ℕ
  pub created_by_user_id : ℕ

pub record Remote : Type 0 where
  pub id : ℕ
  pub session_token_hash : Text
  pub screen_id : ℕ
  pub paired_by_user_id : ℕ
  pub last_seen_at : ℕ
  pub expires_at : ℕ
  pub revoked_at : Option ℕ

-- The newest row of each table comes first, as the queries by `created_at.desc(), id.desc()` want it.
pub record Screens : Type 0 where
  pub screens : List Screen
  pub codes : List PairingCode
  pub remotes : List Remote
  pub next_screen_id : ℕ
  pub next_remote_id : ℕ

pub record KdsEnv : Type 0 where
  pub now : ℕ
  -- The HMACs of a pairing code and of a session token.
  pub hash_code : Text → Text
  pub hash_token : Text → Text
  -- The random code and the random token that the n-th attempt of a call draws.
  pub drawn_code : ℕ → Text
  pub drawn_token : ℕ → Text

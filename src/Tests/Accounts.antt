-- ===== src/Tests/Accounts.antt =====
-- Runs of the accounts, and instances of their theorems.
use api_kitchen.Base.{
  ℕ, invalid_token, invalid_mfa_code, err, Text, text, strip, text_eq, find_row, change_row, ◌≡◌,
  refl, ◌⊎◌, true, false, none, some, List, [], ◌∷◌, arith,
}
use api_kitchen.Auth.Rotation.{refresh_once, reset_ends_sessions}
use api_kitchen.Auth.Sessions.{
  new_session, authenticate, is_unrevoked, is_session_id, claim_refresh, refresh_token,
}
use api_kitchen.Auth.Passwords.{ask_reset, forgot_password, reset_password}
use api_kitchen.Auth.Requests.{AuthRequest, sets_up, confirms, logs_in, refreshes, serve_auths}
use api_kitchen.Auth.Tables.{User, RefreshToken, Accounts, AuthEnv, is_user}
use api_kitchen.Auth.Login.{Used, authenticate-second_factor}
use api_kitchen.Auth.Mfa.{verify_totp, with_backup_codes}

-- A hash is the text with a mark in front; a refresh token is decoded as one of user 7; the code of
-- the moment is always 123456.
abbrev at_time : ℕ → Text → AuthEnv
at_time now fresh = record {
  now = now;
  hash = λ t. 104 ∷ t;
  verify = λ t h. text_eq h (104 ∷ t);
  lookup = λ t. 108 ∷ t;
  decode = λ t. some (record { is_refresh = true; user_id = 7 });
  totp = λ secret code. text_eq code (text "123456");
  new_refresh = fresh;
  new_secret = text "S";
  new_backup_codes = text "A1" ∷ text "B2" ∷ [];
  new_reset_token = text "reset";
  new_verification_token = text "v";
  refresh_ttl = 86400;
}

abbrev admin : User
admin = record {
  id = 7;
  email = some (text "a@b");
  password_hash = 104 ∷ text "secret";
  role = text "admin";
  is_active = true;
  email_verification_token = none;
  email_verification_expires_at = none;
  email_verified_at = some 1;
  password_reset_token = none;
  password_reset_expires_at = none;
  must_change_password = false;
  mfa_secret = none;
  mfa_enabled = false;
  mfa_backup_codes = [];
}

abbrev one_user : Accounts
one_user = record { users = admin ∷ []; tokens = []; next_token_id = 0 }

abbrev set_up : List (AuthEnv × AuthRequest)
set_up = (at_time 10 [], sets_up 7) ∷ (at_time 20 [], confirms 7 (some (text "123456"))) ∷ []

abbrev guarded : Accounts
guarded = serve_auths set_up one_user

abbrev guarded_admin : User
guarded_admin = record admin {
  mfa_secret = some (text "S");
  mfa_enabled = true;
  mfa_backup_codes = (104 ∷ text "A1") ∷ (104 ∷ text "B2") ∷ [];
}

-- The second code of two logs in, and only once.
abbrev by_backup : Accounts
by_backup =
    (authenticate (at_time 30 (text "r0")) (text "a@b") (text "secret") (some (text "B2"))
      guarded).1

authenticate-second_factor_example :
    ((at_time 30 (text "r0")).verify (text "secret") guarded_admin.password_hash ≡ true)
    × ((code : Text) × (some (text "B2") ≡ some code)
        × (((verify_totp (at_time 30 (text "r0")) guarded_admin.mfa_secret (some code) ≡ true)
              × (by_backup.users ≡ guarded.users))
            ⊎ ((left : List Text) × Used
                  (at_time 30 (text "r0"))
                  (strip code)
                  guarded_admin.mfa_backup_codes
                  left
                × (by_backup.users
                    ≡ change_row (is_user 7) (with_backup_codes left) guarded.users))))
unfolding authenticate api_kitchen.Auth.Sessions.authenticate_tx api_kitchen.Auth.Mfa.confirm_mfa
    api_kitchen.Auth.Mfa.confirm_mfa_tx api_kitchen.Auth.Mfa.setup_mfa
    api_kitchen.Auth.Mfa.setup_mfa_tx api_kitchen.Auth.Tables.is_admin strip
    api_kitchen.Auth.Mfa.verify_login_mfa api_kitchen.Auth.Mfa.use_backup_code
    api_kitchen.Auth.Sessions.issue_tokens
authenticate-second_factor_example =
    authenticate-second_factor (at_time 30 (text "r0")) (text "a@b") (text "secret")
      (some (text "B2")) guarded by_backup guarded_admin 0 refl refl refl

backup_lem :
    (authenticate
      (at_time 40 (text "r1"))
      (text "a@b")
      (text "secret")
      (some (text "B2"))
      by_backup).0
    ≡ err invalid_mfa_code 401
unfolding authenticate api_kitchen.Auth.Sessions.authenticate_tx api_kitchen.Auth.Mfa.confirm_mfa
    api_kitchen.Auth.Mfa.confirm_mfa_tx api_kitchen.Auth.Mfa.setup_mfa
    api_kitchen.Auth.Mfa.setup_mfa_tx api_kitchen.Auth.Tables.is_admin strip
    api_kitchen.Auth.Mfa.verify_login_mfa api_kitchen.Auth.Mfa.use_backup_code
    api_kitchen.Auth.Sessions.issue_tokens
backup_lem = refl

abbrev session : RefreshToken
session = new_session (at_time 30 (text "r0")) 0 7

abbrev refreshed : Accounts
refreshed = (refresh_token (at_time 50 (text "r1")) (text "r0") by_backup).1

abbrev later_user : User
later_user = with_backup_codes ((104 ∷ text "A1") ∷ []) guarded_admin

refresh_once_example :
    (is_unrevoked session ≡ true)
    × (later_user.is_active ≡ true)
    × (find_row (is_session_id 1) refreshed.tokens
        ≡ some (new_session (at_time 50 (text "r1")) 1 7))
    × ((env' : AuthEnv) (u' : User) (rs : List (AuthEnv × AuthRequest))
        → claim_refresh env' (session, u') (serve_auths rs refreshed)
          ≡ (err invalid_token 401, serve_auths rs refreshed))
unfolding authenticate api_kitchen.Auth.Sessions.authenticate_tx api_kitchen.Auth.Mfa.confirm_mfa
    api_kitchen.Auth.Mfa.confirm_mfa_tx api_kitchen.Auth.Mfa.setup_mfa
    api_kitchen.Auth.Mfa.setup_mfa_tx api_kitchen.Auth.Tables.is_admin strip
    api_kitchen.Auth.Mfa.verify_login_mfa api_kitchen.Auth.Mfa.use_backup_code
    api_kitchen.Auth.Sessions.issue_tokens api_kitchen.Auth.Sessions.read_session
    api_kitchen.Auth.Sessions.current_session refresh_token
    api_kitchen.Auth.Sessions.refresh_token_tx api_kitchen.Auth.Sessions.claim_session
refresh_once_example =
    refresh_once (at_time 50 (text "r1")) (text "r0") session later_user by_backup refreshed 1
      ((omega arith, tt)) refl refl

abbrev asked : Accounts
asked = forgot_password (at_time 60 []) true (text "a@b") by_backup

abbrev reset : Accounts
reset = (reset_password (at_time 70 []) true (text "a@b") (text "reset") (text "new") asked).1

abbrev afterwards : List (AuthEnv × AuthRequest)
afterwards =
    (at_time 80 (text "r0"), refreshes (text "r0"))
    ∷ (at_time 90 (text "r2"), logs_in (text "a@b") (text "new") (some (text "123456")))
    ∷ []

reset_ends_sessions_example :
    claim_refresh (at_time 99 (text "r3")) (session, admin) (serve_auths afterwards reset)
    ≡ (err invalid_token 401, serve_auths afterwards reset)
unfolding forgot_password authenticate api_kitchen.Auth.Sessions.authenticate_tx
    api_kitchen.Auth.Mfa.confirm_mfa api_kitchen.Auth.Mfa.confirm_mfa_tx
    api_kitchen.Auth.Mfa.setup_mfa api_kitchen.Auth.Mfa.setup_mfa_tx
    api_kitchen.Auth.Tables.is_admin strip api_kitchen.Auth.Mfa.verify_login_mfa
    api_kitchen.Auth.Mfa.use_backup_code api_kitchen.Auth.Sessions.issue_tokens reset_password
    api_kitchen.Auth.Passwords.reset_password_tx
reset_ends_sessions_example =
    reset_ends_sessions (at_time 70 []) true (text "a@b") (text "reset") (text "new")
      (ask_reset (at_time 60 []) later_user) session asked reset (omega arith, tt) refl refl refl
      refl (at_time 99 (text "r3")) admin afterwards

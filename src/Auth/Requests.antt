-- ===== src/Auth/Requests.antt =====
-- The requests on accounts and sessions, and the tables after them. A claim is the second half of a
-- refresh whose first half, the reading of the session, was done at any time before.
use api_kitchen.Base.{ℕ, Text, Bool, Option, List, [], ◌∷◌}
use api_kitchen.Auth.Sessions.{
  authenticate, claim_refresh, refresh_token, logout, revoke_session, revoke_all_sessions,
}
use api_kitchen.Auth.Passwords.{
  verify_email, resend_verification, forgot_password, reset_password, change_password,
}
use api_kitchen.Auth.Tables.{User, RefreshToken, Accounts, AuthEnv}
use api_kitchen.Auth.Mfa.{setup_mfa, confirm_mfa, regenerate_mfa_backup_codes}

pub data AuthRequest : Type 0 where
  verifies : (token : Text) → AuthRequest
  asks_verification : (user : ℕ) → AuthRequest
  sets_up : (user : ℕ) → AuthRequest
  confirms : (user : ℕ) (code : Option Text) → AuthRequest
  regenerates : (user : ℕ) (code : Option Text) → AuthRequest
  logs_in : (email password : Text) (code : Option Text) → AuthRequest
  refreshes : (token : Text) → AuthRequest
  claims : (seen : RefreshToken × User) → AuthRequest
  logs_out : (user : ℕ) → AuthRequest
  ends : (key user : ℕ) → AuthRequest
  ends_all : (user : ℕ) (current : Option ℕ) (revoke_current : Bool) → AuthRequest
  forgets : (tenant_known : Bool) (email : Text) → AuthRequest
  resets : (tenant_known : Bool) (email token password : Text) → AuthRequest
  changes : (user : ℕ) (given : Option Text) (password : Text) (kept : Option ℕ) → AuthRequest

abbrev pub serve_auth : AuthEnv → AuthRequest → Accounts → Accounts
serve_auth env (verifies token) s = (verify_email env token s).1
serve_auth env (asks_verification user) s = (resend_verification env user s).1
serve_auth env (sets_up user) s = (setup_mfa env user s).1
serve_auth env (confirms user code) s = (confirm_mfa env user code s).1
serve_auth env (regenerates user code) s = (regenerate_mfa_backup_codes env user code s).1
serve_auth env (logs_in email password code) s = (authenticate env email password code s).1
serve_auth env (refreshes token) s = (refresh_token env token s).1
serve_auth env (claims seen) s = (claim_refresh env seen s).1
serve_auth env (logs_out user) s = logout env user s
serve_auth env (ends key user) s = (revoke_session env key user s).1
serve_auth env (ends_all user current revoke_current) s =
    revoke_all_sessions env user current revoke_current s
serve_auth env (forgets tenant_known email) s = forgot_password env tenant_known email s
serve_auth env (resets tenant_known email token password) s =
    (reset_password env tenant_known email token password s).1
serve_auth env (changes user given password kept) s =
    (change_password env user given password kept s).1

abbrev pub serve_auths : List (AuthEnv × AuthRequest) → Accounts → Accounts
serve_auths [] s = s
serve_auths (r ∷ rs) s = serve_auths rs (serve_auth r.0 r.1 s)

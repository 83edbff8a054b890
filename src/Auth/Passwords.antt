-- ===== src/Auth/Passwords.antt =====
-- Passwords and the verification of addresses (app/modules/auth/service.py: verify_email,
-- resend_verification, forgot_password, reset_password, change_password). The messages to users and
-- the signals to open sockets come after the commit and are left out.
use api_kitchen.Base.{
  ℕ, if◌then◌else◌, is_some, invalid_token, invalid_credentials, already_verified, validation_error,
  Result, ok, err, ◌>>=◌, ◌>>◌, raise_if, or_raise, Action, atomic, Text, is_empty, text_eq,
  find_row, change_row, ◌+◌, Bool, false, not, Option, none, some,
}
use api_kitchen.Auth.Sessions.{is_active_email, is_session_of, revoke_all, is_session_other}
use api_kitchen.Auth.Tables.{User, Accounts, AuthEnv, set_user, get_user, is_past}

abbrev pub is_verification : Text → User → Bool
is_verification token u = elim u.email_verification_token [
  | none ↦ false
  | some t ↦ text_eq t token
]

abbrev pub mark_verified : ℕ → User → User
mark_verified now u = record u {
  email_verified_at = some now;
  email_verification_token = none;
  email_verification_expires_at = none;
}

unfoldable pub verify_email_tx : AuthEnv → Text → Accounts → Result (Option Text × Accounts)
verify_email_tx env token s = do
  let p = is_verification token
  u ← or_raise (find_row p s.users) invalid_token 400
  raise_if (is_past u.email_verification_expires_at env.now) invalid_token 400
  ok (u.email, record s { users = change_row p (mark_verified env.now) s.users })

unfoldable pub verify_email : AuthEnv → Text → Action Accounts (Option Text)
verify_email env token = atomic (verify_email_tx env token)

abbrev pub verification_ttl : ℕ
verification_ttl = 86400

abbrev pub ask_verification : AuthEnv → User → User
ask_verification env u = record u {
  email_verification_token = some env.new_verification_token;
  email_verification_expires_at = some (env.now + verification_ttl);
}

unfoldable pub resend_verification_tx : AuthEnv → ℕ → Accounts → Result (Unit {0} × Accounts)
resend_verification_tx env key s = do
  u ← get_user key s
  raise_if (is_some u.email_verified_at) already_verified 400
  ok (tt, set_user key (ask_verification env) s)

unfoldable pub resend_verification : AuthEnv → ℕ → Action Accounts (Unit {0})
resend_verification env key = atomic (resend_verification_tx env key)

abbrev pub reset_ttl : ℕ
reset_ttl = 1800

abbrev pub ask_reset : AuthEnv → User → User
ask_reset env u = record u {
  password_reset_token = some (env.hash env.new_reset_token);
  password_reset_expires_at = some (env.now + reset_ttl);
}

-- `forgot_password`, which says nothing of whether the tenant or the address is known.
unfoldable pub forgot_password : AuthEnv → Bool → Text → Accounts → Accounts
forgot_password env tenant_known email s =
    if tenant_known
    then record s { users = change_row (is_active_email email) (ask_reset env) s.users }
    else s

abbrev pub with_password : AuthEnv → Text → User → User
with_password env password u = record u {
  password_hash = env.hash password;
  must_change_password = false;
}

abbrev pub end_reset : AuthEnv → Text → User → User
end_reset env password u = record (with_password env password u) {
  password_reset_token = none;
  password_reset_expires_at = none;
}

unfoldable pub reset_password_tx :
    AuthEnv → Bool → Text → Text → Text → Accounts → Result (Unit {0} × Accounts)
reset_password_tx env tenant_known email token password s = do
  raise_if (not tenant_known) invalid_token 400
  let p = is_active_email email
  u ← or_raise (find_row p s.users) invalid_token 400
  hashed ← or_raise u.password_reset_token invalid_token 400
  raise_if (is_past u.password_reset_expires_at env.now) invalid_token 400
  raise_if (not (env.verify token hashed)) invalid_token 400
  let s₁ = record s { users = change_row p (end_reset env password) s.users }
  ok (tt, revoke_all (is_session_of u.id) env.now s₁)

unfoldable pub reset_password : AuthEnv → Bool → Text → Text → Text → Action Accounts (Unit {0})
reset_password env tenant_known email token password =
    atomic (reset_password_tx env tenant_known email token password)

abbrev pub require_current : Option Text → Result Text
require_current none = err validation_error 422
require_current (some t) = if is_empty t then err validation_error 422 else ok t

abbrev pub check_current : AuthEnv → User → Option Text → Result (Unit {0})
check_current env u given = if u.must_change_password then ok tt else do
  current ← require_current given
  raise_if (not (env.verify current u.password_hash)) invalid_credentials 401

unfoldable pub change_password_tx :
    AuthEnv → ℕ → Option Text → Text → Option ℕ → Accounts → Result (Unit {0} × Accounts)
change_password_tx env key given password kept s = do
  u ← get_user key s
  check_current env u given
  ok (
    tt,
    revoke_all (is_session_other u.id kept) env.now (set_user key (with_password env password) s),
  )

unfoldable pub change_password :
    AuthEnv → ℕ → Option Text → Text → Option ℕ → Action Accounts (Unit {0})
change_password env key given password kept =
    atomic (change_password_tx env key given password kept)

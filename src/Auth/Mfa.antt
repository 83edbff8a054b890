-- ===== src/Auth/Mfa.antt =====
-- The second factor of the administrators (app/modules/auth/service.py: setup_mfa, confirm_mfa,
-- regenerate_mfa_backup_codes, _verify_login_mfa).
use api_kitchen.Base.{
  ℕ, if◌then◌else◌, forbidden, mfa_required, invalid_mfa_code, mfa_already_enabled, mfa_not_enabled,
  Result, ok, err, ◌>>=◌, ◌>>◌, raise_if, or_raise, Action, atomic, Text, strip, is_empty, Bool,
  true, false, not, ◌&&◌, ◌||◌, Option, none, some, List, [], ◌∷◌, map,
}
use api_kitchen.Auth.Tables.{User, Accounts, AuthEnv, set_user, get_user, is_admin, is_missing}

-- `_verify_totp(_decrypt_mfa_secret_for_verification(secret), code)`.
abbrev pub verify_totp : AuthEnv → Option Text → Option Text → Bool
verify_totp env none code = false
verify_totp env (some secret) none = false
verify_totp env (some secret) (some code) =
    not (is_empty secret) && (not (is_empty code) && env.totp secret (strip code))

abbrev pub with_new_secret : AuthEnv → User → User
with_new_secret env u = record u {
  mfa_secret = some env.new_secret;
  mfa_enabled = false;
  mfa_backup_codes = map env.hash env.new_backup_codes;
}

unfoldable pub setup_mfa_tx : AuthEnv → ℕ → Accounts → Result (List Text × Accounts)
setup_mfa_tx env key s = do
  u ← get_user key s
  raise_if (not (is_admin u)) forbidden 403
  raise_if u.mfa_enabled mfa_already_enabled 409
  ok (env.new_backup_codes, set_user key (with_new_secret env) s)

unfoldable pub setup_mfa : AuthEnv → ℕ → Action Accounts (List Text)
setup_mfa env key = atomic (setup_mfa_tx env key)

abbrev pub with_mfa : User → User
with_mfa u = record u { mfa_enabled = true }

unfoldable pub confirm_mfa_tx : AuthEnv → ℕ → Option Text → Accounts → Result (Unit {0} × Accounts)
confirm_mfa_tx env key code s = do
  u ← get_user key s
  raise_if (not (is_admin u)) forbidden 403
  raise_if (not (verify_totp env u.mfa_secret code)) invalid_mfa_code 400
  ok (tt, set_user key with_mfa s)

unfoldable pub confirm_mfa : AuthEnv → ℕ → Option Text → Action Accounts (Unit {0})
confirm_mfa env key code = atomic (confirm_mfa_tx env key code)

abbrev pub with_backup_codes : List Text → User → User
with_backup_codes codes u = record u { mfa_backup_codes = codes }

unfoldable pub regenerate_mfa_backup_codes_tx :
    AuthEnv → ℕ → Option Text → Accounts → Result (List Text × Accounts)
regenerate_mfa_backup_codes_tx env key code s = do
  u ← get_user key s
  raise_if (not (is_admin u)) forbidden 403
  raise_if (not u.mfa_enabled || is_missing u.mfa_secret) mfa_not_enabled 400
  raise_if (not (verify_totp env u.mfa_secret code)) invalid_mfa_code 400
  let hashes = map env.hash env.new_backup_codes
  ok (env.new_backup_codes, set_user key (with_backup_codes hashes) s)

unfoldable pub regenerate_mfa_backup_codes : AuthEnv → ℕ → Option Text → Action Accounts (List Text)
regenerate_mfa_backup_codes env key code = atomic (regenerate_mfa_backup_codes_tx env key code)

-- The loop over the backup codes: what is left without the first that the code verifies.
unfoldable pub use_backup_code : AuthEnv → Text → List Text → Option (List Text)
use_backup_code env code [] = none
use_backup_code env code (h ∷ hs) =
    let rest = use_backup_code env code hs in
    if env.verify code h then some hs else elim rest [ none ↦ none | some left ↦ some (h ∷ left) ]

abbrev pub require_text : Option Text → Result Text
require_text none = err mfa_required 401
require_text (some t) = if is_empty t then err mfa_required 401 else ok t

-- `_verify_login_mfa`.
unfoldable pub verify_login_mfa : AuthEnv → User → Option Text → Accounts → Result Accounts
verify_login_mfa env u mfa_code s = do
  code ← require_text mfa_code
  raise_if (is_missing u.mfa_secret) mfa_required 401
  if verify_totp env u.mfa_secret (some code) then ok s else do
    left ← or_raise (use_backup_code env (strip code) u.mfa_backup_codes) invalid_mfa_code 401
    ok (set_user u.id (with_backup_codes left) s)

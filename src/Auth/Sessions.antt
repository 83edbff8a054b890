-- ===== src/Auth/Sessions.antt =====
-- Sessions (app/modules/auth/service.py: issue_tokens, authenticate, refresh_token, logout,
-- revoke_session, revoke_all_sessions). A refresh reads a session first and claims it afterwards, so
-- another request can stand between the two.
use api_kitchen.Base.{
  ℕ, ◌==◌, if◌then◌else◌, is_key, is_some, not_found, invalid_token, unauthorized,
  invalid_credentials, integrity_error, Result, ok, err, ◌>>=◌, ◌>>◌, raise_if, or_raise, Action,
  atomic, Text, text_eq, find_row, change_row, change_rows, ◌+◌, Bool, true, false, not, ◌&&◌,
  Option, none, some, ◌∷◌,
}
use api_kitchen.Auth.Tables.{User, RefreshToken, Accounts, AuthEnv, get_user, is_admin}
use api_kitchen.Auth.Mfa.{verify_login_mfa}

abbrev pub is_text : Option Text → Text → Bool
is_text none t = false
is_text (some x) t = text_eq x t

abbrev pub has_lookup : Text → RefreshToken → Bool
has_lookup h t = is_text t.token_lookup h

abbrev pub new_session : AuthEnv → ℕ → ℕ → RefreshToken
new_session env key user = record {
  id = key;
  user_id = user;
  token_hash = env.hash env.new_refresh;
  token_lookup = some (env.lookup env.new_refresh);
  expires_at = env.now + env.refresh_ttl;
  revoked_at = none;
}

-- `issue_tokens`: the key of the session. The unique constraint on the lookup refuses a token that is
-- there already.
unfoldable pub issue_tokens : AuthEnv → User → Accounts → Result (ℕ × Accounts)
issue_tokens env u s = do
  raise_if (is_some (find_row (has_lookup (env.lookup env.new_refresh)) s.tokens)) integrity_error
      500
  let key = s.next_token_id
  ok (key, record s { tokens = new_session env key u.id ∷ s.tokens; next_token_id = key + 1 })

abbrev pub is_active_email : Text → User → Bool
is_active_email email u = is_text u.email email && u.is_active

abbrev pub check_mfa : AuthEnv → User → Option Text → Accounts → Result Accounts
check_mfa env u mfa_code s =
    if is_admin u && u.mfa_enabled then verify_login_mfa env u mfa_code s else ok s

unfoldable pub authenticate_tx :
    AuthEnv → Text → Text → Option Text → Accounts → Result ((User × ℕ) × Accounts)
authenticate_tx env email password mfa_code s = do
  u ← or_raise (find_row (is_active_email email) s.users) invalid_credentials 401
  raise_if (not (env.verify password u.password_hash)) invalid_credentials 401
  s₁ ← check_mfa env u mfa_code s
  r ← issue_tokens env u s₁
  ok ((u, r.0), r.1)

unfoldable pub authenticate : AuthEnv → Text → Text → Option Text → Action Accounts (User × ℕ)
authenticate env email password mfa_code = atomic (authenticate_tx env email password mfa_code)

abbrev pub is_unrevoked : RefreshToken → Bool
is_unrevoked t = not (is_some t.revoked_at)

abbrev pub is_session_lookup : Text → RefreshToken → Bool
is_session_lookup h t = has_lookup h t && is_unrevoked t

-- A session from before the lookups, by its owner and its hash.
abbrev pub is_old_session : AuthEnv → ℕ → Text → RefreshToken → Bool
is_old_session env user token t =
    t.user_id == user
    && (not (is_some t.token_lookup) && (is_unrevoked t && env.verify token t.token_hash))

-- The two phases of the lookup.
unfoldable pub current_session : AuthEnv → ℕ → Text → Accounts → Result RefreshToken
current_session env user token s = elim (find_row (is_session_lookup (env.lookup token)) s.tokens) [
  | none ↦ or_raise (find_row (is_old_session env user token) s.tokens) invalid_token 401
  | some t ↦ if env.verify token t.token_hash then ok t else err invalid_token 401
]

-- What a refresh reads: the session, and its active user.
unfoldable pub read_session : AuthEnv → Text → Accounts → Result (RefreshToken × User)
read_session env token s = do
  payload ← or_raise (env.decode token) invalid_token 401
  raise_if (not payload.is_refresh) invalid_token 401
  current ← current_session env payload.user_id token s
  u ← get_user payload.user_id s
  raise_if (not u.is_active) unauthorized 401
  ok (current, u)

abbrev pub is_session_id : ℕ → RefreshToken → Bool
is_session_id key t = t.id == key && is_unrevoked t

abbrev pub revoke : ℕ → RefreshToken → RefreshToken
revoke now t = record t { revoked_at = some now }

-- The conditional update, which takes a session once, and the new session.
unfoldable pub claim_session : AuthEnv → RefreshToken × User → Accounts → Result (ℕ × Accounts)
claim_session env (current, u) s = do
  taken ← or_raise (find_row (is_session_id current.id) s.tokens) invalid_token 401
  issue_tokens env u
      (record s { tokens = change_row (is_session_id current.id) (revoke env.now) s.tokens })

unfoldable pub claim_refresh : AuthEnv → RefreshToken × User → Action Accounts ℕ
claim_refresh env seen = atomic (claim_session env seen)

unfoldable pub refresh_token_tx : AuthEnv → Text → Accounts → Result (ℕ × Accounts)
refresh_token_tx env token s = do seen ← read_session env token s; claim_session env seen s

unfoldable pub refresh_token : AuthEnv → Text → Action Accounts ℕ
refresh_token env token = atomic (refresh_token_tx env token)

abbrev pub is_session_of : ℕ → RefreshToken → Bool
is_session_of user t = t.user_id == user && is_unrevoked t

abbrev pub revoke_all : (RefreshToken → Bool) → ℕ → Accounts → Accounts
revoke_all p now s = record s { tokens = change_rows p (revoke now) s.tokens }

unfoldable pub logout : AuthEnv → ℕ → Accounts → Accounts
logout env user s = revoke_all (is_session_of user) env.now s

abbrev pub is_own_session : ℕ → ℕ → RefreshToken → Bool
is_own_session key user t = t.id == key && is_session_of user t

unfoldable pub revoke_session_tx : AuthEnv → ℕ → ℕ → Accounts → Result (Unit {0} × Accounts)
revoke_session_tx env key user s = do
  t ← or_raise (find_row (is_own_session key user) s.tokens) not_found 404
  ok (tt, record s { tokens = change_row (is_own_session key user) (revoke env.now) s.tokens })

unfoldable pub revoke_session : AuthEnv → ℕ → ℕ → Action Accounts (Unit {0})
revoke_session env key user = atomic (revoke_session_tx env key user)

-- `id != current_session_id`, when a session is to be kept.
abbrev pub is_session_other : ℕ → Option ℕ → RefreshToken → Bool
is_session_other user kept t = is_session_of user t && not (is_key kept t.id)

-- The session that stays, if any.
abbrev pub kept_session : Option ℕ → Bool → Option ℕ
kept_session current true = none
kept_session current false = current

unfoldable pub revoke_all_sessions : AuthEnv → ℕ → Option ℕ → Bool → Accounts → Accounts
revoke_all_sessions env user current revoke_current s =
    revoke_all (is_session_other user (kept_session current revoke_current)) env.now s

-- ===== src/Kds/Remotes.antt =====
-- The sessions of paired remotes (app/modules/kds/service.py: resolve_remote_session,
-- revoke_remote_session, revoke_screen_sessions).
use api_kitchen.Base.{
  ℕ, ◌==◌, if◌then◌else◌, is_some, kds_screen_inactive, kds_session_invalid, kds_session_revoked,
  kds_session_expired, Result, ok, ◌>>=◌, ◌>>◌, raise_if, or_raise, Action, atomic, Text, strip,
  is_empty, find_row, change_row, change_rows, count_rows, Bool, true, false, not, ◌&&◌, ◌||◌, some,
}
use api_kitchen.Kds.Tables.{Screen, Remote, Screens, KdsEnv}
use api_kitchen.Kds.Pairing.{is_expired, get_screen, has_token_hash}

-- `not token or not token.strip()`.
abbrev pub is_blank : Text → Bool
is_blank token = is_empty token || is_empty (strip token)

abbrev pub touch_remote : Bool → ℕ → Remote → Remote
touch_remote true now r = record r { last_seen_at = now }
touch_remote false now r = r

unfoldable pub resolve_remote_session_tx :
    KdsEnv → Text → Bool → Screens → Result ((Remote × Screen) × Screens)
resolve_remote_session_tx env token touch s = do
  raise_if (is_blank token) kds_session_invalid 401
  let p = has_token_hash (env.hash_token (strip token))
  remote ← or_raise (find_row p s.remotes) kds_session_invalid 401
  raise_if (is_some remote.revoked_at) kds_session_revoked 401
  raise_if (is_expired remote.expires_at env.now) kds_session_expired 401
  r ← get_screen remote.screen_id s
  raise_if (not r.is_active) kds_screen_inactive 403
  let seen = touch_remote touch env.now
  ok ((seen remote, r), record s { remotes = change_row p seen s.remotes })

unfoldable pub resolve_remote_session : KdsEnv → Text → Bool → Action Screens (Remote × Screen)
resolve_remote_session env token touch = atomic (resolve_remote_session_tx env token touch)

abbrev pub revoke_remote : ℕ → Remote → Remote
revoke_remote now r = record r { revoked_at = some now }

unfoldable pub revoke_remote_session_tx : KdsEnv → Text → Screens → Result (Unit {0} × Screens)
revoke_remote_session_tx env token s = do
  raise_if (is_blank token) kds_session_invalid 401
  let p = has_token_hash (env.hash_token (strip token))
  remote ← or_raise (find_row p s.remotes) kds_session_invalid 401
  if is_some remote.revoked_at then ok (tt, s) else do
    raise_if (is_expired remote.expires_at env.now) kds_session_expired 401
    ok (tt, record s { remotes = change_row p (revoke_remote env.now) s.remotes })

unfoldable pub revoke_remote_session : KdsEnv → Text → Action Screens (Unit {0})
revoke_remote_session env token = atomic (revoke_remote_session_tx env token)

abbrev pub is_unrevoked_of : ℕ → Remote → Bool
is_unrevoked_of screen r = r.screen_id == screen && not (is_some r.revoked_at)

-- The count of the revoked rows, as the response gives it.
unfoldable pub revoke_screen_sessions_tx : KdsEnv → ℕ → Screens → Result (ℕ × Screens)
revoke_screen_sessions_tx env screen s = do
  r ← get_screen screen s
  ok (
    count_rows (is_unrevoked_of screen) s.remotes,
    record s { remotes = change_rows (is_unrevoked_of screen) (revoke_remote env.now) s.remotes },
  )

unfoldable pub revoke_screen_sessions : KdsEnv → ℕ → Action Screens ℕ
revoke_screen_sessions env screen = atomic (revoke_screen_sessions_tx env screen)

-- ===== src/Kds/Pairing.antt =====
-- Screens, pairing codes and the pairing of a remote (app/modules/kds/service.py: create_screen,
-- update_screen, create_pairing_code, pair_remote). The encrypted payload of a QR code only carries a
-- code to `pair_remote`.
use api_kitchen.Base.{
  ℕ, leb, ◌==◌, if◌then◌else◌, is_some, kds_screen_not_found, kds_screen_inactive,
  kds_screen_remote_disabled, kds_screen_key_already_exists, pairing_code_generation_failed,
  kds_session_generation_failed, pairing_code_invalid, pairing_code_already_used,
  pairing_code_expired, Result, ok, ◌>>=◌, ◌>>◌, raise_if, or_raise, Action, atomic, Text, is_empty,
  text_eq, find_row, change_row, change_rows, zero, suc, ◌+◌, Bool, false, not, ◌&&◌, Option, none,
  some, List, ◌∷◌, or_keep,
}
use api_kitchen.Kds.Tables.{Screen, PairingCode, Remote, Screens, KdsEnv}

-- `_is_expired`.
abbrev pub is_expired : ℕ → ℕ → Bool
is_expired expires_at now = leb expires_at now

abbrev pub is_screen : ℕ → Screen → Bool
is_screen key r = r.id == key

abbrev pub has_key : Text → Screen → Bool
has_key key r = text_eq r.screen_key key

-- `_get_screen_or_404`.
unfoldable pub get_screen : ℕ → Screens → Result Screen
get_screen key s = or_raise (find_row (is_screen key) s.screens) kds_screen_not_found 404

unfoldable pub create_screen_tx : Text → Bool → Bool → Screens → Result (Screen × Screens)
create_screen_tx key active remote s = do
  raise_if (is_some (find_row (has_key key) s.screens)) kds_screen_key_already_exists 409
  let r : Screen = record {
    id = s.next_screen_id;
    screen_key = key;
    is_active = active;
    remote_enabled = remote;
  }
  ok (r, record s { screens = r ∷ s.screens; next_screen_id = s.next_screen_id + 1 })

unfoldable pub create_screen : Text → Bool → Bool → Action Screens Screen
create_screen key active remote = atomic (create_screen_tx key active remote)

abbrev pub set_screen : Option Text → Option Bool → Option Bool → Screen → Screen
set_screen key active remote r = record r {
  screen_key = or_keep key r.screen_key;
  is_active = or_keep active r.is_active;
  remote_enabled = or_keep remote r.remote_enabled;
}

-- `next_key and next_key != screen.screen_key`, and a row that has the key.
abbrev pub is_key_taken : Option Text → Screen → List Screen → Bool
is_key_taken none r rows = false
is_key_taken (some key) r rows =
    not (is_empty key) && not (text_eq key r.screen_key) && is_some (find_row (has_key key) rows)

unfoldable pub update_screen_tx :
    ℕ → Option Text → Option Bool → Option Bool → Screens → Result (Unit {0} × Screens)
update_screen_tx id key active remote s = do
  r ← get_screen id s
  raise_if (is_key_taken key r s.screens) kds_screen_key_already_exists 409
  ok (tt, record s { screens = change_row (is_screen id) (set_screen key active remote) s.screens })

unfoldable pub update_screen :
    ℕ → Option Text → Option Bool → Option Bool → Action Screens (Unit {0})
update_screen id key active remote = atomic (update_screen_tx id key active remote)

-- A code that can still be paired.
abbrev pub is_usable : ℕ → PairingCode → Bool
is_usable now c = not (is_some c.used_at) && not (is_expired c.expires_at now)

abbrev pub is_usable_of : ℕ → ℕ → PairingCode → Bool
is_usable_of screen now c = c.screen_id == screen && is_usable now c

abbrev pub use_code : ℕ → PairingCode → PairingCode
use_code now c = record c { used_at = some now }

abbrev pub has_code_hash : Text → PairingCode → Bool
has_code_hash h c = text_eq c.code_hash h

abbrev pub is_usable_hash : Text → ℕ → PairingCode → Bool
is_usable_hash h now c = has_code_hash h c && is_usable now c

-- The loop `for _ in range(10)`: the first draw that is not taken, with the attempts left.
unfoldable pub draw : (Text → Bool) → (ℕ → Text) → ℕ → ℕ → Option Text
draw taken drawn i zero = none
draw taken drawn i (suc left) =
    let rest = draw taken drawn (suc i) left in if taken (drawn i) then rest else some (drawn i)

abbrev pub attempts : ℕ
attempts = 10

-- A code that has no usable row.
abbrev pub is_code_taken : KdsEnv → List PairingCode → Text → Bool
is_code_taken env rows code = is_some (find_row (is_usable_hash (env.hash_code code) env.now) rows)

unfoldable pub draw_code : KdsEnv → List PairingCode → Result Text
draw_code env rows =
    or_raise (draw (is_code_taken env rows) env.drawn_code 0 attempts)
      pairing_code_generation_failed 503

abbrev pub has_token_hash : Text → Remote → Bool
has_token_hash h r = text_eq r.session_token_hash h

abbrev pub is_token_taken : KdsEnv → List Remote → Text → Bool
is_token_taken env rows token = is_some (find_row (has_token_hash (env.hash_token token)) rows)

unfoldable pub draw_token : KdsEnv → List Remote → Result Text
draw_token env rows =
    or_raise (draw (is_token_taken env rows) env.drawn_token 0 attempts)
      kds_session_generation_failed 503

-- PAIRING_CODE_TTL and REMOTE_SESSION_TTL, in seconds.
abbrev pub pairing_code_ttl : ℕ
pairing_code_ttl = 300

abbrev pub remote_session_ttl : ℕ
remote_session_ttl = 43200

abbrev pub new_code : KdsEnv → ℕ → Text → ℕ → PairingCode
new_code env screen code user = record {
  screen_id = screen;
  code_hash = env.hash_code code;
  expires_at = env.now + pairing_code_ttl;
  used_at = none;
  created_by_user_id = user;
}

-- The codes of the screen that could still be paired, used up by one `update`.
unfoldable pub retire_codes : KdsEnv → ℕ → Screens → Screens
retire_codes env screen s = record s {
  codes = change_rows (is_usable_of screen env.now) (use_code env.now) s.codes;
}

unfoldable pub add_code : KdsEnv → ℕ → ℕ → Screens → Result (Text × Screens)
add_code env screen user s = do
  code ← draw_code env s.codes
  ok (code, record s { codes = new_code env screen code user ∷ s.codes })

-- No lock is taken on the screen: here nothing comes between the update and the new code.
unfoldable pub create_pairing_code_tx : KdsEnv → ℕ → ℕ → Screens → Result (Text × Screens)
unfolding retire_codes add_code
create_pairing_code_tx env screen user s = do
  r ← get_screen screen s
  raise_if (not r.is_active) kds_screen_inactive 409
  raise_if (not r.remote_enabled) kds_screen_remote_disabled 409
  add_code env screen user (retire_codes env screen s)

unfoldable pub create_pairing_code : KdsEnv → ℕ → ℕ → Action Screens Text
create_pairing_code env screen user = atomic (create_pairing_code_tx env screen user)

abbrev pub new_remote : KdsEnv → ℕ → Text → ℕ → ℕ → Remote
new_remote env key token screen user = record {
  id = key;
  session_token_hash = env.hash_token token;
  screen_id = screen;
  paired_by_user_id = user;
  last_seen_at = env.now;
  expires_at = env.now + remote_session_ttl;
  revoked_at = none;
}

unfoldable pub pair_remote_tx : KdsEnv → Text → ℕ → Screens → Result (Text × Screens)
pair_remote_tx env code user s = do
  let p = has_code_hash (env.hash_code code)
  pairing ← or_raise (find_row p s.codes) pairing_code_invalid 400
  raise_if (is_some pairing.used_at) pairing_code_already_used 409
  raise_if (is_expired pairing.expires_at env.now) pairing_code_expired 400
  r ← get_screen pairing.screen_id s
  raise_if (not r.is_active) kds_screen_inactive 409
  token ← draw_token env s.remotes
  ok (
    token,
    record s {
      codes = change_row p (use_code env.now) s.codes;
      remotes = new_remote env s.next_remote_id token r.id user ∷ s.remotes;
      next_remote_id = s.next_remote_id + 1;
    },
  )

unfoldable pub pair_remote : KdsEnv → Text → ℕ → Action Screens Text
pair_remote env code user = atomic (pair_remote_tx env code user)

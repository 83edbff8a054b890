-- ===== src/Kds/OneUsable.antt =====
-- A screen shows one code at a time: the older ones cannot be paired any more.
use api_kitchen.Base.{
  ℕ, Option-cases, ok, atomic-keeps, Text, find_row, change_rows, count_rows, count-change_row, ◌≤◌,
  ◌≡◌, refl, inl, inr, List, [], ◌∷◌, arith,
}
use api_kitchen.Kds.Requests.{
  ScreenRequest, adds, edits, asks_code, pairs, resolves, revokes, revokes_all, serve_screen,
  serve_screens, Chronological, last_now,
}
use api_kitchen.Kds.Tables.{PairingCode, Screens, KdsEnv}
use api_kitchen.Kds.Remotes.{
  resolve_remote_session_tx, resolve_remote_session, revoke_remote_session_tx,
  revoke_remote_session, revoke_screen_sessions_tx, revoke_screen_sessions,
}
use api_kitchen.Kds.Pairing.{
  create_screen_tx, create_screen, update_screen_tx, update_screen, is_usable_of, use_code,
  has_code_hash, create_pairing_code_tx, create_pairing_code, pair_remote_tx, pair_remote,
  retire_codes, add_code,
}

abbrev pub usable_count : ℕ → ℕ → List PairingCode → ℕ
usable_count screen now = count_rows (is_usable_of screen now)

-- From a time on, no screen has two usable codes.
abbrev pub OneUsable : ℕ → List PairingCode → Type 0
OneUsable t rows = (screen now : ℕ) → t ≤ now → usable_count screen now rows ≤ 1

used-usable_count :
    (screen now : ℕ) (k later : ℕ) (rows : List PairingCode)
    → usable_count k later (change_rows (is_usable_of screen now) (use_code now) rows)
      ≤ usable_count k later rows
used-usable_count screen now k later [] = omega arith
used-usable_count screen now k later (c ∷ rows) =
    ground (arith, used-usable_count screen now k later rows)

-- What is usable later was usable before, so nothing of the screen is left.
used-usable_count_zero :
    (screen now later : ℕ) (rows : List PairingCode)
    → now ≤ later
    → usable_count screen later (change_rows (is_usable_of screen now) (use_code now) rows) ≡ 0
used-usable_count_zero screen now later [] le = refl
used-usable_count_zero screen now later (c ∷ rows) le =
    ground (arith, used-usable_count_zero screen now later rows le)

create_pairing_code_tx-OneUsable :
    (env : KdsEnv) (screen user t : ℕ) (s s' : Screens) (code : Text)
    → OneUsable t s.codes
    → t ≤ env.now
    → create_pairing_code_tx env screen user s ≡ ok (code, s')
    → OneUsable env.now s'.codes
unfolding create_pairing_code_tx retire_codes add_code
create_pairing_code_tx-OneUsable env screen user t s s' code h le e k later after = ground (
  arith,
  h k later,
  used-usable_count screen env.now k later s.codes,
  used-usable_count_zero screen env.now later s.codes,
)

pair_remote_tx-OneUsable :
    (env : KdsEnv) (code : Text) (user t : ℕ) (s s' : Screens) (token : Text)
    → OneUsable t s.codes
    → t ≤ env.now
    → pair_remote_tx env code user s ≡ ok (token, s')
    → OneUsable env.now s'.codes
unfolding pair_remote_tx
pair_remote_tx-OneUsable env code user t s s' token h le e k later after =
    let p = has_code_hash (env.hash_code code) in
    elim (Option-cases (find_row p s.codes)) [
      | inl missing ↦ absurd (ground arith)
      | inr (c, found) ↦ ground (
        arith,
        h k later,
        count-change_row p (is_usable_of k later) (use_code env.now) s.codes c found,
      )
    ]

later-OneUsable : (t u : ℕ) (rows : List PairingCode) → OneUsable t rows → t ≤ u → OneUsable u rows
later-OneUsable t u rows h le k later after = h k later (omega arith)

serve_screen-OneUsable :
    (env : KdsEnv) (r : ScreenRequest) (t : ℕ) (s : Screens)
    → OneUsable t s.codes
    → t ≤ env.now
    → OneUsable env.now (serve_screen env r s).codes
unfolding create_screen create_screen_tx update_screen update_screen_tx resolve_remote_session
    resolve_remote_session_tx revoke_remote_session revoke_remote_session_tx revoke_screen_sessions
    revoke_screen_sessions_tx create_pairing_code pair_remote
serve_screen-OneUsable env (adds key active remote) t s h le =
    λ k later after. ground (arith, h k later)
serve_screen-OneUsable env (edits screen key active remote) t s h le =
    λ k later after. ground (arith, h k later)
serve_screen-OneUsable env (asks_code screen user) t s h le =
    atomic-keeps (λ (x : Screens). OneUsable env.now x.codes)
      (create_pairing_code_tx env screen user) s (later-OneUsable t env.now s.codes h le)
      (λ code s' e. create_pairing_code_tx-OneUsable env screen user t s s' code h le e)
serve_screen-OneUsable env (pairs code user) t s h le =
    atomic-keeps (λ (x : Screens). OneUsable env.now x.codes) (pair_remote_tx env code user) s
      (later-OneUsable t env.now s.codes h le)
      (λ token s' e. pair_remote_tx-OneUsable env code user t s s' token h le e)
serve_screen-OneUsable env (resolves token touch) t s h le =
    λ k later after. ground (arith, h k later)
serve_screen-OneUsable env (revokes token) t s h le = λ k later after. ground (arith, h k later)
serve_screen-OneUsable env (revokes_all screen) t s h le =
    λ k later after. ground (arith, h k later)

-- Whatever requests are served in the order of their clocks, refused ones included, each over
-- before the next begins, from tables where no screen has two usable codes, no screen has two
-- afterwards, then or at any later time.
pub serve_screens-OneUsable :
    (rs : List (KdsEnv × ScreenRequest)) (t : ℕ) (s : Screens)
    → OneUsable t s.codes
    → Chronological t rs
    → OneUsable (last_now t rs) (serve_screens rs s).codes
serve_screens-OneUsable [] t s h c = h
serve_screens-OneUsable (r ∷ rs) t s h c =
    serve_screens-OneUsable rs r.0.now (serve_screen r.0 r.1 s)
      (serve_screen-OneUsable r.0 r.1 t s h c.0) c.1

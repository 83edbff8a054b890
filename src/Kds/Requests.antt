-- ===== src/Kds/Requests.antt =====
-- The requests on screens and remotes (app/modules/kds/router.py), each with what it reads from
-- outside the tables, and the tables after them.
use api_kitchen.Base.{ℕ, Text, ◌≤◌, Bool, Option, List, [], ◌∷◌}
use api_kitchen.Kds.Tables.{Screens, KdsEnv}
use api_kitchen.Kds.Remotes.{resolve_remote_session, revoke_remote_session, revoke_screen_sessions}
use api_kitchen.Kds.Pairing.{create_screen, update_screen, create_pairing_code, pair_remote}

pub data ScreenRequest : Type 0 where
  adds : (key : Text) (active remote : Bool) → ScreenRequest
  edits : (screen : ℕ) (key : Option Text) (active remote : Option Bool) → ScreenRequest
  asks_code : (screen user : ℕ) → ScreenRequest
  pairs : (code : Text) (user : ℕ) → ScreenRequest
  resolves : (token : Text) (touch : Bool) → ScreenRequest
  revokes : (token : Text) → ScreenRequest
  revokes_all : (screen : ℕ) → ScreenRequest

abbrev pub serve_screen : KdsEnv → ScreenRequest → Screens → Screens
serve_screen env (adds key active remote) s = (create_screen key active remote s).1
serve_screen env (edits screen key active remote) s = (update_screen screen key active remote s).1
serve_screen env (asks_code screen user) s = (create_pairing_code env screen user s).1
serve_screen env (pairs code user) s = (pair_remote env code user s).1
serve_screen env (resolves token touch) s = (resolve_remote_session env token touch s).1
serve_screen env (revokes token) s = (revoke_remote_session env token s).1
serve_screen env (revokes_all screen) s = (revoke_screen_sessions env screen s).1

abbrev pub serve_screens : List (KdsEnv × ScreenRequest) → Screens → Screens
serve_screens [] s = s
serve_screens (r ∷ rs) s = serve_screens rs (serve_screen r.0 r.1 s)

-- The clock does not go back between requests.
abbrev pub Chronological : ℕ → List (KdsEnv × ScreenRequest) → Type 0
Chronological t [] = Unit
Chronological t (r ∷ rs) = (t ≤ r.0.now) × Chronological r.0.now rs

-- The clock of the last request.
abbrev pub last_now : ℕ → List (KdsEnv × ScreenRequest) → ℕ
last_now t [] = t
last_now t (r ∷ rs) = last_now r.0.now rs

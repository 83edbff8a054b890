-- ===== src/Kds/Revoked.antt =====
-- A revoked session stays revoked.
use api_kitchen.Base.{
  ℕ, is_some, Bool-cases, ok, Text, text_eq, find_row, change_row, change_rows, ◌≡◌, refl, inl, inr,
  Bool, true, false, none, some, List, [], ◌∷◌, arith, Option-cases, kds_session_revoked, err,
  atomic-keeps, Result-cases, strip, find_row_test, find-change_row, sym, ap, subst, text_eq_sound,
}
use api_kitchen.Kds.Draws.{draw_token_free}
use api_kitchen.Kds.Tables.{Remote, KdsEnv, Screens}
use api_kitchen.Kds.Pairing.{
  has_token_hash, draw_token, new_remote, get_screen, create_screen_tx, create_screen,
  update_screen_tx, update_screen, has_code_hash, create_pairing_code_tx, create_pairing_code,
  pair_remote_tx, pair_remote, retire_codes, add_code,
}
use api_kitchen.Kds.Requests.{
  ScreenRequest, adds, edits, asks_code, pairs, resolves, revokes, revokes_all, serve_screen,
  serve_screens,
}
use api_kitchen.Kds.Remotes.{
  is_blank, touch_remote, resolve_remote_session_tx, resolve_remote_session, revoke_remote,
  revoke_remote_session_tx, revoke_remote_session, is_unrevoked_of, revoke_screen_sessions_tx,
  revoke_screen_sessions,
}

-- Whether the row that has a token's hash is there and revoked.
abbrev pub is_revoked : Text → List Remote → Bool
is_revoked h rows = elim (find_row (has_token_hash h) rows) [
  | none ↦ false
  | some r ↦ is_some r.revoked_at
]

-- A change that keeps the hash and revokes rather than restores.
abbrev Revokes : (Remote → Remote) → Type 0
Revokes f =
    (r : Remote)
    → ((f r).session_token_hash ≡ r.session_token_hash)
      × (is_some r.revoked_at ≡ true → is_some (f r).revoked_at ≡ true)

change_row-is_revoked :
    (h : Text) (p : Remote → Bool) (f : Remote → Remote) (rows : List Remote)
    → Revokes f
    → is_revoked h rows ≡ true
    → is_revoked h (change_row p f rows) ≡ true
change_row-is_revoked h p f [] good e = cc
change_row-is_revoked h p f (r ∷ rows) good e =
    ground (arith, good r, change_row-is_revoked h p f rows good)

change_rows-is_revoked :
    (h : Text) (p : Remote → Bool) (f : Remote → Remote) (rows : List Remote)
    → Revokes f
    → is_revoked h rows ≡ true
    → is_revoked h (change_rows p f rows) ≡ true
change_rows-is_revoked h p f [] good e = cc
change_rows-is_revoked h p f (r ∷ rows) good e =
    ground (arith, good r, change_rows-is_revoked h p f rows good)

-- A new remote has a hash of its own, so the older row is still the one that is found.
new_remote-is_revoked :
    (env : KdsEnv) (h token : Text) (key screen user : ℕ) (rows : List Remote)
    → draw_token env rows ≡ ok token
    → is_revoked h rows ≡ true
    → is_revoked h (new_remote env key token screen user ∷ rows) ≡ true
new_remote-is_revoked env h token key screen user rows drawn e =
    elim (Bool-cases (text_eq (env.hash_token token) h)) [
      | inr other ↦ ground arith
      | inl same ↦
          let free = draw_token_free env rows token drawn in
          let eq = text_eq_sound (env.hash_token token) h same in absurd (grind arith)
    ]

abbrev Holds : Text → Screens → Type 0
Holds h s = is_revoked h s.remotes ≡ true

touch-Revokes : (touch : Bool) (now : ℕ) → Revokes (touch_remote touch now)
touch-Revokes true now r = (refl, λ e. e)
touch-Revokes false now r = (refl, λ e. e)

revoke-Revokes : (now : ℕ) → Revokes (revoke_remote now)
revoke-Revokes now r = (refl, λ e. refl)

pair_remote_tx-Holds :
    (env : KdsEnv) (code : Text) (user : ℕ) (h : Text) (s s' : Screens) (token : Text)
    → Holds h s
    → pair_remote_tx env code user s ≡ ok (token, s')
    → Holds h s'
unfolding pair_remote_tx
pair_remote_tx-Holds env code user h s s' token e done =
    let p = has_code_hash (env.hash_code code) in
    elim (Option-cases (find_row p s.codes)) [
      | inl missing ↦ absurd (ground arith)
      | inr (c, found) ↦ elim (Result-cases (get_screen c.screen_id s)) [
        | inl (x, n, no_screen) ↦ absurd (ground arith)
        | inr (r, screen) ↦ elim (Result-cases (draw_token env s.remotes)) [
          | inl (x, n, no_token) ↦ absurd (ground arith)
          | inr (t, drawn) ↦
              ground
                (arith, new_remote-is_revoked env h t s.next_remote_id r.id user s.remotes drawn e)
        ]
      ]
    ]

serve_screen-Holds :
    (env : KdsEnv) (r : ScreenRequest) (h : Text) (s : Screens)
    → Holds h s
    → Holds h (serve_screen env r s)
unfolding create_screen create_screen_tx update_screen update_screen_tx resolve_remote_session
    resolve_remote_session_tx revoke_remote_session revoke_remote_session_tx revoke_screen_sessions
    revoke_screen_sessions_tx create_pairing_code create_pairing_code_tx retire_codes add_code
    pair_remote
serve_screen-Holds env (adds key active remote) h s e = ground arith
serve_screen-Holds env (edits screen key active remote) h s e = ground arith
serve_screen-Holds env (asks_code screen user) h s e = ground arith
serve_screen-Holds env (pairs code user) h s e =
    atomic-keeps (Holds h) (pair_remote_tx env code user) s e
      (λ token s' done. pair_remote_tx-Holds env code user h s s' token e done)
serve_screen-Holds env (resolves token touch) h s e = ground (
  arith,
  change_row-is_revoked h (has_token_hash (env.hash_token (strip token)))
      (touch_remote touch env.now) s.remotes (touch-Revokes touch env.now) e,
)
serve_screen-Holds env (revokes token) h s e = ground (
  arith,
  change_row-is_revoked h (has_token_hash (env.hash_token (strip token))) (revoke_remote env.now)
      s.remotes (revoke-Revokes env.now) e,
)
serve_screen-Holds env (revokes_all screen) h s e = ground (
  arith,
  change_rows-is_revoked h (is_unrevoked_of screen) (revoke_remote env.now) s.remotes
      (revoke-Revokes env.now) e,
)

serve_screens-Holds :
    (rs : List (KdsEnv × ScreenRequest)) (h : Text) (s : Screens)
    → Holds h s
    → Holds h (serve_screens rs s)
serve_screens-Holds [] h s e = e
serve_screens-Holds (r ∷ rs) h s e =
    serve_screens-Holds rs h (serve_screen r.0 r.1 s) (serve_screen-Holds r.0 r.1 h s e)

-- What a revocation that returns leaves: the session's row is revoked.
revoke_remote_session-Holds :
    (env : KdsEnv) (token : Text) (s s' : Screens)
    → revoke_remote_session env token s ≡ (ok tt, s')
    → (is_blank token ≡ false) × Holds (env.hash_token (strip token)) s'
unfolding revoke_remote_session revoke_remote_session_tx
revoke_remote_session-Holds env token s s' e =
    let p = has_token_hash (env.hash_token (strip token)) in
    elim (Option-cases (find_row p s.remotes)) [
      | inl missing ↦ absurd (ground arith)
      | inr (r, found) ↦ (
        ground arith,
        ground (
          arith,
          find_row_test p s.remotes r found,
          find-change_row p (revoke_remote env.now) s.remotes r found,
        ),
      )
    ]

revoked-refused :
    (env : KdsEnv) (token : Text) (touch : Bool) (s : Screens)
    → is_blank token ≡ false
    → Holds (env.hash_token (strip token)) s
    → resolve_remote_session env token touch s ≡ (err kds_session_revoked 401, s)
unfolding resolve_remote_session resolve_remote_session_tx
revoked-refused env token touch s full e =
    elim (Option-cases (find_row (has_token_hash (env.hash_token (strip token))) s.remotes)) [
      | inl missing ↦ absurd (ground arith)
      | inr (r, found) ↦ ground arith
    ]

-- Once a session was revoked by its token, that token is refused as revoked after any further
-- requests, pairings included, whatever screens and clocks they bring, as long as tokens are hashed
-- with the same secret.
pub revoked_for_good :
    (env env' : KdsEnv) (token : Text) (touch : Bool) (s s' : Screens)
    (rs : List (KdsEnv × ScreenRequest))
    → revoke_remote_session env token s ≡ (ok tt, s')
    → env'.hash_token (strip token) ≡ env.hash_token (strip token)
    → (resolve_remote_session env' token touch (serve_screens rs s')).0
      ≡ err kds_session_revoked 401
revoked_for_good env env' token touch s s' rs e same =
    let (full, left) = revoke_remote_session-Holds env token s s' e in
    let h = env'.hash_token (strip token) in
    let now : Holds h (serve_screens rs s') =
      serve_screens-Holds rs h s' (subst (λ h. Holds h s') (sym same) left) in
    ap (λ p. p.0) (revoked-refused env' token touch (serve_screens rs s') full now)

-- ===== src/Kds/Paired.antt =====
-- A code pairs one remote, and the token of a remote opens its session.
use api_kitchen.Base.{
  ℕ, Option-cases, pairing_code_already_used, ok, err, Result-cases, Text, find_row, change_row,
  find_row_test, find-change_row, ◌+◌, ◌≡◌, refl, inl, inr, true, some, ◌∷◌, arith,
  kds_session_generation_failed, strip, change_rows, ◌<◌, ◌⊎◌, Bool, false, List, text_eq_self,
}
use api_kitchen.Kds.Tables.{Screen, PairingCode, Screens, KdsEnv, Remote}
use api_kitchen.Kds.Pairing.{
  get_screen, use_code, has_code_hash, draw_token, new_remote, pair_remote_tx, pair_remote,
  is_usable_of, draw_code, new_code, create_pairing_code_tx, create_pairing_code, is_screen,
  retire_codes, add_code,
}
use api_kitchen.Kds.Draws.{draw_token_cases}
use api_kitchen.Kds.Remotes.{
  is_blank, touch_remote, resolve_remote_session_tx, resolve_remote_session,
}

get_screen_self :
    (key : ℕ) (s : Screens) (r : Screen) → get_screen key s ≡ ok r → get_screen r.id s ≡ ok r
unfolding get_screen
get_screen_self key s r e = elim (Option-cases (find_row (is_screen key) s.screens)) [
  | inl missing ↦ absurd (ground arith)
  | inr (x, found) ↦ let test = find_row_test (is_screen key) s.screens x found in grind arith
]

-- What the tables and the answer are after a code was paired.
pair_remote_ok :
    (env : KdsEnv) (code : Text) (user : ℕ) (s s' : Screens) (token : Text)
    → pair_remote env code user s ≡ (ok token, s')
    → (c : PairingCode) × (r : Screen) × (find_row (has_code_hash (env.hash_code code)) s.codes
        ≡ some c)
      × (get_screen c.screen_id s ≡ ok r)
      × (r.is_active ≡ true)
      × (s' ≡ record s {
        codes = change_row (has_code_hash (env.hash_code code)) (use_code env.now) s.codes;
        remotes = new_remote env s.next_remote_id token r.id user ∷ s.remotes;
        next_remote_id = s.next_remote_id + 1;
      })
unfolding pair_remote pair_remote_tx
pair_remote_ok env code user s s' token e =
    let p = has_code_hash (env.hash_code code) in
    elim (Option-cases (find_row p s.codes)) [
      | inl missing ↦ absurd (ground arith)
      | inr (c, found) ↦ elim (Result-cases (get_screen c.screen_id s)) [
        | inl (x, n, no_screen) ↦ absurd (ground arith)
        | inr (r, screen) ↦ elim (Result-cases (draw_token env s.remotes)) [
          | inl (x, n, no_token) ↦ absurd (ground arith)
          | inr (t, drawn) ↦ (c, r, found, screen, ground arith, ground arith)
        ]
      ]
    ]

-- Right after a code has paired a remote it is used.
pair_remote_again :
    (env env' : KdsEnv) (code : Text) (user user' : ℕ) (s s' : Screens) (token : Text)
    → pair_remote env code user s ≡ (ok token, s')
    → env'.hash_code code ≡ env.hash_code code
    → pair_remote env' code user' s' ≡ (err pairing_code_already_used 409, s')
unfolding pair_remote pair_remote_tx
pair_remote_again env env' code user user' s s' token e same =
    let (c, r, found, screen, active, after) = pair_remote_ok env code user s s' token e in
    let p = has_code_hash (env.hash_code code) in
    let here =
      find-change_row p (use_code env.now) s.codes c found (find_row_test p s.codes c found) in
    rw (same, after, here) refl

create_pairing_code_ok :
    (env : KdsEnv) (screen user : ℕ) (s s' : Screens) (code : Text)
    → create_pairing_code env screen user s ≡ (ok code, s')
    → (r : Screen) × (rows : List PairingCode) × (get_screen screen s ≡ ok r)
      × (r.is_active ≡ true)
      × (s' ≡ record s { codes = new_code env screen code user ∷ rows })
unfolding create_pairing_code create_pairing_code_tx retire_codes add_code
create_pairing_code_ok env screen user s s' code e =
    let rows = change_rows (is_usable_of screen env.now) (use_code env.now) s.codes in
    elim (Result-cases (get_screen screen s)) [
      | inl (x, n, no_screen) ↦ absurd (ground arith)
      | inr (r, found) ↦ elim (Result-cases (draw_code env rows)) [
        | inl (x, n, no_code) ↦ absurd (ground arith)
        | inr (c, drawn) ↦ (r, rows, found, ground arith, ground arith)
      ]
    ]

pair_new_code :
    (env env' : KdsEnv) (screen user user' : ℕ) (s s' : Screens) (code token : Text)
    → create_pairing_code env screen user s ≡ (ok code, s')
    → env'.hash_code code ≡ env.hash_code code
    → env'.now < env.now + 300
    → draw_token env' s.remotes ≡ ok token
    → (s'' : Screens) × (pair_remote env' code user' s' ≡ (ok token, s''))
unfolding pair_remote pair_remote_tx get_screen
pair_new_code env env' screen user user' s s' code token e same soon drawn =
    let (r, rows, found, active, after) = create_pairing_code_ok env screen user s s' code e in
    (
      record s' {
        codes = use_code env'.now (new_code env screen code user) ∷ rows;
        remotes = new_remote env' s.next_remote_id token r.id user' ∷ s.remotes;
        next_remote_id = s.next_remote_id + 1;
      },
      rw (after, same, text_eq_self (env.hash_code code)) (ground (arith)),
    )

-- When a screen was just given a code and the very next request, within its five minutes, pairs it,
-- that request returns a token, unless ten random tokens in a row all have a row already, and if
-- the request right after that, whoever makes it and at any clock, asks to pair the same code, it
-- is refused as used. Nothing comes between the three requests, and all three hash codes with the
-- same secret.
pub code_pairs_once :
    (env env' : KdsEnv) (screen user user' : ℕ) (s s' : Screens) (code : Text)
    → create_pairing_code env screen user s ≡ (ok code, s')
    → env'.hash_code code ≡ env.hash_code code
    → env'.now < env.now + 300
    → ((token : Text) × (s'' : Screens) × (pair_remote env' code user' s' ≡ (ok token, s''))
        × ((later : KdsEnv) (other : ℕ)
            → later.hash_code code ≡ env'.hash_code code
            → pair_remote later code other s'' ≡ (err pairing_code_already_used 409, s'')))
      ⊎ (draw_token env' s.remotes ≡ err kds_session_generation_failed 503)
code_pairs_once env env' screen user user' s s' code e same soon =
    elim (draw_token_cases env' s.remotes) [
      | inl refused ↦ inr refused
      | inr (token, drawn) ↦
          let (s'', paired) =
            pair_new_code env env' screen user user' s s' code token e same soon drawn in
          inl (
            token,
            s'',
            paired,
            λ later other hash.
                pair_remote_again env' later code user' other s' s'' token paired hash,
          )
    ]

-- A token that a pairing returned opens the session of its screen until twelve hours have passed,
-- for whoever paired it, when nothing was asked in between, the token has no spaces around it and is
-- not empty, and both times are under the same secret.
pub pair-resolve :
    (env env' : KdsEnv) (code : Text) (user : ℕ) (touch : Bool) (s s' : Screens) (token : Text)
    → pair_remote env code user s ≡ (ok token, s')
    → is_blank token ≡ false
    → strip token ≡ token
    → env'.hash_token token ≡ env.hash_token token
    → env'.now < env.now + 43200
    → (remote : Remote) × (screen : Screen) × ((resolve_remote_session env' token touch s').0
        ≡ ok (remote, screen))
      × (remote.paired_by_user_id ≡ user)
      × (remote.screen_id ≡ screen.id)
      × (screen.is_active ≡ true)
unfolding resolve_remote_session resolve_remote_session_tx get_screen
pair-resolve env env' code user touch s s' token e full bare same soon =
    let (c, r, found, screen, active, after) = pair_remote_ok env code user s s' token e in
    let seen = touch_remote touch env'.now (new_remote env s.next_remote_id token r.id user) in
    let here : get_screen r.id s ≡ ok r = get_screen_self c.screen_id s r screen in
    (
      seen,
      r,
      rw (after) (ground (arith, text_eq_self (env.hash_token token))),
      ground arith,
      ground arith,
      active,
    )

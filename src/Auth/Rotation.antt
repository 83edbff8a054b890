-- ===== src/Auth/Rotation.antt =====
-- A session is exchanged once, and a new password ends the sessions of the old one.
use api_kitchen.Base.{
  ℕ, ◌==◌, Option-cases, invalid_token, ok, err, Result-cases, commit_ok, Text, find_row,
  change_row, change_rows, find_row_test, ◌≤◌, ◌<◌, ◌≡◌, refl, inl, inr, Bool, true, none, some,
  List, [], ◌∷◌, arith,
}
use api_kitchen.Auth.Sessions.{
  new_session, issue_tokens, is_active_email, is_unrevoked, is_session_lookup, is_old_session,
  current_session, read_session, is_session_id, revoke, claim_session, claim_refresh,
  refresh_token_tx, refresh_token, is_session_of,
}
use api_kitchen.Auth.Passwords.{reset_password_tx, reset_password}
use api_kitchen.Auth.Requests.{AuthRequest, serve_auths}
use api_kitchen.Auth.Tables.{User, RefreshToken, Accounts, AuthEnv, is_user}
use api_kitchen.Auth.Spent.{Spent, revoke_rows-gone, serve_auths-Spent}
use api_kitchen.Auth.Kept.{serve_auths-Holds}

-- The keys of a sequence fall along the table, the newest first.
abbrev pub KeysFall : ℕ → List RefreshToken → Type 0
KeysFall bound [] = Unit
KeysFall bound (t ∷ ts) = (t.id < bound) × KeysFall t.id ts

revoke_row-KeysFall :
    (next now : ℕ) (p : RefreshToken → Bool) (rows : List RefreshToken)
    → KeysFall next rows
    → KeysFall next (change_row p (revoke now) rows)
revoke_row-KeysFall next now p [] h = h
revoke_row-KeysFall next now p (t ∷ rows) h =
    ground (arith, revoke_row-KeysFall t.id now p rows h.1)

revoke_rows-KeysFall :
    (next now : ℕ) (p : RefreshToken → Bool) (rows : List RefreshToken)
    → KeysFall next rows
    → KeysFall next (change_rows p (revoke now) rows)
revoke_rows-KeysFall next now p [] h = h
revoke_rows-KeysFall next now p (t ∷ rows) h =
    ground (arith, revoke_rows-KeysFall t.id now p rows h.1)

-- Requests keep the keys falling, and there is nothing to fall in an empty table.
pub serve_auths-KeysFall :
    (rs : List (AuthEnv × AuthRequest)) (s : Accounts)
    → KeysFall s.next_token_id s.tokens
    → let s' = serve_auths rs s in KeysFall s'.next_token_id s'.tokens
serve_auths-KeysFall rs s h =
    serve_auths-Holds KeysFall
      (record {
        by_row = revoke_row-KeysFall;
        by_rows = revoke_rows-KeysFall;
        by_issue = λ env user next rows fall. (omega arith, fall);
      })
      rs s h

find-KeysFall :
    (key bound : ℕ) (rows : List RefreshToken)
    → KeysFall bound rows
    → bound ≤ key
    → find_row (is_session_id key) rows ≡ none
find-KeysFall key bound [] h le = refl
find-KeysFall key bound (t ∷ rows) h le = ground (arith, find-KeysFall key t.id rows h.1)

found-KeysFall :
    (p : RefreshToken → Bool) (bound : ℕ) (rows : List RefreshToken) (t : RefreshToken)
    → KeysFall bound rows
    → find_row p rows ≡ some t
    → t.id < bound
found-KeysFall p bound [] t h e = absurd (cc)
found-KeysFall p bound (x ∷ rows) t h e = ground (arith, found-KeysFall p x.id rows t h.1)

-- The row that a claim takes was the only live one with its key.
claimed-gone :
    (key now bound : ℕ) (rows : List RefreshToken)
    → KeysFall bound rows
    → find_row (is_session_id key) (change_row (is_session_id key) (revoke now) rows) ≡ none
claimed-gone key now bound [] h = refl
claimed-gone key now bound (t ∷ rows) h =
    ground (arith, claimed-gone key now t.id rows h.1, find-KeysFall key t.id rows h.1)

abbrev pub has_id : ℕ → RefreshToken → Bool
has_id key t = t.id == key

-- The row with a key, when its owner's sessions were revoked.
ended-gone :
    (user now bound : ℕ) (rows : List RefreshToken) (t : RefreshToken)
    → KeysFall bound rows
    → find_row (has_id t.id) rows ≡ some t
    → t.user_id ≡ user
    → find_row (is_session_id t.id) (change_rows (is_session_of user) (revoke now) rows) ≡ none
ended-gone user now bound [] t h e own = refl
ended-gone user now bound (x ∷ rows) t h e own = ground (
  arith,
  ended-gone user now x.id rows t h.1,
  revoke_rows-gone t.id now (is_session_of user) rows,
  find-KeysFall t.id x.id rows h.1,
)

claim_session-Claimed :
    (env : AuthEnv) (t : RefreshToken) (u : User) (s s' : Accounts) (key : ℕ)
    → KeysFall s.next_token_id s.tokens
    → claim_session env (t, u) s ≡ ok (key, s')
    → Spent t.id s' × (find_row (is_session_id key) s'.tokens ≡ some (new_session env key u.id))
unfolding claim_session issue_tokens
claim_session-Claimed env t u s s' key h e =
    let p = is_session_id t.id in
    elim (Option-cases (find_row p s.tokens)) [
      | inl missing ↦ absurd (ground arith)
      | inr (row, found) ↦
          let test = find_row_test p s.tokens row found in
          let below = found-KeysFall p s.next_token_id s.tokens row h found in
          let gone = claimed-gone t.id env.now s.next_token_id s.tokens h in
          (record { gone = ground (arith, gone); old = ground arith }, ground arith)
    ]

Spent-refused :
    (env : AuthEnv) (t : RefreshToken) (u : User) (s : Accounts)
    → Spent t.id s
    → claim_refresh env (t, u) s ≡ (err invalid_token 401, s)
unfolding claim_refresh claim_session
Spent-refused env t u s h = rw (h.gone) refl

unrevoked_lem :
    (env : AuthEnv) (user : ℕ) (token : Text) (s : Accounts) (t : RefreshToken)
    → current_session env user token s ≡ ok t
    → is_unrevoked t ≡ true
unfolding current_session
unrevoked_lem env user token s t e =
    let p = is_session_lookup (env.lookup token) in
    elim (Option-cases (find_row p s.tokens)) [
      | inr (x, found) ↦ ground (arith, find_row_test p s.tokens x found)
      | inl missing ↦
          let q = is_old_session env user token in
          elim (Option-cases (find_row q s.tokens)) [
            | inl nothing ↦ absurd (ground arith)
            | inr (x, found) ↦ ground (arith, find_row_test q s.tokens x found)
          ]
    ]

read_session_ok :
    (env : AuthEnv) (token : Text) (s : Accounts) (t : RefreshToken) (u : User)
    → read_session env token s ≡ ok (t, u)
    → (is_unrevoked t ≡ true) × (u.is_active ≡ true)
unfolding read_session
read_session_ok env token s t u e = elim (Option-cases (env.decode token)) [
  | inl bad ↦ absurd (ground arith)
  | inr (payload, good) ↦ elim (Result-cases (current_session env payload.user_id token s)) [
    | inl (x, n, refused) ↦ absurd (ground arith)
    | inr (current, found) ↦
        let live = unrevoked_lem env payload.user_id token s current found in
        elim (Option-cases (find_row (is_user payload.user_id) s.users)) [
          | inl nobody ↦ absurd (ground arith)
          | inr (x, here) ↦ (ground arith, ground arith)
        ]
  ]
]

-- In a table whose keys fall: when a refresh returns, the session that it read was live and its user
-- active, and the new session is there; and the session that it read is exchanged no second time:
-- whoever read it before, and asks to exchange it at any later point, after any requests, is refused.
pub refresh_once :
    (env : AuthEnv) (token : Text) (t : RefreshToken) (u : User) (s s' : Accounts) (key : ℕ)
    → KeysFall s.next_token_id s.tokens
    → read_session env token s ≡ ok (t, u)
    → refresh_token env token s ≡ (ok key, s')
    → (is_unrevoked t ≡ true)
      × (u.is_active ≡ true)
      × (find_row (is_session_id key) s'.tokens ≡ some (new_session env key u.id))
      × ((env' : AuthEnv) (u' : User) (rs : List (AuthEnv × AuthRequest))
          → claim_refresh env' (t, u') (serve_auths rs s')
            ≡ (err invalid_token 401, serve_auths rs s'))
unfolding refresh_token refresh_token_tx
refresh_once env token t u s s' key h seen e =
    let (live, active) = read_session_ok env token s t u seen in
    let claimed : claim_session env (t, u) s ≡ ok (key, s') =
      commit_ok (claim_session env (t, u) s) s s' key (ground arith) in
    let (spent, fresh) = claim_session-Claimed env t u s s' key h claimed in
    (
      live,
      active,
      fresh,
      λ env' u' rs.
          Spent-refused env' t u' (serve_auths rs s') (serve_auths-Spent rs t.id s' spent),
    )

-- In a table whose keys fall: when the password of a user was reset, no session that the user had is
-- exchanged afterwards, after any requests, whoever read it before.
pub reset_ends_sessions :
    (env : AuthEnv) (tenant_known : Bool) (email token password : Text) (u : User)
    (t : RefreshToken) (s s' : Accounts)
    → KeysFall s.next_token_id s.tokens
    → find_row (is_active_email email) s.users ≡ some u
    → find_row (has_id t.id) s.tokens ≡ some t
    → t.user_id ≡ u.id
    → reset_password env tenant_known email token password s ≡ (ok tt, s')
    → (env' : AuthEnv) (u' : User) (rs : List (AuthEnv × AuthRequest))
    → claim_refresh env' (t, u') (serve_auths rs s') ≡ (err invalid_token 401, serve_auths rs s')
unfolding reset_password reset_password_tx
reset_ends_sessions env tenant_known email token password u t s s' h found row own e env' u' rs =
    let gone = ended-gone u.id env.now s.next_token_id s.tokens t h row own in
    let below = found-KeysFall (has_id t.id) s.next_token_id s.tokens t h row in
    let spent : Spent t.id s' = record { gone = ground arith; old = ground arith } in
    Spent-refused env' t u' (serve_auths rs s') (serve_auths-Spent rs t.id s' spent)

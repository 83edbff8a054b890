-- ===== src/Auth/Kept.antt =====
-- What the requests keep of the table of sessions: whatever a revocation and a new session keep.
use api_kitchen.Base.{
  ℕ, Option-cases, ok, atomic-keeps, Result-cases, Text, find_row, change_row, change_rows, ◌+◌,
  ◌≡◌, subst, ◌⊎◌, inl, inr, Bool, Option, List, [], ◌∷◌, arith,
}
use api_kitchen.Auth.Sessions.{
  new_session, issue_tokens, is_active_email, check_mfa, authenticate_tx, authenticate,
  read_session, is_session_id, revoke, claim_session, claim_refresh, refresh_token_tx,
  refresh_token, is_session_of, revoke_all, logout, is_own_session, revoke_session_tx,
  revoke_session, is_session_other, kept_session, revoke_all_sessions,
}
use api_kitchen.Auth.Passwords.{
  verify_email_tx, verify_email, resend_verification_tx, resend_verification, forgot_password,
  reset_password_tx, reset_password, change_password_tx, change_password,
}
use api_kitchen.Auth.Requests.{
  AuthRequest, verifies, asks_verification, sets_up, confirms, regenerates, logs_in, refreshes,
  claims, logs_out, ends, ends_all, forgets, resets, changes, serve_auth, serve_auths,
}
use api_kitchen.Auth.Tables.{User, RefreshToken, Accounts, AuthEnv, is_user}
use api_kitchen.Auth.Mfa.{
  setup_mfa_tx, setup_mfa, confirm_mfa_tx, confirm_mfa, regenerate_mfa_backup_codes_tx,
  regenerate_mfa_backup_codes, verify_login_mfa,
}

-- A property of the next key and of the rows.
pub record IsKept (P : ℕ → List RefreshToken → Type 0) : Type 0 where
  pub by_row :
      (next now : ℕ) (p : RefreshToken → Bool) (rows : List RefreshToken)
      → P next rows
      → P next (change_row p (revoke now) rows)
  pub by_rows :
      (next now : ℕ) (p : RefreshToken → Bool) (rows : List RefreshToken)
      → P next rows
      → P next (change_rows p (revoke now) rows)
  pub by_issue :
      (env : AuthEnv) (user next : ℕ) (rows : List RefreshToken)
      → P next rows
      → P (next + 1) (new_session env next user ∷ rows)

-- What a service does to the sessions, when it returns.
same_tokens :
    (P : ℕ → List RefreshToken → Type 0) (s s' : Accounts)
    → s'.tokens ≡ s.tokens
    → s'.next_token_id ≡ s.next_token_id
    → P s.next_token_id s.tokens
    → P s'.next_token_id s'.tokens
same_tokens P s s' rows next h = rw (rows, next) h

issue_tokens_ok :
    (env : AuthEnv) (u : User) (s s' : Accounts) (key : ℕ)
    → issue_tokens env u s ≡ ok (key, s')
    → (s'.tokens ≡ new_session env s.next_token_id u.id ∷ s.tokens)
      × (s'.next_token_id ≡ s.next_token_id + 1)
unfolding issue_tokens
issue_tokens_ok env u s s' key e = (ground arith, ground arith)

check_mfa-tokens :
    (env : AuthEnv) (u : User) (code : Option Text) (s s' : Accounts)
    → check_mfa env u code s ≡ ok s'
    → (s'.tokens ≡ s.tokens) × (s'.next_token_id ≡ s.next_token_id)
unfolding verify_login_mfa
check_mfa-tokens env u code s s' e = (ground arith, ground arith)

revoke_session-tokens :
    (env : AuthEnv) (row user : ℕ) (s : Accounts)
    → let s' = (revoke_session env row user s).1 in
      (s'.next_token_id ≡ s.next_token_id)
      × ((s'.tokens ≡ s.tokens)
          ⊎ (s'.tokens ≡ change_row (is_own_session row user) (revoke env.now) s.tokens))
unfolding revoke_session revoke_session_tx
revoke_session-tokens env row user s =
    elim (Option-cases (find_row (is_own_session row user) s.tokens)) [
      | inl missing ↦ (ground arith, inl (ground arith))
      | inr (t, found) ↦ (ground arith, inr (ground arith))
    ]

reset_password_tx-tokens :
    (env : AuthEnv) (tenant_known : Bool) (email token password : Text) (s s' : Accounts)
    → reset_password_tx env tenant_known email token password s ≡ ok (tt, s')
    → (s'.next_token_id ≡ s.next_token_id)
      × ((user : ℕ) × (s'.tokens ≡ change_rows (is_session_of user) (revoke env.now) s.tokens))
unfolding reset_password_tx
reset_password_tx-tokens env tenant_known email token password s s' e =
    elim (Option-cases (find_row (is_active_email email) s.users)) [
      | inl missing ↦ absurd (ground arith)
      | inr (u, found) ↦ (ground arith, (u.id, ground arith))
    ]

change_password_tx-tokens :
    (env : AuthEnv) (user : ℕ) (given : Option Text) (password : Text) (kept : Option ℕ)
    (s s' : Accounts)
    → change_password_tx env user given password kept s ≡ ok (tt, s')
    → (s'.next_token_id ≡ s.next_token_id)
      × ((key : ℕ) × (s'.tokens
            ≡ change_rows (is_session_other key kept) (revoke env.now) s.tokens))
unfolding change_password_tx
change_password_tx-tokens env user given password kept s s' e =
    elim (Option-cases (find_row (is_user user) s.users)) [
      | inl missing ↦ absurd (ground arith)
      | inr (u, found) ↦ (ground arith, (u.id, ground arith))
    ]

module _ (P : ℕ → List RefreshToken → Type 0) (keep : IsKept P) where
  abbrev Holds : Accounts → Type 0
  Holds s = P s.next_token_id s.tokens

  revoke_all-Holds :
      (now : ℕ) (p : RefreshToken → Bool) (s : Accounts) → Holds s → Holds (revoke_all p now s)
  revoke_all-Holds now p s h = keep.by_rows s.next_token_id now p s.tokens h

  issue_tokens-Holds :
      (env : AuthEnv) (u : User) (s s' : Accounts) (key : ℕ)
      → Holds s
      → issue_tokens env u s ≡ ok (key, s')
      → Holds s'
  issue_tokens-Holds env u s s' key h e =
      let (rows, next) = issue_tokens_ok env u s s' key e in
      rw (rows, next) (keep.by_issue env u.id s.next_token_id s.tokens h)

  authenticate_tx-Holds :
      (env : AuthEnv) (email password : Text) (code : Option Text) (s s' : Accounts) (r : User × ℕ)
      → Holds s
      → authenticate_tx env email password code s ≡ ok (r, s')
      → Holds s'
  unfolding authenticate_tx
  authenticate_tx-Holds env email password code s s' r h e =
      elim (Option-cases (find_row (is_active_email email) s.users)) [
        | inl missing ↦ absurd (ground arith)
        | inr (u, found) ↦ elim (Result-cases (check_mfa env u code s)) [
          | inl (x, n, refused) ↦ absurd (ground arith)
          | inr (s₁, passed) ↦ elim (Result-cases (issue_tokens env u s₁)) [
            | inl (x, n, refused) ↦ absurd (ground arith)
            | inr ((k, s₂), issued) ↦
                let (rows, next) = check_mfa-tokens env u code s s₁ passed in
                let after : s₂ ≡ s' = ground arith in
                subst Holds after
                  (issue_tokens-Holds env u s₁ s₂ k (same_tokens P s s₁ rows next h) issued)
          ]
        ]
      ]

  claim_session-Holds :
      (env : AuthEnv) (seen : RefreshToken × User) (s s' : Accounts) (r : ℕ)
      → Holds s
      → claim_session env seen s ≡ ok (r, s')
      → Holds s'
  unfolding claim_session
  claim_session-Holds env (current, u) s s' r h e =
      let p = is_session_id current.id in
      elim (Option-cases (find_row p s.tokens)) [
        | inl missing ↦ absurd (ground arith)
        | inr (t, found) ↦
            let s₁ = record s { tokens = change_row p (revoke env.now) s.tokens } in
            issue_tokens-Holds env u s₁ s' r (keep.by_row s.next_token_id env.now p s.tokens h)
              (ground arith)
      ]

  refresh_token_tx-Holds :
      (env : AuthEnv) (token : Text) (s s' : Accounts) (r : ℕ)
      → Holds s
      → refresh_token_tx env token s ≡ ok (r, s')
      → Holds s'
  unfolding refresh_token_tx
  refresh_token_tx-Holds env token s s' r h e = elim (Result-cases (read_session env token s)) [
    | inl (x, n, refused) ↦ absurd (ground arith)
    | inr (seen, found) ↦ claim_session-Holds env seen s s' r h (ground arith)
  ]

  revoke_session-Holds :
      (env : AuthEnv) (row user : ℕ) (s : Accounts)
      → Holds s
      → Holds (revoke_session env row user s).1
  revoke_session-Holds env row user s h =
      let (next, how) = revoke_session-tokens env row user s in
      elim how [
        | inl same ↦ rw (same, next) h
        | inr rows ↦
            rw (rows, next)
              (keep.by_row s.next_token_id env.now (is_own_session row user) s.tokens h)
      ]

  serve_auth-Holds :
      (env : AuthEnv) (r : AuthRequest) (s : Accounts) → Holds s → Holds (serve_auth env r s)
  unfolding verify_email verify_email_tx resend_verification resend_verification_tx setup_mfa
      setup_mfa_tx confirm_mfa confirm_mfa_tx regenerate_mfa_backup_codes
      regenerate_mfa_backup_codes_tx authenticate refresh_token claim_refresh logout
      revoke_all_sessions forgot_password reset_password change_password
  serve_auth-Holds env (verifies token) s h =
      same_tokens P s (verify_email env token s).1 (ground arith) (ground arith) h
  serve_auth-Holds env (asks_verification user) s h =
      same_tokens P s (resend_verification env user s).1 (ground arith) (ground arith) h
  serve_auth-Holds env (sets_up user) s h =
      same_tokens P s (setup_mfa env user s).1 (ground arith) (ground arith) h
  serve_auth-Holds env (confirms user code) s h =
      same_tokens P s (confirm_mfa env user code s).1 (ground arith) (ground arith) h
  serve_auth-Holds env (regenerates user code) s h =
      same_tokens P s (regenerate_mfa_backup_codes env user code s).1 (ground arith) (ground arith)
        h
  serve_auth-Holds env (logs_in email password code) s h =
      atomic-keeps Holds (authenticate_tx env email password code) s h
        (λ r s' e. authenticate_tx-Holds env email password code s s' r h e)
  serve_auth-Holds env (refreshes token) s h =
      atomic-keeps Holds (refresh_token_tx env token) s h
        (λ r s' e. refresh_token_tx-Holds env token s s' r h e)
  serve_auth-Holds env (claims seen) s h =
      atomic-keeps Holds (claim_session env seen) s h
        (λ r s' e. claim_session-Holds env seen s s' r h e)
  serve_auth-Holds env (logs_out user) s h = revoke_all-Holds env.now (is_session_of user) s h
  serve_auth-Holds env (ends row user) s h = revoke_session-Holds env row user s h
  serve_auth-Holds env (ends_all user current revoke_current) s h =
      revoke_all-Holds env.now (is_session_other user (kept_session current revoke_current)) s h
  serve_auth-Holds env (forgets tenant_known email) s h =
      same_tokens P s (forgot_password env tenant_known email s) (ground arith) (ground arith) h
  serve_auth-Holds env (resets tenant_known email token password) s h =
      atomic-keeps Holds (reset_password_tx env tenant_known email token password) s h (λ r s' e.
        let (next, (user, rows)) =
          reset_password_tx-tokens env tenant_known email token password s s' e in
        rw (rows, next) (keep.by_rows s.next_token_id env.now (is_session_of user) s.tokens h))
  serve_auth-Holds env (changes user given password kept) s h =
      atomic-keeps Holds (change_password_tx env user given password kept) s h (λ r s' e.
        let (next, (key, rows)) = change_password_tx-tokens env user given password kept s s' e in
        rw (rows, next)
          (keep.by_rows s.next_token_id env.now (is_session_other key kept) s.tokens h))

  pub serve_auths-Holds :
      (rs : List (AuthEnv × AuthRequest)) (s : Accounts) → Holds s → Holds (serve_auths rs s)
  serve_auths-Holds [] s h = h
  serve_auths-Holds (r ∷ rs) s h =
      serve_auths-Holds rs (serve_auth r.0 r.1 s) (serve_auth-Holds r.0 r.1 s h)

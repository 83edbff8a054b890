-- ===== src/Auth/Login.antt =====
-- An administrator with a second factor gives it to log in, and a backup code is used up.
use api_kitchen.Base.{
  Bool-cases, Option-cases, ok, Text, strip, ◌≡◌, refl, ap, ◌⊎◌, inl, inr, true, Option, none, some,
  List, [], ◌∷◌, ◌++◌, arith, Result-cases, commit_ok, find_row, change_row, ℕ, subst, ◌∙◌,
}
use api_kitchen.Auth.Tables.{User, Accounts, AuthEnv, set_user, is_user, is_admin}
use api_kitchen.Auth.Mfa.{verify_totp, with_backup_codes, use_backup_code, verify_login_mfa}
use api_kitchen.Auth.Sessions.{
  issue_tokens, is_active_email, check_mfa, authenticate_tx, authenticate,
}

-- The list without the code that was used, which stood somewhere in it.
pub record Used (env : AuthEnv) (code : Text) (codes left : List Text) : Type 0 where
  pub before : List Text
  pub hashed : Text
  pub after : List Text
  pub split : codes ≡ before ++ (hashed ∷ after)
  pub rest : left ≡ before ++ after
  pub verified : env.verify code hashed ≡ true

use_backup_code-Used :
    (env : AuthEnv) (code : Text) (codes left : List Text)
    → use_backup_code env code codes ≡ some left
    → Used env code codes left
unfolding use_backup_code
use_backup_code-Used env code [] left e = absurd (cc)
use_backup_code-Used env code (h ∷ hs) left e = elim (Bool-cases (env.verify code h)) [
  | inl hit ↦ record {
    before = [];
    hashed = h;
    after = hs;
    split = refl;
    rest = ground arith;
    verified = hit;
  }
  | inr miss ↦ elim (Option-cases (use_backup_code env code hs)) [
    | inl nothing ↦ absurd (ground arith)
    | inr (l, more) ↦
        let u = use_backup_code-Used env code hs l more in
        let first : left ≡ h ∷ l = ground arith in
        record {
          before = h ∷ u.before;
          hashed = u.hashed;
          after = u.after;
          split = ap (λ xs. h ∷ xs) u.split;
          rest = first ∙ ap (λ xs. h ∷ xs) u.rest;
          verified = u.verified;
        }
  ]
]

verify_login_mfa_ok :
    (env : AuthEnv) (u : User) (mfa_code : Option Text) (s s' : Accounts)
    → verify_login_mfa env u mfa_code s ≡ ok s'
    → (code : Text) × (mfa_code ≡ some code)
      × (((verify_totp env u.mfa_secret (some code) ≡ true) × (s' ≡ s))
          ⊎ ((left : List Text) × Used env (strip code) u.mfa_backup_codes left
              × (s' ≡ set_user u.id (with_backup_codes left) s)))
unfolding verify_login_mfa
verify_login_mfa_ok env u none s s' e = absurd (cc)
verify_login_mfa_ok env u (some code) s s' e =
    elim (Bool-cases (verify_totp env u.mfa_secret (some code))) [
      | inl hit ↦ (code, refl, inl (hit, ground arith))
      | inr miss ↦ elim (Option-cases (use_backup_code env (strip code) u.mfa_backup_codes)) [
        | inl nothing ↦ absurd (ground arith)
        | inr (left, used) ↦ (
          code,
          refl,
          inr (
            left,
            use_backup_code-Used env (strip code) u.mfa_backup_codes left used,
            ground arith,
          ),
        )
      ]
    ]

issue_tokens-users :
    (env : AuthEnv) (u : User) (s s' : Accounts) (key : ℕ)
    → issue_tokens env u s ≡ ok (key, s')
    → s'.users ≡ s.users
unfolding issue_tokens
issue_tokens-users env u s s' key e = ground arith

-- The stages of a login that returns.
record LoggedIn (env : AuthEnv) (email password : Text) (code : Option Text) (s s' : Accounts)
    (u : User) : Type 0 where
  passed_mfa : Accounts
  found : find_row (is_active_email email) s.users ≡ some u
  known : env.verify password u.password_hash ≡ true
  passed : check_mfa env u code s ≡ ok passed_mfa
  users : s'.users ≡ passed_mfa.users

authenticate_ok :
    (env : AuthEnv) (email password : Text) (code : Option Text) (s s' : Accounts) (u : User)
    (key : ℕ)
    → authenticate_tx env email password code s ≡ ok ((u, key), s')
    → LoggedIn env email password code s s' u
unfolding authenticate_tx
authenticate_ok env email password code s s' u key e =
    elim (Option-cases (find_row (is_active_email email) s.users)) [
      | inl missing ↦ absurd (ground arith)
      | inr (x, found) ↦ elim (Result-cases (check_mfa env x code s)) [
        | inl (y, n, refused) ↦ absurd (ground arith)
        | inr (s₁, passed) ↦ elim (Result-cases (issue_tokens env x s₁)) [
          | inl (y, n, refused) ↦ absurd (ground arith)
          | inr ((k, s₂), issued) ↦
              let same : x ≡ u = ground arith in
              let after : s₂ ≡ s' = ground arith in
              record {
                passed_mfa = s₁;
                found = found ∙ ap some same;
                known = ground arith;
                passed = subst (λ v. check_mfa env v code s ≡ ok s₁) same passed;
                users =
                    subst (λ (z : Accounts). z.users ≡ s₁.users) after
                      (issue_tokens-users env x s₁ s₂ k issued);
              }
        ]
      ]
    ]

-- When an administrator whose second factor is on logs in, the password was right and a code was
-- given; either it was one of the moment, and no user has changed, or it was a backup code, and it is
-- taken off the user's list, the others staying in their order.
pub authenticate-second_factor :
    (env : AuthEnv) (email password : Text) (mfa_code : Option Text) (s s' : Accounts) (u : User)
    (key : ℕ)
    → authenticate env email password mfa_code s ≡ (ok (u, key), s')
    → is_admin u ≡ true
    → u.mfa_enabled ≡ true
    → (env.verify password u.password_hash ≡ true)
      × ((code : Text) × (mfa_code ≡ some code)
          × (((verify_totp env u.mfa_secret (some code) ≡ true) × (s'.users ≡ s.users))
              ⊎ ((left : List Text) × Used env (strip code) u.mfa_backup_codes left
                  × (s'.users ≡ change_row (is_user u.id) (with_backup_codes left) s.users))))
unfolding authenticate
authenticate-second_factor env email password mfa_code s s' u key e admin enabled =
    let m = authenticate_tx env email password mfa_code s in
    let a = authenticate_ok env email password mfa_code s s' u key (commit_ok m s s' (u, key) e) in
    let passed : verify_login_mfa env u mfa_code s ≡ ok a.passed_mfa = ground (arith, a.passed) in
    let (code, given, how) = verify_login_mfa_ok env u mfa_code s a.passed_mfa passed in
    (
      a.known,
      (
        code,
        given,
        elim how [
          | inl (hit, same) ↦ inl (hit, a.users ∙ ap (λ (z : Accounts). z.users) same)
          | inr (left, used, same) ↦ inr (left, used, a.users ∙ ap (λ (z : Accounts). z.users) same)
        ],
      ),
    )

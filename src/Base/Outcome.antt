-- ===== src/Base/Outcome.antt =====
-- `AppError` as a value: a request returns, or it raises an error with its code and HTTP status.
use Prim.Native.Nat.{ℕ}
use mathlib.Core.Bool.{Bool, true, false}
use mathlib.Core.Logic.{◌⊎◌, inl, inr}
use mathlib.Core.Path.{◌≡◌, refl}
use mathlib.Core.Option.{Option, none, some}
use native.Mathlib.Omega.{arith}
use api_kitchen.Base.Errors.{ErrorCode}

pub data Result {ℓ} (A : Type ℓ) : Type ℓ where
  ok : A → Result A
  err : ErrorCode → ℕ → Result A

infixl 5 ◌>>=◌
abbrev pub ◌>>=◌ {ℓ κ} :
    {A : Type ℓ} {B : Type κ} (call : Result A) (rest : (value : A) → Result B) → Result B
ok value >>= rest = rest value
err code status >>= rest = err code status

-- A check in front of the rest of a service.
infixl 5 ◌>>◌
abbrev pub ◌>>◌ {ℓ} : {B : Type ℓ} (check : Result (Unit {0})) (rest : Result B) → Result B
ok _ >> rest = rest
err code status >> rest = err code status

-- `if test: raise AppError(e, ..., n)`.
abbrev pub raise_if : Bool → ErrorCode → ℕ → Result (Unit {0})
raise_if true e n = err e n
raise_if false e n = ok tt

-- `if value is None: raise AppError(e, ..., n)`.
abbrev pub or_raise {ℓ} : {A : Type ℓ} → Option A → ErrorCode → ℕ → Result A
or_raise none e n = err e n
or_raise (some a) e n = ok a

-- Whether the call returned.
abbrev pub is_ok {ℓ} : {A : Type ℓ} → Result A → Bool
is_ok (ok _) = true
is_ok (err _ _) = false

-- A request against a committed state: the result, and the state that stays committed. A raise
-- rolls back what was not committed, so each service says which state it leaves.
abbrev pub Action {ℓ κ} : Type ℓ → Type κ → Type (ℓ ⊔ κ)
Action S A = S → Result A × S

-- The end of a service that started from a state: its commit, or its rollback.
abbrev pub commit {ℓ κ} : {S : Type ℓ} {A : Type κ} → S → Result (A × S) → Result A × S
commit s (ok (a, s')) = (ok a, s')
commit s (err e n) = (err e n, s)

-- A service that commits once, at its end: an error leaves the state as it was.
abbrev pub atomic {ℓ κ} : {S : Type ℓ} {A : Type κ} → (S → Result (A × S)) → Action S A
atomic f s = commit s (f s)

-- What a service keeps when it returns, its request keeps whether it returns or raises.
pub atomic-keeps {ℓ κ ℓ'} :
    {S : Type ℓ} {A : Type κ} (P : S → Type ℓ') (f : S → Result (A × S)) (s : S)
    → P s
    → ((a : A) (s' : S) → f s ≡ ok (a, s') → P s')
    → P (atomic f s).1
atomic-keeps {S = S} {A = A} P f s before after = go (f s) refl
  where
    go : (m : Result (A × S)) → f s ≡ m → P (commit s m).1
    go (ok (a, s')) e = after a s' e
    go (err x n) e = before

pub Result-cases {ℓ} :
    {A : Type ℓ} (r : Result A)
    → ((e : ErrorCode) × (n : ℕ) × (r ≡ err e n)) ⊎ ((a : A) × (r ≡ ok a))
Result-cases (ok a) = inr (a, refl)
Result-cases (err e n) = inl (e, n, refl)

-- What a request returned is what its service returned before the commit.
pub commit_ok {ℓ κ} :
    {S : Type ℓ} {A : Type κ} (m : Result (A × S)) (s s' : S) (a : A)
    → commit s m ≡ (ok a, s')
    → m ≡ ok (a, s')
commit_ok (ok p) s s' a e = ground arith
commit_ok (err x n) s s' a e = absurd (ground arith)

-- ===== src/Delivery/Attempts.antt =====
-- How often the code of four digits of a delivery is guessed.
use api_kitchen.Base.{
  ℕ, Option-cases, delivery_code_locked, ok, err, Text, strip, text_eq, ◌≤◌, ◌<◌, ◌≡◌, inl, inr,
  true, Option, some, List, [], ◌∷◌, arith, ◌==◌, if◌then◌else◌, Result-cases, count_rows, ◌+◌, ap,
  subst, waiting, take_out, waiting-take_out,
}
use api_kitchen.Store.{Store, Env}
use api_kitchen.Orders.AfterCommit.{ensure_nonce}
use api_kitchen.Delivery.Proof.{
  derive_code, failed_attempts, nonce_of, try_code, verify_code, is_failed_on, check_code,
  finish_code,
}

-- One step of requests that overlap: a check that passes, while at most `limit` of its delivery
-- wait, itself included; the end of a request that waits; or anything that writes no attempt.
pub data Step (limit : ℕ) : List ℕ → Store → List ℕ → Store → Type 0 where
  code_checked :
      (env : Env) (key : ℕ) (code : Text) (ps : List ℕ) (s : Store)
      → check_code env key code s ≡ ok tt
      → waiting key (key ∷ ps) ≤ limit
      → Step limit ps s (key ∷ ps) s
  code_finished :
      (env : Env) (key order : ℕ) (user : Option ℕ) (code : Text) (ps : List ℕ) (s : Store)
      → 1 ≤ waiting key ps
      → Step limit ps s (take_out key ps) (finish_code env key order user code s).1
  code_untouched : (ps : List ℕ) (s s' : Store) → s'.attempts ≡ s.attempts → Step limit ps s ps s'

pub data Steps (limit : ℕ) : List ℕ → Store → List ℕ → Store → Type 0 where
  no_step : (ps : List ℕ) (s : Store) → Steps limit ps s ps s
  and_then :
      (ps ps' ps'' : List ℕ) (s s' s'' : Store)
      → Step limit ps s ps' s'
      → Steps limit ps' s' ps'' s''
      → Steps limit ps s ps'' s''

finish_code-failed :
    (env : Env) (key order : ℕ) (user : Option ℕ) (code : Text) (s : Store) (k : ℕ)
    → failed_attempts k (finish_code env key order user code s).1
      ≤ failed_attempts k s + (if key == k then 1 else 0)
unfolding finish_code try_code ensure_nonce
finish_code-failed env key order user code s k = ground arith

check_code-room :
    (env : Env) (key : ℕ) (code : Text) (s : Store)
    → check_code env key code s ≡ ok tt
    → failed_attempts key s ≤ 4
unfolding check_code
check_code-room env key code s e = ground arith

Step-bounded :
    (limit : ℕ) (ps ps' : List ℕ) (s s' : Store)
    → Step limit ps s ps' s'
    → (k : ℕ) → failed_attempts k s + waiting k ps ≤ 4 + limit
    → failed_attempts k s' + waiting k ps' ≤ 4 + limit
Step-bounded limit _ _ _ _ (code_checked env key code ps s e few) k h =
    ground (arith, check_code-room env key code s e)
Step-bounded limit _ _ _ _ (code_finished env key order user code ps s there) k h =
    let less = waiting-take_out key k ps there in
    let more = finish_code-failed env key order user code s k in omega arith
Step-bounded limit _ _ _ _ (code_untouched ps s s' same) k h =
    let kept : failed_attempts k s' ≡ failed_attempts k s = ap (count_rows (is_failed_on k)) same in
    omega arith

Steps-bounded :
    (limit : ℕ) (ps ps' : List ℕ) (s s' : Store)
    → Steps limit ps s ps' s'
    → (k : ℕ) → failed_attempts k s + waiting k ps ≤ 4 + limit
    → failed_attempts k s' + waiting k ps' ≤ 4 + limit
Steps-bounded limit _ _ _ _ (no_step ps s) k h = h
Steps-bounded limit _ _ _ _ (and_then ps ps' ps'' s s' s'' step steps) k h =
    Steps-bounded limit ps' ps'' s' s'' steps k (Step-bounded limit ps ps' s s' step k h)

-- When requests that submit codes overlap in any way, and of one delivery never more than `limit`
-- at once have passed the check and not written their attempt, the failed attempts of a delivery
-- and the requests that wait are together at most 4 + `limit`, so at most five when the requests
-- come one by one, if they are no more than that at the start, where no request waits.
pub attempts-bounded :
    (limit : ℕ) (ps : List ℕ) (s s' : Store)
    → Steps limit [] s ps s'
    → (key : ℕ) → failed_attempts key s ≤ 4 + limit
    → failed_attempts key s' + waiting key ps ≤ 4 + limit
attempts-bounded limit ps s s' steps key h = Steps-bounded limit [] ps s s' steps key (omega arith)

-- A call that nothing interrupts is such a sequence, where one at most waits.
verify_code-Steps :
    (env : Env) (key order : ℕ) (user : Option ℕ) (code : Text) (s : Store)
    → Steps 1 [] s [] (verify_code env key order user code s).1
unfolding verify_code
verify_code-Steps env key order user code s = elim (Result-cases (check_code env key code s)) [
  | inl (e, n, refused) ↦
      let same : s ≡ (verify_code env key order user code s).1 = ground arith in
      subst (Steps 1 [] s []) same (no_step [] s)
  | inr (t, passed) ↦
      let s' = (finish_code env key order user code s).1 in
      let same : s' ≡ (verify_code env key order user code s).1 = ground arith in
      let alone : waiting key (key ∷ []) ≤ 1 = ground arith in
      let none_left : take_out key (key ∷ []) ≡ [] = ground arith in
      let last : Step 1 (key ∷ []) s (take_out key (key ∷ [])) s' =
        code_finished env key order user code (key ∷ []) s (ground arith) in
      subst (Steps 1 [] s []) same (
        and_then [] (key ∷ []) [] s s s' (code_checked env key code [] s passed alone) (
          and_then (key ∷ []) [] [] s s' s' (subst (λ ps. Step 1 (key ∷ []) s ps s') none_left last)
            (no_step [] s')))
]

-- A code that is accepted is the one of the order, and the delivery had fewer than five failed
-- attempts; with five or more, nothing is accepted, not even that code, and nothing changes.
pub verify_code_sound :
    (env : Env) (delivery_key order : ℕ) (user : Option ℕ) (code : Text) (s : Store)
    → ((verify_code env delivery_key order user code s).0 ≡ ok tt
        → (failed_attempts delivery_key s < 5)
          × ((nonce : ℕ) × (nonce_of order (ensure_nonce env order s) ≡ some nonce)
              × (text_eq (strip code) (derive_code env order nonce) ≡ true)))
      × (5 ≤ failed_attempts delivery_key s
          → verify_code env delivery_key order user code s ≡ (err delivery_code_locked 423, s))
unfolding verify_code check_code finish_code try_code
verify_code_sound env delivery_key order user code s = (accepted, λ many. ground arith)
  where
    accepted :
        (verify_code env delivery_key order user code s).0 ≡ ok tt
        → (failed_attempts delivery_key s < 5)
          × ((nonce : ℕ) × (nonce_of order (ensure_nonce env order s) ≡ some nonce)
              × (text_eq (strip code) (derive_code env order nonce) ≡ true))
    accepted e = elim (Option-cases (nonce_of order (ensure_nonce env order s))) [
      | inl nobody ↦ absurd (ground arith)
      | inr (nonce, found) ↦ (ground arith, (nonce, found, ground arith))
    ]

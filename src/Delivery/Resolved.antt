-- ===== src/Delivery/Resolved.antt =====
-- A failed delivery is treated once.
use api_kitchen.Base.{
  ℕ, failure_already_resolved, ok, err, Result-cases, Text, find_row, change_row, find_row_test,
  find-change_row, ◌≡◌, refl, sym, subst, ◌⊎◌, inl, inr, true, false, Option, none, some, arith,
}
use api_kitchen.Store.{Store, Env}
use api_kitchen.Orders.Tables.{Order, is_order}
use api_kitchen.Delivery.Report.{clean_note}
use api_kitchen.Delivery.Untouched.{treat-failures}
use api_kitchen.Delivery.Resolve.{
  is_failure_row, check_resolution, treat, resolve, close_failure, resolve_failure,
}
use api_kitchen.Delivery.Tables.{Resolution, Failure}

pub check_resolution_ok :
    (key : ℕ) (s : Store) (f : Failure) (o : Order)
    → check_resolution key s ≡ ok (f, o)
    → (find_row (is_failure_row key) s.failures ≡ some f)
      × (f.is_pending ≡ true)
      × (find_row (is_order f.order_id) s.orders ≡ some o)
unfolding check_resolution
check_resolution_ok key s f o e = ground arith

-- The stages of a treatment that returns.
pub record Treated (env : Env) (key : ℕ) (action : Resolution) (amount : Option ℕ)
    (words : Option Text) (admin : ℕ) (s s' : Store) : Type 0 where
  pub failure : Failure
  pub order : Order
  pub kept : Option ℕ
  pub checked : check_resolution key s ≡ ok (failure, order)
  pub treated : ((treat env action failure order amount words admin s).0 ≡ ok kept) ⊎ (kept ≡ none)
  pub closed :
      s'
      ≡ close_failure env action kept words admin failure
          (treat env action failure order amount words admin s).1

pub resolve_failure_ok :
    (env : Env) (key : ℕ) (action : Resolution) (amount : Option ℕ) (raw_note : Option Text)
    (admin : ℕ) (s s' : Store)
    → resolve_failure env key action amount raw_note admin s ≡ (ok tt, s')
    → Treated env key action amount (clean_note raw_note) admin s s'
unfolding resolve_failure
resolve_failure_ok env key action amount raw_note admin s s' e =
    let words = clean_note raw_note in
    elim (Result-cases (check_resolution key s)) [
      | inl (x, n, refused) ↦ absurd (ground arith)
      | inr ((f, o), checked) ↦ elim (Result-cases (treat env action f o amount words admin s).0) [
        | inr (kept, done) ↦ record {
          failure = f;
          order = o;
          kept = kept;
          checked = checked;
          treated = inl done;
          closed = ground arith;
        }
        | inl (x, n, refused) ↦ record {
          failure = f;
          order = o;
          kept = none;
          checked = checked;
          treated = inr refl;
          closed = ground arith;
        }
      ]
    ]

resolved_checked :
    (key : ℕ) (s : Store) (f : Failure)
    → find_row (is_failure_row key) s.failures ≡ some f
    → f.is_pending ≡ false
    → check_resolution key s ≡ err failure_already_resolved 409
unfolding check_resolution
resolved_checked key s f found over = ground arith

resolved_refused :
    (env : Env) (key : ℕ) (action : Resolution) (amount : Option ℕ) (raw_note : Option Text)
    (admin : ℕ) (s : Store) (f : Failure)
    → find_row (is_failure_row key) s.failures ≡ some f
    → f.is_pending ≡ false
    → resolve_failure env key action amount raw_note admin s ≡ (err failure_already_resolved 409, s)
unfolding resolve_failure
resolved_refused env key action amount raw_note admin s f found over =
    rw (resolved_checked key s f found over, resolve_failure) refl

-- The row of the failure afterwards.
pub Treated-row :
    (env : Env) (key : ℕ) (action : Resolution) (amount : Option ℕ) (words : Option Text)
    (admin : ℕ) (s s' : Store) (a : Treated env key action amount words admin s s')
    → find_row (is_failure_row key) s'.failures
      ≡ some (resolve env action a.kept words admin a.failure)
unfolding close_failure
Treated-row env key action amount words admin s s' a =
    let f = a.failure in
    let (found, waits, ordered) = check_resolution_ok key s f a.order a.checked in
    let test = find_row_test (is_failure_row key) s.failures f found in
    let same : f.id ≡ key = ground (arith, test) in
    let rows = treat-failures env action f a.order amount words admin s in
    let new = resolve env action a.kept words admin in
    let kept = find-change_row (is_failure_row key) new s.failures f found test in
    let row =
      subst
        (λ k.
          find_row (is_failure_row key) (change_row (is_failure_row k) new s.failures)
          ≡ some (new f))
        (sym same) kept in
    rw (a.closed, rows) row

-- When the treatment of a failed delivery returns, the failure had none; it has it now, and any
-- further treatment is refused right after, and changes nothing.
pub resolve_failure_once :
    (env env' : Env) (key : ℕ) (action action' : Resolution) (amount amount' : Option ℕ)
    (raw_note raw_note' : Option Text) (admin admin' : ℕ) (s s' : Store)
    → resolve_failure env key action amount raw_note admin s ≡ (ok tt, s')
    → (f : Failure) × (find_row (is_failure_row key) s.failures ≡ some f)
      × (f.is_pending ≡ true)
      × (kept : Option ℕ) × (find_row (is_failure_row key) s'.failures
          ≡ some (resolve env action kept (clean_note raw_note) admin f))
      × (resolve_failure env' key action' amount' raw_note' admin' s'
          ≡ (err failure_already_resolved 409, s'))
resolve_failure_once env env' key action action' amount amount' raw_note raw_note' admin admin' s s'
      e =
    let words = clean_note raw_note in
    let a = resolve_failure_ok env key action amount raw_note admin s s' e in
    let f = a.failure in
    let (found, waits, ordered) = check_resolution_ok key s f a.order a.checked in
    let here = Treated-row env key action amount words admin s s' a in
    (
      f,
      found,
      waits,
      a.kept,
      here,
      resolved_refused env' key action' amount' raw_note' admin' s'
          (resolve env action a.kept words admin f) here refl,
    )

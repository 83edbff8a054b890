-- ===== src/Loyalty/Reservations.antt =====
-- Points held for a checkout (create_checkout_reservation and confirm_checkout_reservation of
-- app/modules/loyalty/account/service.py).
use api_kitchen.Base.{
  ℕ, Option-cases, ok, find_row, ◌≡◌, inl, inr, Option, some, arith, find_row_test, find-change_row,
  refl, List, ◌∷◌, ◌==◌, change_row, count_rows, find_weaker, change_weaker, ◌≤◌, true, false, [],
}
use api_kitchen.Base.Int.{ℤ, ◌≤ℤ◌, negate, pos, ◌+ℤ◌, int_laws}
use api_kitchen.Loyalty.Account.{
  of_user, get_or_create_account, can_pay, debit, OrderRef, add_reservation,
  create_checkout_reservation, is_reservation, mark_confirmed, confirm_checkout_reservation, entry,
  post, set_reservation, settle_reservation, get_available_points, held_points, new_reservation,
  move_points,
}
use api_kitchen.Loyalty.Ledger.{
  Account, ReservationStatus, Reservation, Ledger, redeem, Transaction,
}

get_or_create_found :
    (user : ℕ) (s : Ledger)
    → let (a, s') = get_or_create_account user s in find_row (of_user user) s'.accounts ≡ some a
unfolding get_or_create_account
get_or_create_found user s = elim (Option-cases (find_row (of_user user) s.accounts)) [
  | inr (a, e) ↦ rw (e, get_or_create_account) e
  | inl e ↦ rw (e, get_or_create_account) (ground arith)
]

-- An account that is there is returned, and nothing is created.
get_or_create_there :
    (user : ℕ) (s : Ledger) (a : Account)
    → find_row (of_user user) s.accounts ≡ some a
    → get_or_create_account user s ≡ (a, s)
unfolding get_or_create_account
get_or_create_there user s a e = rw (e, get_or_create_account)

-- The call that succeeds adds its reservation for points that were free.
reserve_ok :
    (user order : ℕ) (points : ℤ) (found : Option OrderRef) (rate : ℤ) (now : ℕ) (s : Ledger)
    → (create_checkout_reservation user order points found rate now s).0 ≡ ok tt
    → let (available, s') = get_available_points user now s in
      ((create_checkout_reservation user order points found rate now s).1
        ≡ add_reservation user order points rate now s')
      × (points ≤ℤ available)
      × (pos 1 ≤ℤ points)
unfolding create_checkout_reservation
reserve_ok user order points found rate now s e = ground arith

-- For a customer with an account, the flush adds one reservation and its journal row.
add_reservation_there :
    (user order : ℕ) (points rate : ℤ) (now : ℕ) (s : Ledger) (a : Account)
    → find_row (of_user user) s.accounts ≡ some a
    → let s' = add_reservation user order points rate now s in
      (s'.accounts ≡ s.accounts)
      × (s'.reservations
          ≡ new_reservation s.next_reservation_id user order points rate now ∷ s.reservations)
unfolding add_reservation get_or_create_account
add_reservation_there user order points rate now s a e = ground arith

available_bound :
    (user now : ℕ) (s : Ledger) (points : ℤ)
    → pos 1 ≤ℤ points
    → points ≤ℤ (get_available_points user now s).0
    → let (a, s') = get_or_create_account user s in
      points +ℤ held_points user now s'.reservations ≤ℤ a.points
unfolding get_available_points
available_bound user now s points positive enough = grind int_laws

held_points-new :
    (key user order : ℕ) (points rate : ℤ) (now : ℕ) (rs : List Reservation)
    → held_points user now (new_reservation key user order points rate now ∷ rs)
      ≡ points +ℤ held_points user now rs
unfolding held_points
held_points-new key user order points rate now rs = ground arith

-- A reservation that is granted is covered: the customer's account is there, and the points of
-- all the customer's live reservations together, the new one included, are no more than its points.
pub reserve-covered :
    (user order : ℕ) (points : ℤ) (found : Option OrderRef) (rate : ℤ) (now : ℕ) (s : Ledger)
    → (create_checkout_reservation user order points found rate now s).0 ≡ ok tt
    → let s' = (create_checkout_reservation user order points found rate now s).1 in
      (a : Account) × (find_row (of_user user) s'.accounts ≡ some a)
      × (held_points user now s'.reservations ≤ℤ a.points)
unfolding add_reservation get_or_create_account get_available_points
reserve-covered user order points found rate now s e =
    let a = (get_or_create_account user s).0 in
    let s₁ = (get_or_create_account user s).1 in
    let there = get_or_create_found user s in
    let (same, enough, positive) = reserve_ok user order points found rate now s e in
    let (accounts, rows) = add_reservation_there user order points rate now s₁ a there in
    (
      a,
      rw (same, accounts) there,
      rw
          (
            same,
            rows,
            held_points-new s₁.next_reservation_id user order points rate now s₁.reservations,
          )
          (available_bound user now s points positive enough),
    )

-- The ledger after a live reservation of key `key` is confirmed and paid from `a`.
abbrev pub confirmed_ledger : ℕ → ℕ → ℕ → Reservation → Account → Ledger → Ledger
confirmed_ledger user key now r a s = set_reservation user key (mark_confirmed now) (
    post (can_pay user r.points_reserved)
      (entry a.id (negate r.points_reserved) redeem (some r.order_id) (some r.id)) s)

confirm_live :
    (user key now : ℕ) (s : Ledger) (r : Reservation)
    → find_row (is_reservation user key) s.reservations ≡ some r
    → r.status ≡ ReservationStatus.reserved
    → (confirm_checkout_reservation user key now s).0 ≡ ok tt
    → (a : Account) × (find_row (can_pay user r.points_reserved) s.accounts ≡ some a)
      × ((confirm_checkout_reservation user key now s).1 ≡ confirmed_ledger user key now r a s)
unfolding confirm_checkout_reservation settle_reservation debit
confirm_live user key now s r found live e =
    elim (Option-cases (find_row (can_pay user r.points_reserved) s.accounts)) [
      | inl poor ↦ absurd (ground arith)
      | inr (a, rich) ↦ (a, rich, ground arith)
    ]

confirm_again :
    (user key later : ℕ) (s : Ledger) (r : Reservation)
    → find_row (is_reservation user key) s.reservations ≡ some r
    → r.status ≡ ReservationStatus.confirmed
    → confirm_checkout_reservation user key later s ≡ (ok tt, s)
unfolding confirm_checkout_reservation
confirm_again user key later s r found done = ground arith

can_pay_lem :
    (user : ℕ) (points : ℤ) (a : Account)
    → can_pay user points a ≡ true
    → (of_user user a ≡ true) × (points ≤ℤ a.points)
can_pay_lem user points a e = (ground arith, grind int_laws)

-- The accounts of the other customers are not seen to change.
other_accounts :
    (user other : ℕ) (d : ℤ) (rows : List Account)
    → (other == user) ≡ false
    → find_row (of_user other) (change_row (of_user user) (move_points d) rows)
      ≡ find_row (of_user other) rows
other_accounts user other d [] away = refl
other_accounts user other d (a ∷ rows) away = ground (arith, other_accounts user other d rows away)

-- The debit of a reservation on the only account of its customer.
pub record Paid (user : ℕ) (r : Reservation) (s s' : Ledger) : Type 0 where
  pub account : Account
  pub found : find_row (of_user user) s.accounts ≡ some account
  pub enough : r.points_reserved ≤ℤ account.points
  pub debited :
      find_row (of_user user) s'.accounts
      ≡ some (record account { points = account.points +ℤ negate r.points_reserved })
  pub others :
      (other : ℕ)
      → (other == user) ≡ false
      → find_row (of_user other) s'.accounts ≡ find_row (of_user other) s.accounts
  pub row : Transaction
  pub posted : s'.transactions ≡ row ∷ s.transactions
  pub of_account : row.account_id ≡ account.id
  pub of_reservation : row.reservation_id ≡ some r.id
  pub taken : row.points_delta ≡ negate r.points_reserved

confirmed-Paid :
    (user key now : ℕ) (r : Reservation) (a : Account) (s : Ledger)
    → count_rows (of_user user) s.accounts ≤ 1
    → find_row (can_pay user r.points_reserved) s.accounts ≡ some a
    → Paid user r s (confirmed_ledger user key now r a s)
confirmed-Paid user key now r a s one rich =
    let p = can_pay user r.points_reserved in
    let f = move_points (negate r.points_reserved) in
    let (own, enough) = can_pay_lem user r.points_reserved a (find_row_test p s.accounts a rich) in
    let weaker : (x : Account) → p x ≡ true → of_user user x ≡ true =
      λ x hit. (can_pay_lem user r.points_reserved x hit).0 in
    let found = find_weaker p (of_user user) weaker s.accounts a one rich in
    let same = change_weaker p (of_user user) weaker f s.accounts a one rich in
    record {
      account = a;
      found = found;
      enough = enough;
      debited = rw same (find-change_row (of_user user) f s.accounts a found own);
      others = λ other away.
          rw same (other_accounts user other (negate r.points_reserved) s.accounts away);
      row = entry a.id (negate r.points_reserved) redeem (some r.order_id) (some r.id);
      posted = refl;
      of_account = refl;
      of_reservation = refl;
      taken = refl;
    }

-- When a live reservation of a customer with one account is confirmed, that account had the points
-- and has them no more, no other account has changed, and the journal has one more row, of that
-- account and this reservation, which takes them off; the reservation is marked as confirmed, and
-- confirming it again right after, at any time, returns and changes nothing.
pub confirm_once :
    (user key now later : ℕ) (s : Ledger) (r : Reservation)
    → count_rows (of_user user) s.accounts ≤ 1
    → find_row (is_reservation user key) s.reservations ≡ some r
    → r.status ≡ ReservationStatus.reserved
    → (confirm_checkout_reservation user key now s).0 ≡ ok tt
    → let s' = (confirm_checkout_reservation user key now s).1 in
      Paid user r s s'
      × (find_row (is_reservation user key) s'.reservations ≡ some (mark_confirmed now r))
      × (confirm_checkout_reservation user key later s' ≡ (ok tt, s'))
confirm_once user key now later s r one found live e =
    let (a, rich, settles) = confirm_live user key now s r found live e in
    let marked =
      find-change_row (is_reservation user key) (mark_confirmed now) s.reservations r found
        (find_row_test (is_reservation user key) s.reservations r found) in
    rw settles (
      confirmed-Paid user key now r a s one rich,
      marked,
      confirm_again user key later (confirmed_ledger user key now r a s) (mark_confirmed now r)
          marked refl,
    )

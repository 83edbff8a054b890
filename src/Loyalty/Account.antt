-- ===== src/Loyalty/Account.antt =====
-- The point operations of app/modules/loyalty/account/service.py.
use api_kitchen.Base.{
  ℕ, ◌+◌, Bool, true, false, not, ◌&&◌, ◌||◌, List, ◌∷◌, Option, none, some, ◌==◌, ltb, is_key,
  if◌then◌else◌, find_row, change_row, Result, ok, err, raise_if, or_raise, Action, atomic,
  invalid_points, insufficient_points, order_not_found, order_not_eligible, reservation_not_found,
  reservation_not_active, reservation_expired, [], ◌>>◌, ◌>>=◌,
}
use api_kitchen.Base.Int.{ℤ, pos, ◌+ℤ◌, leb_ℤ, ltb_ℤ, negate, ◌*ℤ◌}
use api_kitchen.Orders.Status.{OrderStatus, pending, confirmed, queued, preparing}
use api_kitchen.Loyalty.Ledger.{
  Account, TransactionType, Transaction, Reservation, ReservationStatus, Ledger, redeem,
  reservation, is_reserved, is_confirmed, is_cancelled,
}

abbrev pub of_user : ℕ → Account → Bool
of_user user a = a.user_id == user

abbrev pub new_account : ℕ → ℕ → Account
new_account key user = record { id = key; user_id = user; points = pos 0 }

-- The account, with the ledger in which it stands.
unfoldable pub get_or_create_account : ℕ → Ledger → Account × Ledger
get_or_create_account user s = elim (find_row (of_user user) s.accounts) [
  | some a ↦ (a, s)
  | none ↦ (
    new_account s.next_account_id user,
    record s {
      accounts = new_account s.next_account_id user ∷ s.accounts;
      next_account_id = s.next_account_id + 1;
    },
  )
]

abbrev pub entry : ℕ → ℤ → TransactionType → Option ℕ → Option ℕ → Transaction
entry account delta kind order reservation_id = record {
  account_id = account;
  points_delta = delta;
  kind = kind;
  order_id = order;
  reservation_id = reservation_id;
}

abbrev pub move_points : ℤ → Account → Account
move_points delta a = record a { points = a.points +ℤ delta }

-- The change of the account that passes a test, with its row in the journal.
abbrev pub post : (Account → Bool) → Transaction → Ledger → Ledger
post p t s = record s {
  accounts = change_row p (move_points t.points_delta) s.accounts;
  transactions = t ∷ s.transactions;
}

-- The assignment `account.points += points` writes the sum of what was read, with its journal row.
abbrev pub set_points : ℤ → Account → Account
set_points points a = record a { points = points }

unfoldable pub write_points : Account → ℕ → ℤ → TransactionType → Option ℕ → Ledger → Ledger
write_points a user points kind order s = record s {
  accounts = change_row (of_user user) (set_points (a.points +ℤ points)) s.accounts;
  transactions = entry a.id points kind order none ∷ s.transactions;
}

-- No lock is taken: here nothing comes between the account that is read and the sum that is written
-- to it. Another ledger in `write_points` is what a request in between leaves.
add_points_tx : ℕ → ℤ → TransactionType → Option ℕ → Ledger → Result (Unit {0} × Ledger)
unfolding get_or_create_account write_points
add_points_tx user points kind order s = do
  raise_if (leb_ℤ points (pos 0)) invalid_points 422
  let (a, s') = get_or_create_account user s
  ok (tt, write_points a user points kind order s')

unfoldable pub add_points : ℕ → ℤ → TransactionType → Option ℕ → Action Ledger (Unit {0})
unfolding add_points_tx
add_points user points kind order = atomic (add_points_tx user points kind order)

-- `LoyaltyAccount.user_id == user_id, LoyaltyAccount.points >= points`.
abbrev pub can_pay : ℕ → ℤ → Account → Bool
can_pay user points a = of_user user a && leb_ℤ points a.points

-- The conditional `update ... returning`, and the journal row that goes with it.
unfoldable pub debit : ℕ → ℤ → Option ℕ → Option ℕ → Ledger → Result (Unit {0} × Ledger)
debit user points order reservation_id s = do
  a ← or_raise (find_row (can_pay user points) s.accounts) insufficient_points 422
  ok (tt, post (can_pay user points) (entry a.id (negate points) redeem order reservation_id) s)

redeem_points_tx : ℕ → ℤ → Option ℕ → Ledger → Result (Unit {0} × Ledger)
unfolding get_or_create_account debit
redeem_points_tx user points order s = do
  raise_if (leb_ℤ points (pos 0)) invalid_points 422
  debit user points order none (get_or_create_account user s).1

unfoldable pub redeem_points : ℕ → ℤ → Option ℕ → Action Ledger (Unit {0})
unfolding redeem_points_tx
redeem_points user points order = atomic (redeem_points_tx user points order)

-- `status == "reserved"` and `expires_at > now`, for one customer.
abbrev pub is_held : ℕ → ℕ → Reservation → Bool
is_held user now r = r.user_id == user && (is_reserved r.status && ltb now r.expires_at)

unfoldable pub held_points : ℕ → ℕ → List Reservation → ℤ
held_points user now [] = pos 0
held_points user now (r ∷ rs) =
    (if is_held user now r then r.points_reserved else pos 0) +ℤ held_points user now rs

-- `max(0, x)`.
abbrev pub at_least_zero : ℤ → ℤ
at_least_zero x = if ltb_ℤ x (pos 0) then pos 0 else x

unfoldable pub get_available_points : ℕ → ℕ → Ledger → ℤ × Ledger
unfolding get_or_create_account held_points
get_available_points user now s =
    let (a, s') = get_or_create_account user s in
    (at_least_zero (a.points +ℤ negate (held_points user now s'.reservations)), s')

-- What the service reads of an order.
pub record OrderRef : Type 0 where
  pub user_id : Option ℕ
  pub status : OrderStatus

abbrev pub is_eligible : OrderStatus → Bool
is_eligible pending = true
is_eligible confirmed = true
is_eligible queued = true
is_eligible preparing = true
is_eligible _ = false

-- 30 minutes, in seconds.
abbrev pub hold_seconds : ℕ
hold_seconds = 1800

abbrev pub new_reservation : ℕ → ℕ → ℕ → ℤ → ℤ → ℕ → Reservation
new_reservation key user order points rate now = record {
  id = key;
  user_id = user;
  order_id = order;
  points_reserved = points;
  discount_amount = points *ℤ rate;
  status = ReservationStatus.reserved;
  expires_at = now + hold_seconds;
  confirmed_at = none;
  cancelled_at = none;
}

-- The flush of the reservation, then the account and its journal row.
unfoldable pub add_reservation : ℕ → ℕ → ℤ → ℤ → ℕ → Ledger → Ledger
unfolding get_or_create_account
add_reservation user order points rate now s =
    let key = s.next_reservation_id in
    let s' = record s {
      reservations = new_reservation key user order points rate now ∷ s.reservations;
      next_reservation_id = key + 1;
    } in
    let (a, s'') = get_or_create_account user s' in
    record s'' {
      transactions = entry a.id (pos 0) reservation (some order) (some key) ∷ s''.transactions;
    }

-- `found` is `session.get(Order, order_id)`; `rate` is `config.points_to_euro_rate`.
reserve_tx : ℕ → ℕ → ℤ → Option OrderRef → ℤ → ℕ → Ledger → Result (Unit {0} × Ledger)
unfolding get_available_points add_reservation
reserve_tx user order points found rate now s = do
  raise_if (leb_ℤ points (pos 0)) invalid_points 422
  o ← or_raise found order_not_found 404
  raise_if (not (is_key o.user_id user)) order_not_found 404
  raise_if (not (is_eligible o.status)) order_not_eligible 422
  let (available, s') = get_available_points user now s
  raise_if (ltb_ℤ available points) insufficient_points 422
  ok (tt, add_reservation user order points rate now s')

unfoldable pub create_checkout_reservation :
    ℕ → ℕ → ℤ → Option OrderRef → ℤ → ℕ → Action Ledger (Unit {0})
unfolding reserve_tx
create_checkout_reservation user order points found rate now =
    atomic (reserve_tx user order points found rate now)

abbrev pub is_reservation : ℕ → ℕ → Reservation → Bool
is_reservation user key r = r.id == key && r.user_id == user

abbrev pub set_reservation : ℕ → ℕ → (Reservation → Reservation) → Ledger → Ledger
set_reservation user key f s = record s {
  reservations = change_row (is_reservation user key) f s.reservations;
}

abbrev pub mark_confirmed : ℕ → Reservation → Reservation
mark_confirmed now r = record r { status = ReservationStatus.confirmed; confirmed_at = some now }

abbrev pub mark_cancelled : ℕ → Reservation → Reservation
mark_cancelled now r = record r { status = ReservationStatus.cancelled; cancelled_at = some now }

abbrev pub mark_expired : Reservation → Reservation
mark_expired r = record r { status = ReservationStatus.expired }

-- The debit and the new status, in one transaction.
unfoldable pub settle_reservation : ℕ → ℕ → ℕ → Reservation → Action Ledger (Unit {0})
unfolding debit
settle_reservation user key now r s =
    elim (debit user r.points_reserved (some r.order_id) (some r.id) s) [
      | err e n ↦ (err e n, s)
      | ok (_, s') ↦ (ok tt, set_reservation user key (mark_confirmed now) s')
    ]

-- An expired reservation is marked so, and committed, before the error is raised.
unfoldable pub confirm_checkout_reservation : ℕ → ℕ → ℕ → Action Ledger (Unit {0})
unfolding settle_reservation
confirm_checkout_reservation user key now s =
    elim (find_row (is_reservation user key) s.reservations) [
      | none ↦ (err reservation_not_found 404, s)
      | some r ↦
          if is_confirmed r.status
          then (ok tt, s)
          else if not (is_reserved r.status)
          then (err reservation_not_active 422, s)
          else if ltb r.expires_at now
          then (err reservation_expired 422, set_reservation user key mark_expired s)
          else settle_reservation user key now r s
    ]

unfoldable pub cancel_checkout_reservation : ℕ → ℕ → ℕ → Action Ledger (Unit {0})
cancel_checkout_reservation user key now s =
    elim (find_row (is_reservation user key) s.reservations) [
      | none ↦ (err reservation_not_found 404, s)
      | some r ↦
          if is_cancelled r.status || is_confirmed r.status
          then (ok tt, s)
          else (ok tt, set_reservation user key (mark_cancelled now) s)
    ]

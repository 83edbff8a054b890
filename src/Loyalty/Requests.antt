-- ===== src/Loyalty/Requests.antt =====
-- A history of requests on the loyalty ledger: each is a call of a service of
-- app/modules/loyalty/account/service.py, with the clock and the order that it reads.
use api_kitchen.Base.{
  ℕ, Option-cases, ok, find_row, ◌≡◌, inl, inr, Option, none, List, [], ◌∷◌, arith, find_row_test,
  All-find_row, insufficient_points, err, All, ◌<◌, ◌⊎◌, ◌+◌, refl, some, Bool-cases, change_row,
  ap,
}
use api_kitchen.Base.Int.{ℤ, negate, int_laws, pos, ◌+ℤ◌}
use api_kitchen.Loyalty.Account.{
  of_user, get_or_create_account, entry, add_points, can_pay, debit, redeem_points,
  get_available_points, OrderRef, create_checkout_reservation, confirm_checkout_reservation,
  cancel_checkout_reservation, post, new_reservation, add_reservation, is_reservation, move_points,
  set_points, write_points,
}
use api_kitchen.Loyalty.Sound.{
  IsSound, post-IsSound, get_or_create-IsSound, Balances, find-KeysBelow,
}
use api_kitchen.Loyalty.Ledger.{
  TransactionType, Reservation, Ledger, redeem, Account, Transaction, reservation,
}

pub data Request : Type 0 where
  add : ℕ → ℤ → TransactionType → Option ℕ → Request
  spend : ℕ → ℤ → Option ℕ → Request
  look : ℕ → ℕ → Request
  reserve : ℕ → ℕ → ℤ → Option OrderRef → ℤ → ℕ → Request
  confirm : ℕ → ℕ → ℕ → Request
  cancel : ℕ → ℕ → ℕ → Request

abbrev pub serve : Request → Ledger → Ledger
serve (add user points kind order) s = (add_points user points kind order s).1
serve (spend user points order) s = (redeem_points user points order s).1
serve (look user now) s = (get_available_points user now s).1
serve (reserve user order points found rate now) s =
    (create_checkout_reservation user order points found rate now s).1
serve (confirm user key now) s = (confirm_checkout_reservation user key now s).1
serve (cancel user key now) s = (cancel_checkout_reservation user key now s).1

unfoldable pub serve_all : List Request → Ledger → Ledger
serve_all [] s = s
serve_all (r ∷ rs) s = serve_all rs (serve r s)

abbrev pub empty_ledger : Ledger
empty_ledger = record {
  accounts = [];
  transactions = [];
  reservations = [];
  next_account_id = 0;
  next_reservation_id = 0;
}

-- A ledger with other reservations is as sound.
reservations-IsSound :
    (s : Ledger) (rs : List Reservation) (key : ℕ)
    → IsSound s
    → IsSound (record s { reservations = rs; next_reservation_id = key })
reservations-IsSound s rs key h = record {
  keys = h.keys;
  journal = h.journal;
  balanced = h.balanced;
}

written-move_points :
    (user : ℕ) (points : ℤ) (rows : List Account) (a : Account)
    → find_row (of_user user) rows ≡ some a
    → change_row (of_user user) (set_points (a.points +ℤ points)) rows
      ≡ change_row (of_user user) (move_points points) rows
written-move_points user points [] a found = refl
written-move_points user points (x ∷ rows) a found = elim (Bool-cases (of_user user x)) [
  | inl hit ↦ ground arith
  | inr miss ↦ ground (arith, written-move_points user points rows a)
]

-- The sum that is written is the account moved, as it is the account that was read.
write_points-post :
    (a : Account) (user : ℕ) (points : ℤ) (kind : TransactionType) (order : Option ℕ) (s : Ledger)
    → find_row (of_user user) s.accounts ≡ some a
    → write_points a user points kind order s
      ≡ post (of_user user) (entry a.id points kind order none) s
unfolding write_points
write_points-post a user points kind order s found =
    ap
      (λ rows. record s {
        accounts = rows;
        transactions = entry a.id points kind order none ∷ s.transactions;
      })
      (written-move_points user points s.accounts a found)

pub add_points-IsSound :
    (user : ℕ) (points : ℤ) (kind : TransactionType) (order : Option ℕ) (s : Ledger)
    → IsSound s
    → IsSound (add_points user points kind order s).1
unfolding add_points
add_points-IsSound user points kind order s h =
    let (a, s') = get_or_create_account user s in
    let (sound, found, same) = get_or_create-IsSound user s h in
    let t = entry a.id points kind order none in
    grind (
      int_laws,
      All-find_row (of_user user) (Balances s'.transactions) s'.accounts a sound.balanced found,
      post-IsSound (of_user user) t s' a sound found,
      write_points-post a user points kind order s' found,
    )

pub debit-IsSound :
    (user : ℕ) (points : ℤ) (order key : Option ℕ) (s s' : Ledger)
    → IsSound s
    → debit user points order key s ≡ ok (tt, s')
    → IsSound s'
unfolding debit
debit-IsSound user points order key s s' h e =
    elim (Option-cases (find_row (can_pay user points) s.accounts)) [
      | inl missing ↦ absurd (ground arith)
      | inr (a, found) ↦ grind (
        int_laws,
        find_row_test (can_pay user points) s.accounts a found,
        post-IsSound (can_pay user points) (entry a.id (negate points) redeem order key) s a h
            found,
      )
    ]

debit-IsSound_outcome :
    (user : ℕ) (points : ℤ) (order key : Option ℕ) (s : Ledger)
    → IsSound s
    → (debit user points order key s ≡ err insufficient_points 422)
      ⊎ ((s' : Ledger) × (debit user points order key s ≡ ok (tt, s')) × IsSound s')
unfolding debit
debit-IsSound_outcome user points order key s h =
    elim (Option-cases (find_row (can_pay user points) s.accounts)) [
      | inl missing ↦ inl (ground arith)
      | inr (a, found) ↦
          let s' = post (can_pay user points) (entry a.id (negate points) redeem order key) s in
          let paid : debit user points order key s ≡ ok (tt, s') = ground arith in
          inr (s', paid, debit-IsSound user points order key s s' h paid)
    ]

zero_row-Balances :
    (t : Transaction) (ts : List Transaction) (rows : List Account)
    → All (Balances ts) rows
    → t.points_delta ≡ pos 0
    → All (Balances (t ∷ ts)) rows
zero_row-Balances t ts [] h free = tt
zero_row-Balances t ts (a ∷ rows) h free = grind (int_laws, zero_row-Balances t ts rows h.1 free)

redeem_points-IsSound :
    (user : ℕ) (points : ℤ) (order : Option ℕ) (s : Ledger)
    → IsSound s
    → IsSound (redeem_points user points order s).1
unfolding redeem_points
redeem_points-IsSound user points order s h =
    let s' = (get_or_create_account user s).1 in
    let sound = (get_or_create-IsSound user s h).0 in
    elim (debit-IsSound_outcome user points order none s' sound) [
      | inl refused ↦ ground arith
      | inr (s'', paid, sound') ↦ ground arith
    ]

get_available_points-IsSound :
    (user now : ℕ) (s : Ledger) → IsSound s → IsSound (get_available_points user now s).1
unfolding get_available_points
get_available_points-IsSound user now s h = (get_or_create-IsSound user s h).0

-- The journal row of a new reservation moves no points.
zero_row-IsSound :
    (t : Transaction) (s : Ledger)
    → IsSound s
    → t.points_delta ≡ pos 0
    → t.account_id < s.next_account_id
    → IsSound (record s { transactions = t ∷ s.transactions })
zero_row-IsSound t s h free below = record {
  keys = h.keys;
  journal = (below, h.journal);
  balanced = zero_row-Balances t s.transactions s.accounts h.balanced free;
}

add_reservation-IsSound :
    (user order : ℕ) (points rate : ℤ) (now : ℕ) (s : Ledger)
    → IsSound s
    → IsSound (add_reservation user order points rate now s)
unfolding add_reservation
add_reservation-IsSound user order points rate now s h =
    let key = s.next_reservation_id in
    let r = new_reservation key user order points rate now in
    let s' = record s { reservations = r ∷ s.reservations; next_reservation_id = key + 1 } in
    let before = reservations-IsSound s (r ∷ s.reservations) (key + 1) h in
    let (a, s'') = get_or_create_account user s' in
    let (sound, found, same) = get_or_create-IsSound user s' before in
    zero_row-IsSound (entry a.id (pos 0) reservation (some order) (some key)) s'' sound refl
      (find-KeysBelow (of_user user) s''.next_account_id s''.accounts a sound.keys found)

reserve-IsSound :
    (user order : ℕ) (points : ℤ) (found : Option OrderRef) (rate : ℤ) (now : ℕ) (s : Ledger)
    → IsSound s
    → IsSound (create_checkout_reservation user order points found rate now s).1
unfolding create_checkout_reservation
reserve-IsSound user order points found rate now s h =
    ground (arith, add_reservation-IsSound user order points rate now s h)

confirm-IsSound :
    (user key now : ℕ) (s : Ledger)
    → IsSound s
    → IsSound (confirm_checkout_reservation user key now s).1
unfolding confirm_checkout_reservation
confirm-IsSound user key now s h =
    elim (Option-cases (find_row (is_reservation user key) s.reservations)) [
      | inl missing ↦ ground arith
      | inr (r, found) ↦
          elim (debit-IsSound_outcome user r.points_reserved (some r.order_id) (some r.id) s h) [
            | inl refused ↦ ground arith
            | inr (s', paid, sound) ↦ ground arith
          ]
    ]

cancel-IsSound :
    (user key now : ℕ) (s : Ledger)
    → IsSound s
    → IsSound (cancel_checkout_reservation user key now s).1
unfolding cancel_checkout_reservation
cancel-IsSound user key now s h = ground arith

serve-IsSound : (r : Request) (s : Ledger) → IsSound s → IsSound (serve r s)
serve-IsSound (add user points kind order) s h = add_points-IsSound user points kind order s h
serve-IsSound (spend user points order) s h = redeem_points-IsSound user points order s h
serve-IsSound (look user now) s h = get_available_points-IsSound user now s h
serve-IsSound (reserve user order points found rate now) s h =
    reserve-IsSound user order points found rate now s h
serve-IsSound (confirm user key now) s h = confirm-IsSound user key now s h
serve-IsSound (cancel user key now) s h = cancel-IsSound user key now s h

serve_all_keeps : (rs : List Request) (s : Ledger) → IsSound s → IsSound (serve_all rs s)
unfolding serve_all
serve_all_keeps [] s h = h
serve_all_keeps (r ∷ rs) s h = serve_all_keeps rs (serve r s) (serve-IsSound r s h)

-- Whatever requests are served from an empty ledger, refused ones included, one after the other and
-- each over before the next begins, no account ever holds fewer than zero points, and each
-- account's points are the sum of its journal rows.
pub serve_all-IsSound : (rs : List Request) → IsSound (serve_all rs empty_ledger)
serve_all-IsSound rs =
    serve_all_keeps rs empty_ledger (record { keys = tt; journal = tt; balanced = tt })

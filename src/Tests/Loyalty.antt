-- ===== src/Tests/Loyalty.antt =====
-- Runs of the loyalty services, and instances of their theorems.
use api_kitchen.Base.{◌≡◌, refl, none, some, List, [], ◌∷◌, ok, find_row, Option, arith}
use api_kitchen.Base.Int.{pos, negate, ◌+ℤ◌, ◌≤ℤ◌, ◌*ℤ◌}
use api_kitchen.Orders.Status.{OrderStatus}
use api_kitchen.Loyalty.Account.{
  add_points, redeem_points, get_available_points, add_reservation, create_checkout_reservation,
  of_user, debit, held_points, OrderRef, new_reservation, is_reservation, mark_confirmed,
  settle_reservation, confirm_checkout_reservation, write_points,
}
use api_kitchen.Loyalty.Requests.{
  Request, add, spend, reserve, serve_all, empty_ledger, serve_all-IsSound,
}
use api_kitchen.Loyalty.Sound.{IsSound}
use api_kitchen.Loyalty.Ledger.{earn, Ledger, Account, Reservation}
use api_kitchen.Loyalty.Reservations.{reserve-covered, confirm_once, Paid}

-- Customer 7 earns 100 points, holds 60 for order 3, and confirms; customer 8 never earned any.
abbrev morning : List Request
morning =
    add 7 (pos 100) earn (some 1)
    ∷ spend 8 (pos 5) none
    ∷ reserve 7 3 (pos 60) (some (record { user_id = some 7; status = OrderStatus.pending }))
        (pos 5) 1000
    ∷ []

abbrev held : Ledger
held = serve_all morning empty_ledger

morning_lem : (get_available_points 7 1000 held).0 ≡ pos 40
unfolding serve_all add_points redeem_points create_checkout_reservation get_available_points
    add_reservation ◌+ℤ◌ ◌*ℤ◌ negate
morning_lem = refl

serve_all-IsSound_example : IsSound (serve_all morning empty_ledger)
serve_all-IsSound_example = serve_all-IsSound morning

abbrev order_three : Option OrderRef
order_three = some (record { user_id = some 7; status = OrderStatus.pending })

abbrev earned : Ledger
earned = serve_all (add 7 (pos 100) earn (some 1) ∷ []) empty_ledger

reserve-covered_example :
    let s = (create_checkout_reservation 7 3 (pos 60) order_three (pos 5) 1000 earned).1 in
    (a : Account) × (find_row (of_user 7) s.accounts ≡ some a)
    × (held_points 7 1000 s.reservations ≤ℤ a.points)
unfolding serve_all add_points create_checkout_reservation get_available_points ◌+ℤ◌ negate
reserve-covered_example = reserve-covered 7 3 (pos 60) order_three (pos 5) 1000 earned refl

abbrev rich : Account
rich = record { id = 0; user_id = 7; points = pos 100 }

-- 60 points are spent between the read and the write of a credit of 10: they come back.
overlapping_credit_lem :
    (find_row (of_user 7) earned.accounts ≡ some rich)
    × ((write_points rich 7 (pos 10) earn none (redeem_points 7 (pos 60) none earned).1).accounts
        ≡ record { id = 0; user_id = 7; points = pos 110 } ∷ [])
unfolding serve_all add_points redeem_points debit write_points ◌+ℤ◌ negate
overlapping_credit_lem = (refl, refl)

abbrev hold : Reservation
hold = new_reservation 0 7 3 (pos 60) (pos 5) 1000

confirm_once_example :
    let s = (confirm_checkout_reservation 7 0 1500 held).1 in
    Paid 7 hold held s
    × (find_row (is_reservation 7 0) s.reservations ≡ some (mark_confirmed 1500 hold))
    × (confirm_checkout_reservation 7 0 9000 s ≡ (ok tt, s))
unfolding serve_all add_points redeem_points create_checkout_reservation get_available_points
    add_reservation confirm_checkout_reservation settle_reservation debit ◌+ℤ◌ negate
confirm_once_example = confirm_once 7 0 1500 9000 held hold (omega arith) refl refl refl

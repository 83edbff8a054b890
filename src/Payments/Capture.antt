-- ===== src/Payments/Capture.antt =====
-- What the capture of a guarantee has gone through.
use api_kitchen.Base.{
  ℕ, Option-cases, ok, Text, find_row, change_row, ◌≤◌, ◌≡◌, refl, inl, inr, Option, none, some,
  arith,
}
use api_kitchen.Store.{Store, Env}
use api_kitchen.Payments.Guarantee.{
  is_authorized_guarantee, settle, or_all, capture_tx, capture_guarantee,
}
use api_kitchen.Payments.Tables.{collected, Payment}

abbrev pub taken_in : ℕ → ℕ → Option ℕ → Payment → Payment
taken_in cents now user p = record (settle collected now user p) { captured_amount = some cents }

-- When the capture of a guarantee returns, the order had an authorised guarantee, at least one cent
-- and no more than the guarantee was taken, all of it when no amount was named, and the row of the
-- guarantee holds what was taken.
pub capture_within :
    (env : Env) (order : ℕ) (asked : Option ℕ) (reason : Text) (user : Option ℕ) (s s' : Store)
    → capture_guarantee env order asked reason user s ≡ (ok tt, s')
    → (p : Payment) × (find_row (is_authorized_guarantee order) s.payments ≡ some p)
      × ((cents : ℕ) × (1 ≤ cents)
          × (cents ≤ p.amount)
          × (asked ≡ none → cents ≡ p.amount)
          × (s'.payments
              ≡ change_row
                  (is_authorized_guarantee order)
                  (taken_in cents env.now user)
                  s.payments))
unfolding capture_guarantee capture_tx
capture_within env order asked reason user s s' e =
    elim (Option-cases (find_row (is_authorized_guarantee order) s.payments)) [
      | inl nothing ↦ absurd (ground arith)
      | inr (p, found) ↦ (
        p,
        found,
        (or_all asked p.amount, ground arith, ground arith, (λ all. rw all refl), ground arith),
      )
    ]

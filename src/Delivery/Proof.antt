-- ===== src/Delivery/Proof.antt =====
-- The code that the customer gives to the driver (app/modules/delivery/proof.py).
use api_kitchen.Base.{
  ℕ, leb, ◌==◌, order_not_found, delivery_code_locked, delivery_code_invalid, err, raise_if, Action,
  Text, strip, text_len, text_eq, find_row, count_rows, all_rows, suc, ◌+◌, ◌/◌, ◌%◌, Bool, not,
  ◌&&◌, Option, none, some, [], ◌∷◌, ◌++◌, zero, Result, ok, ◌>>◌,
}
use api_kitchen.Store.{Store, Env}
use api_kitchen.Orders.Tables.{is_order}
use api_kitchen.Orders.AfterCommit.{ensure_nonce}
use api_kitchen.Delivery.Tables.{CodeAttempt}

abbrev pub max_failed_attempts : ℕ
max_failed_attempts = 5

-- The last `n` decimal digits of a number, with leading zeros.
abbrev pub digits : ℕ → ℕ → Text
digits zero value = []
digits (suc n) value = digits n (value / 10) ++ ((48 + value % 10) ∷ [])

-- `f"{... % 10 ** 4:04d}"`.
unfoldable pub derive_code : Env → ℕ → ℕ → Text
derive_code env order nonce = digits 4 (env.code_digest order nonce % 10000)

abbrev pub is_failed_on : ℕ → CodeAttempt → Bool
is_failed_on delivery_key a = a.delivery_id == delivery_key && not a.success

abbrev pub failed_attempts : ℕ → Store → ℕ
failed_attempts delivery_key s = count_rows (is_failed_on delivery_key) s.attempts

-- `_CODE_RE.match`.
abbrev pub is_code : Env → Text → Bool
is_code env code = (text_len code == 4) && all_rows env.is_digit code

abbrev pub nonce_of : ℕ → Store → Option ℕ
nonce_of order s = elim (find_row (is_order order) s.orders) [
  | none ↦ none
  | some o ↦ o.delivery_code_nonce
]

-- The comparison, with its row in the log of attempts, which is committed whatever it says.
unfoldable pub try_code : Env → ℕ → ℕ → Option ℕ → Text → ℕ → Action Store (Unit {0})
try_code env delivery_key order user code nonce s =
    let matches = text_eq code (derive_code env order nonce) in
    let s' = record s {
      attempts =
          record { delivery_id = delivery_key; user_id = user; success = matches } ∷ s.attempts;
    } in
    (raise_if (not matches) delivery_code_invalid 422, s')

-- What is read before a code is compared: how many codes have failed, and the form of this one.
unfoldable pub check_code : Env → ℕ → Text → Store → Result (Unit {0})
check_code env delivery_key submitted s = do
  raise_if (leb max_failed_attempts (failed_attempts delivery_key s)) delivery_code_locked 423
  raise_if (not (is_code env (strip submitted))) delivery_code_invalid 422

unfoldable pub finish_code : Env → ℕ → ℕ → Option ℕ → Text → Action Store (Unit {0})
finish_code env delivery_key order user submitted s =
    elim (nonce_of order (ensure_nonce env order s)) [
      | none ↦ (err order_not_found 404, s)
      | some nonce ↦
          try_code env delivery_key order user (strip submitted) nonce (ensure_nonce env order s)
    ]

-- No lock is taken: the check reads, and the attempt is written and committed later. Here nothing
-- comes between the two.
unfoldable pub verify_code : Env → ℕ → ℕ → Option ℕ → Text → Action Store (Unit {0})
unfolding check_code finish_code
verify_code env delivery_key order user submitted s =
    elim (check_code env delivery_key submitted s) [
      | err e n ↦ (err e n, s)
      | ok t ↦ finish_code env delivery_key order user submitted s
    ]

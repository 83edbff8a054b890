-- ===== src/Loyalty/Sound.antt =====
-- The loyalty ledger balances: what every operation of Loyalty/Account.antt keeps true.
use api_kitchen.Base.{
  ℕ, if◌then◌else◌, find_row, change_row, All, ◌≤◌, ◌<◌, ◌≡◌, refl, Bool, some, List, [], ◌∷◌,
  arith, ◌==◌, Option-cases, sym, inl, inr,
}
use api_kitchen.Base.Int.{ℤ, int_laws, pos, ◌+ℤ◌, ◌≤ℤ◌}
use api_kitchen.Loyalty.Ledger.{Account, Transaction, Ledger}
use api_kitchen.Loyalty.Account.{move_points, of_user, get_or_create_account, post}

-- The sum of the journal rows of an account.
abbrev pub balance : ℕ → List Transaction → ℤ
balance key [] = pos 0
balance key (t ∷ ts) = (if t.account_id == key then t.points_delta else pos 0) +ℤ balance key ts

-- Keys fall along the table, so they are distinct and below the sequence.
abbrev pub KeysBelow : ℕ → List Account → Type 0
KeysBelow bound [] = Unit
KeysBelow bound (a ∷ rows) = (a.id < bound) × KeysBelow a.id rows

abbrev pub Balances : List Transaction → Account → Type 0
Balances ts a = (pos 0 ≤ℤ a.points) × (a.points ≡ balance a.id ts)

abbrev pub AccountBelow : ℕ → Transaction → Type 0
AccountBelow bound t = t.account_id < bound

pub record IsSound (s : Ledger) : Type 0 where
  pub keys : KeysBelow s.next_account_id s.accounts
  pub journal : All (AccountBelow s.next_account_id) s.transactions
  pub balanced : All (Balances s.transactions) s.accounts

KeysBelow-mono : (m n : ℕ) (rows : List Account) → m ≤ n → KeysBelow m rows → KeysBelow n rows
KeysBelow-mono m n [] le h = tt
KeysBelow-mono m n (a ∷ rows) le h = (omega arith, h.1)

AccountBelow-mono :
    (m n : ℕ) (ts : List Transaction) → m ≤ n → All (AccountBelow m) ts → All (AccountBelow n) ts
AccountBelow-mono m n [] le h = tt
AccountBelow-mono m n (t ∷ ts) le h = (omega arith, AccountBelow-mono m n ts le h.1)

-- A new account has no rows yet.
balance_new : (key : ℕ) (ts : List Transaction) → All (AccountBelow key) ts → balance key ts ≡ pos 0
unfolding ◌+ℤ◌
balance_new key [] h = refl
balance_new key (t ∷ ts) h = ground (arith, balance_new key ts h.1)

-- An account whose row is found has a key below the bound.
pub find-KeysBelow :
    (p : Account → Bool) (bound : ℕ) (rows : List Account) (a : Account)
    → KeysBelow bound rows
    → find_row p rows ≡ some a
    → a.id < bound
find-KeysBelow p bound [] a h e = absurd (cc)
find-KeysBelow p bound (x ∷ xs) a h e = ground (arith, find-KeysBelow p x.id xs a h.1)

change-KeysBelow :
    (p : Account → Bool) (d : ℤ) (bound : ℕ) (rows : List Account)
    → KeysBelow bound rows
    → KeysBelow bound (change_row p (move_points d) rows)
change-KeysBelow p d bound [] h = tt
change-KeysBelow p d bound (x ∷ xs) h = ground (arith, change-KeysBelow p d x.id xs h.1)

-- A row for another account leaves a balance rows it was.
Balances-skip :
    (t : Transaction) (ts : List Transaction) (bound : ℕ) (rows : List Account)
    → KeysBelow bound rows
    → bound ≤ t.account_id
    → All (Balances ts) rows
    → All (Balances (t ∷ ts)) rows
Balances-skip t ts bound [] k le h = tt
Balances-skip t ts bound (a ∷ rows) k le h =
    grind (int_laws, Balances-skip t ts a.id rows k.1 (omega arith) h.1)

post-Balances :
    (p : Account → Bool) (t : Transaction) (ts : List Transaction) (bound : ℕ) (rows : List Account)
    (a : Account)
    → KeysBelow bound rows
    → All (Balances ts) rows
    → find_row p rows ≡ some a
    → t.account_id ≡ a.id
    → pos 0 ≤ℤ a.points +ℤ t.points_delta
    → All (Balances (t ∷ ts)) (change_row p (move_points t.points_delta) rows)
post-Balances p t ts bound [] a k h e same enough = tt
post-Balances p t ts bound (x ∷ xs) a k h e same enough = grind (
  int_laws,
  find-KeysBelow p x.id xs a k.1,
  Balances-skip t ts x.id xs k.1,
  post-Balances p t ts x.id xs a k.1 h.1,
)

-- A row is posted on the account that a test finds, when its points allow it.
pub post-IsSound :
    (p : Account → Bool) (t : Transaction) (s : Ledger) (a : Account)
    → IsSound s
    → find_row p s.accounts ≡ some a
    → t.account_id ≡ a.id
    → pos 0 ≤ℤ a.points +ℤ t.points_delta
    → IsSound (post p t s)
post-IsSound p t s a h e same enough = record {
  keys = change-KeysBelow p t.points_delta s.next_account_id s.accounts h.keys;
  journal = (rw same (find-KeysBelow p s.next_account_id s.accounts a h.keys e), h.journal);
  balanced =
      post-Balances p t s.transactions s.next_account_id s.accounts a h.keys h.balanced e same
        enough;
}

-- The account exists afterwards, the ledger stays sound, and nothing else changes.
pub get_or_create-IsSound :
    (user : ℕ) (s : Ledger)
    → IsSound s
    → let (a, s') = get_or_create_account user s in
      IsSound s'
      × (find_row (of_user user) s'.accounts ≡ some a)
      × (s'.reservations ≡ s.reservations)
unfolding get_or_create_account
get_or_create-IsSound user s h = elim (Option-cases (find_row (of_user user) s.accounts)) [
  | inr (a, e) ↦ rw (e, get_or_create_account) (h, e, refl)
  | inl e ↦
      rw (e, get_or_create_account)
        (
          record {
            keys = (omega arith, h.keys);
            journal = AccountBelow-mono _ _ s.transactions (omega arith) h.journal;
            balanced = (
              (omega arith, sym (balance_new s.next_account_id s.transactions h.journal)),
              h.balanced,
            );
          },
          ground arith,
          refl,
        )
]

-- ===== src/Promotions/Counter.antt =====
-- A code as a counter with a limit: what the use of a code does to it.
use api_kitchen.Base.{
  ℕ, Bool-cases, Option-cases, ok, Result-cases, Text, strip, is_empty, upper, find_row, change_row,
  ◌≡◌, refl, ◌⊎◌, inl, inr, Bool, false, Option, some, List, [], ◌∷◌, arith, ◌==◌, if◌then◌else◌,
  count_rows, find_row_test, ◌+◌, ◌≤◌, not, ◌&&◌, none, commit_ok, find-change_row, ap, find_weaker,
  change_weaker, true,
}
use api_kitchen.Promotions.Service.{
  has_code, load_promos, can_take, take_use, apply_promo_tx, apply_promo,
}
use api_kitchen.Promotions.Discounts.{calculate_discounts, is_reached}
use api_kitchen.Promotions.Tables.{Promo, Promos, PromoEnv, CartItem}
use api_kitchen.Promotions.Admin.{is_promo}

-- The stages of a use that is granted.
pub record Applied (env : PromoEnv) (code : Text) (subtotal : ℕ) (items : List CartItem)
    (user : Option ℕ) (verified : Option Bool) (s s' : Promos) (d : ℕ) : Type 0 where
  pub promo : Promo
  pub row : Promo
  pub loaded : load_promos s (code ∷ []) ≡ ok (promo ∷ [])
  pub found : find_row (can_take promo.id) s.promotions ≡ some row
  pub after : s' ≡ record s { promotions = change_row (can_take promo.id) take_use s.promotions }

load_one :
    (s : Promos) (code : Text) (ps : List Promo)
    → load_promos s (code ∷ []) ≡ ok ps
    → (ps ≡ []) ⊎ ((p : Promo) × (ps ≡ p ∷ []))
unfolding load_promos
load_one s code ps e = elim (Bool-cases (is_empty (strip code))) [
  | inl blank ↦ inl (ground arith)
  | inr full ↦ elim (Option-cases (find_row (has_code (upper (strip code))) s.promotions)) [
    | inl missing ↦ absurd (ground arith)
    | inr (p, found) ↦ inr (p, ground arith)
  ]
]

pub apply_promo_tx_ok :
    (env : PromoEnv) (code : Text) (subtotal : ℕ) (items : List CartItem) (user : Option ℕ)
    (verified : Option Bool) (s s' : Promos) (d : ℕ)
    → apply_promo_tx env code subtotal items user verified s ≡ ok (d, s')
    → Applied env code subtotal items user verified s s' d
unfolding apply_promo_tx
apply_promo_tx_ok env code subtotal items user verified s s' d e =
    elim (Result-cases (load_promos s (code ∷ []))) [
      | inl (x, n, refused) ↦ absurd (ground arith)
      | inr (ps, loaded) ↦ elim (load_one s code ps loaded) [
        | inl blank ↦ absurd (ground arith)
        | inr (p, one) ↦
            elim (Result-cases
              (calculate_discounts env s (p ∷ []) subtotal items user verified false)) [
                | inl (x, n, refused) ↦ absurd (ground arith)
                | inr (r, counter_row) ↦
                    elim (Option-cases (find_row (can_take p.id) s.promotions)) [
                      | inl missing ↦ absurd (ground arith)
                      | inr (row, found) ↦ record {
                        promo = p;
                        row = row;
                        loaded = rw (loaded, one) refl;
                        found = found;
                        after = ground arith;
                      }
                    ]
              ]
      ]
    ]

-- What a use needs to know of a code, and nothing else of its row.
pub record Counter : Type 0 where
  pub uses : ℕ
  pub limit : Option ℕ
  pub is_open : Bool

abbrev pub take : Counter → Option Counter
take c =
    if c.is_open && not (is_reached c.limit c.uses)
    then some (record c { uses = c.uses + 1 })
    else none

abbrev pub counter_of : Promo → Counter
counter_of p = record { uses = p.current_uses; limit = p.max_uses; is_open = p.is_active }

abbrev pub counter_row : Option Promo → Option Counter
counter_row none = none
counter_row (some p) = some (counter_of p)

abbrev pub view : ℕ → Promos → Option Counter
view key s = counter_row (find_row (is_promo key) s.promotions)

-- The primary key of the table.
abbrev pub OneEach : Promos → Type 0
OneEach s = (key : ℕ) → count_rows (is_promo key) s.promotions ≤ 1

can_take-is_promo : (key : ℕ) (p : Promo) → can_take key p ≡ true → is_promo key p ≡ true
can_take-is_promo key p e = ground arith

change-view_other :
    (key k : ℕ) (xs : List Promo)
    → (k == key) ≡ false
    → find_row (is_promo k) (change_row (is_promo key) take_use xs) ≡ find_row (is_promo k) xs
change-view_other key k [] other = refl
change-view_other key k (x ∷ xs) other = ground (arith, change-view_other key k xs other)

-- A use that is granted is a step of one code's counter, which was open and below its limit, and
-- leaves the counter of every other code as it was, in a table whose keys are distinct.
pub apply_promo-take :
    (env : PromoEnv) (code : Text) (subtotal : ℕ) (items : List CartItem) (user : Option ℕ)
    (verified : Option Bool) (s s' : Promos) (d : ℕ)
    → OneEach s
    → apply_promo env code subtotal items user verified s ≡ (ok d, s')
    → (p : Promo) × (c c' : Counter) × (load_promos s (code ∷ []) ≡ ok (p ∷ []))
      × (view p.id s ≡ some c)
      × (take c ≡ some c')
      × (view p.id s' ≡ some c')
      × ((k : ℕ) → (k == p.id) ≡ false → view k s' ≡ view k s)
unfolding apply_promo
apply_promo-take env code subtotal items user verified s s' d one e =
    let done = commit_ok (apply_promo_tx env code subtotal items user verified s) s s' d e in
    let a = apply_promo_tx_ok env code subtotal items user verified s s' d done in
    let here =
      find_weaker (can_take a.promo.id) (is_promo a.promo.id) (can_take-is_promo a.promo.id)
        s.promotions a.row (one a.promo.id) a.found in
    let test = find_row_test (can_take a.promo.id) s.promotions a.row a.found in
    let same =
      change_weaker (can_take a.promo.id) (is_promo a.promo.id) (can_take-is_promo a.promo.id)
        take_use s.promotions a.row (one a.promo.id) a.found in
    let key = a.promo.id in
    let kept =
      find-change_row (is_promo key) take_use s.promotions a.row here
        (find_row_test (is_promo key) s.promotions a.row here) in
    (
      a.promo,
      counter_of a.row,
      counter_of (take_use a.row),
      a.loaded,
      ap counter_row here,
      ground (arith, test),
      rw (a.after, same) (ap counter_row kept),
      λ k other. rw (a.after, same) (ap counter_row (change-view_other key k s.promotions other)),
    )

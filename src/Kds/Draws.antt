-- ===== src/Kds/Draws.antt =====
-- The loops that draw a code or a token end, and say which draw they took.
use api_kitchen.Base.{
  ℕ, ◌==◌, Bool-cases, pairing_code_generation_failed, ok, err, Text, find_row, zero, suc, ◌+◌, ◌≤◌,
  ◌<◌, ◌≡◌, refl, ◌⊎◌, inl, inr, Bool, true, false, none, some, List, arith, Option-cases,
  kds_session_generation_failed,
}
use api_kitchen.Kds.Tables.{PairingCode, Remote, KdsEnv}
use api_kitchen.Kds.Pairing.{
  draw, attempts, is_code_taken, draw_code, has_token_hash, is_token_taken, draw_token,
}

-- The first draw from i on, among those left, that is not taken.
pub record FirstFree (taken : Text → Bool) (drawn : ℕ → Text) (i left : ℕ) (t : Text) : Type 0 where
  pub attempt : ℕ
  pub above : i ≤ attempt
  pub below : attempt < i + left
  pub is_drawn : drawn attempt ≡ t
  pub free : taken t ≡ false
  pub before : (m : ℕ) → i ≤ m → m < attempt → taken (drawn m) ≡ true

abbrev pub AllTaken : (Text → Bool) → (ℕ → Text) → ℕ → ℕ → Type 0
AllTaken taken drawn i left = (m : ℕ) → i ≤ m → m < i + left → taken (drawn m) ≡ true

-- A loop with some attempts left gives the first free draw, or nothing when all are taken.
pub draw_lem :
    (taken : Text → Bool) (drawn : ℕ → Text) (i left : ℕ)
    → ((t : Text) × (draw taken drawn i left ≡ some t) × FirstFree taken drawn i left t)
      ⊎ ((draw taken drawn i left ≡ none) × AllTaken taken drawn i left)
unfolding draw
draw_lem taken drawn i zero = inr (refl, λ m le lt. absurd (omega arith))
draw_lem taken drawn i (suc left) = elim (Bool-cases (taken (drawn i))) [
  | inr free ↦ inl (
    drawn i,
    ground arith,
    record {
      attempt = i;
      above = omega arith;
      below = omega arith;
      is_drawn = refl;
      free = free;
      before = λ m le lt. absurd (omega arith);
    },
  )
  | inl busy ↦ elim (draw_lem taken drawn (suc i) left) [
    | inl (t, e, first) ↦ inl (
      t,
      ground arith,
      record {
        attempt = first.attempt;
        above = omega (arith, first.above);
        below = omega (arith, first.below);
        is_drawn = first.is_drawn;
        free = first.free;
        before = λ m lo hi. elim (Bool-cases (m == i)) [
          | inl here ↦ ground arith
          | inr past ↦ first.before m (ground arith) hi
        ];
      },
    )
    | inr (e, all) ↦ inr (
      ground arith,
      λ m lo hi. elim (Bool-cases (m == i)) [
        | inl here ↦ ground arith
        | inr past ↦ all m (ground arith) (omega arith)
      ],
    )
  ]
]

-- The loop for a pairing code ends after ten attempts at most: it returns the first drawn code that
-- no usable row has, or raises a 503 error, and then all ten have one.
pub draw_code_ends :
    (env : KdsEnv) (rows : List PairingCode)
    → ((code : Text) × (draw_code env rows ≡ ok code)
        × FirstFree (is_code_taken env rows) env.drawn_code 0 10 code)
      ⊎ ((draw_code env rows ≡ err pairing_code_generation_failed 503)
          × AllTaken (is_code_taken env rows) env.drawn_code 0 10)
unfolding draw_code
draw_code_ends env rows = elim (draw_lem (is_code_taken env rows) env.drawn_code 0 attempts) [
  | inl (t, e, first) ↦ inl (t, rw (e) refl, first)
  | inr (e, all) ↦ inr (rw (e) refl, all)
]

-- A token that is drawn has no row.
pub draw_token_free :
    (env : KdsEnv) (rows : List Remote) (token : Text)
    → draw_token env rows ≡ ok token
    → find_row (has_token_hash (env.hash_token token)) rows ≡ none
unfolding draw_token
draw_token_free env rows token e =
    elim (draw_lem (is_token_taken env rows) env.drawn_token 0 attempts) [
      | inl (t, drawn, first) ↦ ground (arith, first.free)
      | inr (nothing, all) ↦ absurd (ground arith)
    ]

-- The two outcomes of the loop for a token.
pub draw_token_cases :
    (env : KdsEnv) (rows : List Remote)
    → (draw_token env rows ≡ err kds_session_generation_failed 503)
      ⊎ ((token : Text) × (draw_token env rows ≡ ok token))
unfolding draw_token
draw_token_cases env rows =
    elim (Option-cases (draw (is_token_taken env rows) env.drawn_token 0 attempts)) [
      | inl nothing ↦ inl (rw (nothing) refl)
      | inr (t, drawn) ↦ inr (t, rw (drawn) refl)
    ]

-- ===== src/Base/Waiting.antt =====
-- Requests that overlap: the keys of those that have checked and not written yet.
use Prim.Native.Nat.{ℕ, ◌+◌, ◌≤◌}
use mathlib.Core.Path.{◌≡◌}
use mathlib.Core.Bool.{Bool}
use mathlib.Core.List.{List, [], ◌∷◌}
use native.Mathlib.Omega.{arith}
use api_kitchen.Base.Tests.{◌==◌, if◌then◌else◌}
use api_kitchen.Base.Rows.{count_rows}

-- How many of the requests that wait have a key.
abbrev pub is_same : ℕ → ℕ → Bool
is_same key x = x == key

abbrev pub waiting : ℕ → List ℕ → ℕ
waiting key = count_rows (is_same key)

abbrev pub take_out : ℕ → List ℕ → List ℕ
take_out key [] = []
take_out key (x ∷ xs) = if x == key then xs else x ∷ take_out key xs

pub waiting-take_out :
    (key k : ℕ) (ps : List ℕ)
    → 1 ≤ waiting key ps
    → waiting k (take_out key ps) + (if key == k then 1 else 0) ≡ waiting k ps
waiting-take_out key k [] h = absurd (omega arith)
waiting-take_out key k (x ∷ ps) h = ground (arith, waiting-take_out key k ps)

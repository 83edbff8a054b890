-- ===== src/Base/Texts.antt =====
-- Texts as lists of code points, and what the services do with them: `strip`, `upper`, `len` and
-- equality.
use Prim.Native.Nat.{ℕ, suc, ◌-◌}
use Prim.Native.Char.{code}
use Prim.Native.String.{String}
use mathlib.Core.Bool.{Bool, true, false, ◌&&◌, ◌||◌}
use mathlib.Core.List.{List, [], ◌∷◌, map, reverse}
use mathlib.Core.Path.{◌≡◌, refl}
use native.Mathlib.Omega.{arith}
use api_kitchen.Base.Tests.{leb, ◌==◌, if◌then◌else◌}

abbrev pub Text : Type 0
Text = List ℕ

-- The code points of a literal.
abbrev pub text : String → Text
text String.[] = []
text (String.◌∷◌ c cs) = code c ∷ text cs

-- `str.isspace`, for the code points that `strip` takes off.
is_space : ℕ → Bool
is_space c =
    (leb 9 c && leb c 13)
    || (leb 28 c && leb c 32)
    || c == 133
    || c == 160
    || c == 5760
    || (leb 8192 c && leb c 8202)
    || c == 8232
    || c == 8233
    || c == 8239
    || c == 8287
    || c == 12288

strip_left : Text → Text
strip_left [] = []
strip_left (c ∷ cs) = if is_space c then strip_left cs else c ∷ cs

unfoldable pub strip : Text → Text
unfolding strip_left is_space
strip cs = reverse (strip_left (reverse (strip_left cs)))

abbrev pub is_empty : Text → Bool
is_empty [] = true
is_empty (_ ∷ _) = false

abbrev pub text_len : Text → ℕ
text_len [] = 0
text_len (_ ∷ cs) = suc (text_len cs)

abbrev pub text_eq : Text → Text → Bool
text_eq [] [] = true
text_eq [] (_ ∷ _) = false
text_eq (_ ∷ _) [] = false
text_eq (c ∷ cs) (d ∷ ds) = c == d && text_eq cs ds

-- `str.upper` on ASCII letters.
abbrev pub upper_code : ℕ → ℕ
upper_code c = if leb b'a' c && leb c b'z' then c - 32 else c

abbrev pub upper : Text → Text
upper = map upper_code

pub text_eq_self : (t : Text) → text_eq t t ≡ true
text_eq_self [] = refl
text_eq_self (c ∷ cs) = ground (arith, text_eq_self cs)

pub text_eq_sound : (a b : Text) → text_eq a b ≡ true → a ≡ b
text_eq_sound [] [] e = refl
text_eq_sound [] (d ∷ ds) e = absurd (cc)
text_eq_sound (c ∷ cs) [] e = absurd (cc)
text_eq_sound (c ∷ cs) (d ∷ ds) e = ground (arith, text_eq_sound cs ds)

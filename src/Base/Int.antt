-- ===== src/Base/Int.antt =====
-- The C `int` where its sign matters. `negsuc n` is -(n + 1).
use Prim.Native.Nat.{ℕ, zero, suc}
use mathlib.Core.Bool.{Bool, true, false, ◌||◌}
use mathlib.Core.Logic.{◌↔◌}
use mathlib.Core.Path.{◌≡◌}
use mathlib.Core.List.{List, [], ◌∷◌}
use native.Mathlib.Omega.{arith}
use Prim.Native.Nat.{◌+◌, ◌-◌, ◌*◌}
use oscshell.Base.Tests.{◌==◌, ltb, leb, if◌then◌else◌}

pub data ℤ : Type 0 where
  pos : ℕ → ℤ
  negsuc : ℕ → ℤ

-- i < 0
abbrev pub is_neg : ℤ → Bool
is_neg (pos n) = false
is_neg (negsuc n) = true

-- i > 0
abbrev pub is_pos : ℤ → Bool
is_pos (pos zero) = false
is_pos (pos (suc n)) = true
is_pos (negsuc n) = false

-- i == 0
abbrev pub is_zero : ℤ → Bool
is_zero (pos zero) = true
is_zero (pos (suc n)) = false
is_zero (negsuc n) = false

-- i == j
abbrev pub int_eq : ℤ → ℤ → Bool
int_eq (pos m) (pos n) = m == n
int_eq (negsuc m) (negsuc n) = m == n
int_eq _ _ = false

pub int_eq_iff : (i j : ℤ) → (int_eq i j ≡ true) ↔ (i ≡ j)
int_eq_iff (pos m) (pos n) = ground arith
int_eq_iff (pos m) (negsuc n) = ground arith
int_eq_iff (negsuc m) (pos n) = ground arith
int_eq_iff (negsuc m) (negsuc n) = ground arith

-- m - n
abbrev pub difference : ℕ → ℕ → ℤ
difference m n = if leb n m then pos (m - n) else negsuc (n - m - 1)

infixl 20 ◌+ℤ◌
-- i + j
abbrev pub ◌+ℤ◌ : ℤ → ℤ → ℤ
pos m +ℤ pos n = pos (m + n)
pos m +ℤ negsuc n = difference m (suc n)
negsuc m +ℤ pos n = difference n (suc m)
negsuc m +ℤ negsuc n = negsuc (suc (m + n))

-- The `int` of 32 bits.
abbrev pub int32 : ℕ → ℤ
int32 n = if ltb n 2147483648 then pos n else negsuc (4294967295 - n)

unfoldable pub digits_value : ℕ → List ℕ → ℕ
digits_value n [] = n
digits_value n (c ∷ s) = elim (leb b'0' c) [
  | false ↦ n
  | true ↦ elim (leb c b'9') [ true ↦ digits_value (n * 10 + (c - b'0')) s | false ↦ n ]
]

negated : ℕ → ℤ
negated zero = pos zero
negated (suc n) = negsuc n

-- `atoi`, for a value that an `int` holds: spaces, a sign, and digits.
unfoldable pub atoi : List ℕ → ℤ
unfolding digits_value negated
atoi [] = pos 0
atoi (c ∷ s) = elim (c == b' ' || c == b'\t' || c == b'\n' || c == b'\r') [
  | true ↦ atoi s
  | false ↦
      if c == b'-'
      then negated (digits_value 0 s)
      else if c == b'+'
      then pos (digits_value 0 s)
      else pos (digits_value 0 (c ∷ s))
]

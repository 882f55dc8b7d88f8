-- ===== src/Base/Print.antt =====
-- What `sprintf` prints for numbers.
use Prim.Native.Nat.{ℕ, zero, suc, ◌+◌, ◌-◌, ◌/◌, ◌%◌}
use mathlib.Core.List.{[], ◌∷◌, ◌++◌}
use oscshell.Base.Tests.{ltb, if◌then◌else◌}
use oscshell.Base.Lists.{length}
use oscshell.Base.Int.{ℤ, pos, negsuc}
use oscshell.Base.Text.{Bytes}

-- The decimal digits of a number, at most `n`.
unfoldable pub decimal : ℕ → ℕ → Bytes
decimal zero k = []
decimal (suc n) k =
    let front = decimal n (k / 10) in
    if ltb k 10 then (b'0' + k) ∷ [] else front ++ (b'0' + k % 10) ∷ []

-- `%d` for an `int`, which has ten digits at most.
unfoldable pub print_int : ℤ → Bytes
print_int (pos k) = decimal 10 k
print_int (negsuc k) = b'-' ∷ decimal 10 (suc k)

unfoldable pub zero_digits : ℕ → Bytes
zero_digits zero = []
zero_digits (suc n) = b'0' ∷ zero_digits n

-- `%0nd` for a number that is not negative.
unfoldable pub print_padded : ℕ → ℕ → Bytes
print_padded n k = let s = decimal 10 k in zero_digits (n - length s) ++ s

-- `%0nd`
unfoldable pub print_padded_int : ℕ → ℤ → Bytes
print_padded_int n (pos k) = print_padded n k
print_padded_int n (negsuc k) =
    let s = decimal 10 (suc k) in b'-' ∷ (zero_digits (n - 1 - length s) ++ s)

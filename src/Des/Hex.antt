-- ===== src/Des/Hex.antt =====
-- `bcdtoasc`, `asctobcd`, `IntToHex` and `HexToInt` of DBRecord/datasafe.h: bytes as hexadecimal
-- digits.
use oscshell.Base.{
  ℕ, ◌+◌, ◌-◌, ◌*◌, ◌/◌, ◌%◌, ◌<◌, ◌&&◌, List, [], ◌∷◌, Option, none, some, ltb, leb, if◌then◌else◌,
  ◌>>=◌, take, take-all, map, All, length, ◌≡◌, refl, ap, ◌∙◌, arith,
}
use oscshell.Base.Text.{Bytes}
use oscshell.Des.Bits.{AreBytes}

-- The digit of a number below 16.
unfoldable pub digit_char : ℕ → ℕ
digit_char n = if ltb 9 n then b'A' + n - 10 else b'0' + n

unfoldable pub nibbles : Bytes → List ℕ
nibbles [] = []
nibbles (c ∷ s) = c / 16 % 16 ∷ c % 16 ∷ nibbles s

-- `bcdtoasc` with `len` digits.
unfoldable pub bcdtoasc : ℕ → Bytes → Bytes
bcdtoasc len bcd = take len (map digit_char (nibbles (take ((len + len % 2) / 2) bcd)))

-- The value of a digit; `none` is the return value -1.
unfoldable pub digit_value : ℕ → Option ℕ
digit_value c =
    if leb b'0' c && leb c b'9'
    then some (c - b'0')
    else if leb b'a' c && leb c b'f'
    then some (c - b'a' + 10)
    else if leb b'A' c && leb c b'F'
    then some (c - b'A' + 10)
    else none

-- `asctobcd`; `none` is the return value -1. A text of odd length, for which the source writes
-- behind its buffer, is not passed to it, and counts as -1 here.
unfoldable pub asctobcd : Bytes → Option Bytes
asctobcd [] = some []
asctobcd (a ∷ []) = none
asctobcd (a ∷ (b ∷ s)) = do
  high ← digit_value a
  low ← digit_value b
  rest ← asctobcd s
  some ((high * 16 + low) ∷ rest)

-- `IntToHex` with upper case.
unfoldable pub int_to_hex : ℕ → ℕ
int_to_hex len = if ltb len 10 then 48 + len else if ltb len 16 then 55 + len else 0

unfoldable pub hex_to_int : ℕ → ℕ
hex_to_int ch =
    if leb 48 ch && leb ch 57
    then ch - 48
    else if leb 65 ch && leb ch 70
    then ch - 55
    else if leb 100 ch && leb ch 105
    then ch - 90
    else 0

pub hex_to_int-int_to_hex : (n : ℕ) → n < 16 → hex_to_int (int_to_hex n) ≡ n
unfolding hex_to_int int_to_hex
hex_to_int-int_to_hex n h = ground arith

pub int_to_hex-text : (n : ℕ) → n < 16 → (0 < int_to_hex n) × (int_to_hex n < 256)
unfolding int_to_hex
int_to_hex-text n h = ground arith

digit_value-digit_char : (n : ℕ) → n < 16 → digit_value (digit_char n) ≡ some n
unfolding digit_value digit_char
digit_value-digit_char n h = ground arith

-- The digits of all bytes.
unfoldable pub hex : Bytes → Bytes
hex s = map digit_char (nibbles s)

pub length-hex : (s : Bytes) → length (hex s) ≡ 2 * length s
unfolding hex nibbles
length-hex [] = refl
length-hex (c ∷ s) = omega (arith, length-hex s)

pub bcdtoasc-hex : (s : Bytes) → bcdtoasc (length s * 2) s ≡ hex s
unfolding bcdtoasc hex
bcdtoasc-hex s =
    let half : (length s * 2 + length s * 2 % 2) / 2 ≡ length s = omega arith in
    rw half (
      ap (λ (x : Bytes). take (length s * 2) (map digit_char (nibbles x)))
        (take-all (length s) s (omega arith))
      ∙ take-all (length s * 2) (hex s) (omega (arith, length-hex s)))

pub asctobcd-hex : (s : Bytes) → AreBytes s → asctobcd (hex s) ≡ some s
unfolding asctobcd hex nibbles
asctobcd-hex [] h = refl
asctobcd-hex (c ∷ s) h =
    let whole : c / 16 % 16 * 16 + c % 16 ≡ c = omega (arith, h.0) in
    rw (digit_value-digit_char (c / 16 % 16) (omega arith)) (
      rw (digit_value-digit_char (c % 16) (omega arith))
        (rw (asctobcd-hex s h.1) (ap (λ (x : ℕ). some (x ∷ s)) whole)))

-- Bytes other than 0, as in a C string.
abbrev pub IsText : Bytes → Type 0
IsText = All (λ c. (0 < c) × (c < 256))

pub IsText-hex : (s : Bytes) → IsText (hex s)
unfolding hex nibbles digit_char
IsText-hex [] = tt
IsText-hex (c ∷ s) = (ground arith, (ground arith, IsText-hex s))

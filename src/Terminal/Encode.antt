-- ===== src/Terminal/Encode.antt =====
-- `EncodeData`: two digits for each byte of ASCII, and what happens to the other bytes.
use oscshell.Base.{
  ℕ, ◌+◌, ◌-◌, ◌*◌, ◌/◌, ◌%◌, ◌<◌, ◌≤◌, [], ◌∷◌, ◌++◌, ltb, if◌then◌else◌, Option, none, some,
  ◌>>=◌, length, take, ◌≡◌, refl, sym, ap, ◌∙◌, arith, All, flat_map, append_assoc, append-nil,
  length-append, take-length-append,
}
use oscshell.Base.Text.{Bytes}
use oscshell.Terminal.{hex_digit, hex_of, encode_loop, encode_data}

abbrev pub IsAscii : Bytes → Type 0
IsAscii = All (λ c. c < 128)

-- The value of a digit that `%02X` writes.
abbrev pub digit_value : ℕ → ℕ
digit_value d = if ltb d b'A' then d - b'0' else d - b'A' + 10

-- Reads two digits for each byte.
abbrev pub decode : Bytes → Option Bytes
decode [] = some []
decode (a ∷ []) = none
decode (a ∷ (b ∷ s)) = do t ← decode s; some ((digit_value a * 16 + digit_value b) ∷ t)

hex_digit_value : (d : ℕ) → d < 16 → digit_value (hex_digit d) ≡ d
unfolding hex_digit
hex_digit_value d h = ground arith

hex_of-ascii : (c : ℕ) → c < 128 → hex_of c ≡ hex_digit (c / 16) ∷ (hex_digit (c % 16) ∷ [])
unfolding hex_of
hex_of-ascii c h = ground arith

take_twice : (n : ℕ) (xs : Bytes) → length xs ≡ 2 * n → take (2 * n) xs ≡ xs
take_twice n xs h =
    ap (λ (k : ℕ). take k xs) (sym h)
    ∙ ap (take (length xs)) (sym (append-nil xs))
    ∙ take-length-append xs []

encode_loop-ascii :
    (s out : Bytes) (i : ℕ)
    → IsAscii s
    → length out ≡ 2 * i
    → encode_loop i out s ≡ out ++ flat_map hex_of s
unfolding encode_loop
encode_loop-ascii [] out i h e = sym (append-nil out)
encode_loop-ascii (c ∷ s) out i h e = rw (take_twice i out e) (
    encode_loop-ascii s (out ++ hex_of c) (i + 1) h.1
      (omega (arith, length-append out (hex_of c), ap length (hex_of-ascii c h.0)))
    ∙ append_assoc out (hex_of c) (flat_map hex_of s))

module _ (c : ℕ) (h : c < 128) where
  decode-hex_of : (s t : Bytes) → decode s ≡ some t → decode (hex_of c ++ s) ≡ some (c ∷ t)
  decode-hex_of s t e = rw (hex_of-ascii c h) (
      rw e (
        rw (hex_digit_value (c / 16) (omega arith), hex_digit_value (c % 16) (omega arith))
          (ap (λ (x : ℕ). some (x ∷ t)) (omega arith))))

decode-flat_map : (s : Bytes) → IsAscii s → decode (flat_map hex_of s) ≡ some s
decode-flat_map [] h = refl
decode-flat_map (c ∷ s) h = decode-hex_of c h.0 (flat_map hex_of s) s (decode-flat_map s h.1)

length-flat_map : (s : Bytes) → IsAscii s → length (flat_map hex_of s) ≡ 2 * length s
length-flat_map [] h = omega arith
length-flat_map (c ∷ s) h = omega (
  arith,
  length-append (hex_of c) (flat_map hex_of s),
  ap length (hex_of-ascii c h.0),
  length-flat_map s h.1,
)

-- The digits of an ASCII text can be read back: two digits give each byte.
pub decode-encode_data :
    (dest : Bytes)
    → IsAscii dest
    → (decode (encode_data dest) ≡ some dest) × (length (encode_data dest) ≡ 2 * length dest)
unfolding encode_data
decode-encode_data dest h =
    let e = encode_loop-ascii dest [] 0 h refl in
    (rw e (decode-flat_map dest h), rw e (length-flat_map dest h))

-- A byte above 127 is written as eight digits, of which the next byte overwrites six: in front of
-- another byte, all such bytes are written alike.
pub encode_data_collides :
    (a b c : ℕ) (s : Bytes)
    → 128 ≤ a
    → 128 ≤ b
    → encode_data (a ∷ (c ∷ s)) ≡ encode_data (b ∷ (c ∷ s))
unfolding encode_data encode_loop hex_of
encode_data_collides a b c s ha hb = ground arith

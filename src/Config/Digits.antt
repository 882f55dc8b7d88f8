-- ===== src/Config/Digits.antt =====
-- What `encrypt` writes has no line end and no colon.
use oscshell.Base.{
  ℕ, zero, suc, ◌+◌, ◌-◌, ◌*◌, ◌/◌, ◌%◌, ◌≤◌, ◌<◌, ◌≢◌, ◌&&◌, ◌||◌, [], ◌∷◌, map, All, All-append,
  if◌then◌else◌, take, drop, length, ltb, ◌==◌, Bool-cases, inl, inr, arith,
}
use oscshell.Base.Text.{Bytes, c_string}
use oscshell.Des.Hex.{digit_char, nibbles, bcdtoasc}
use oscshell.Des.Single.{single_des}
use oscshell.Des.Password.{des_key, random_des, encrypt_loop, encrypt}

-- A byte from 0 on that is no colon.
abbrev IsDigitByte : ℕ → Type 0
IsDigitByte c = (48 ≤ c) × (c ≢ b':')

abbrev pub AreDigitBytes : Bytes → Type 0
AreDigitBytes = All IsDigitByte

AreDigitBytes-take : (n : ℕ) (s : Bytes) → AreDigitBytes s → AreDigitBytes (take n s)
AreDigitBytes-take zero s h = tt
AreDigitBytes-take (suc n) [] h = tt
AreDigitBytes-take (suc n) (c ∷ s) h = (h.0, AreDigitBytes-take n s h.1)

AreDigitBytes-drop : (n : ℕ) (s : Bytes) → AreDigitBytes s → AreDigitBytes (drop n s)
AreDigitBytes-drop zero s h = h
AreDigitBytes-drop (suc n) [] h = tt
AreDigitBytes-drop (suc n) (c ∷ s) h = AreDigitBytes-drop n s h.1

AreDigitBytes-c_string : (s : Bytes) → AreDigitBytes s → AreDigitBytes (c_string s)
unfolding c_string
AreDigitBytes-c_string [] h = tt
AreDigitBytes-c_string (c ∷ s) h = elim (Bool-cases (c == 0)) [
  | inl e ↦ rw e tt
  | inr e ↦ rw e (h.0, AreDigitBytes-c_string s h.1)
]

AreDigitBytes-digits : (s : Bytes) → AreDigitBytes (map digit_char (nibbles s))
unfolding nibbles digit_char
AreDigitBytes-digits [] = tt
AreDigitBytes-digits (c ∷ s) =
    (small (c / 16 % 16) (omega arith), (small (c % 16) (omega arith), AreDigitBytes-digits s))
  where
    small : (n : ℕ) → n < 16 → IsDigitByte (if ltb 9 n then b'A' + n - 10 else b'0' + n)
    small n h = ground arith

AreDigitBytes-single_des : (key text : Bytes) → AreDigitBytes (single_des key text)
unfolding single_des bcdtoasc
AreDigitBytes-single_des key text =
    elim (Bool-cases
      ((length key == 8 || length key == 16) && (length text == 8 || length text == 16))) [
        | inl e ↦ rw e (AreDigitBytes-take (length text * 2) _ (AreDigitBytes-digits _))
        | inr e ↦ rw e tt
      ]

AreDigitBytes-random_des : (key random text : Bytes) → AreDigitBytes (random_des key random text)
unfolding random_des
AreDigitBytes-random_des key random text = elim (Bool-cases (length text == 0)) [
  | inl e ↦ rw e tt
  | inr e ↦ rw e (
      All-append IsDigitByte (single_des key _) (drop 4 (single_des _ _))
        (AreDigitBytes-single_des key _)
        (AreDigitBytes-drop 4 (single_des _ _) (AreDigitBytes-single_des _ _)))
]

AreDigitBytes-encrypt_loop :
    (random : ℕ → Bytes) (i num : ℕ) (text : Bytes) → AreDigitBytes (encrypt_loop random i num text)
unfolding encrypt_loop
AreDigitBytes-encrypt_loop random i zero text = elim (Bool-cases (ltb 0 (length text))) [
  | inl e ↦
      rw e (AreDigitBytes-c_string _ (AreDigitBytes-random_des des_key (random i) (c_string text)))
  | inr e ↦ rw e tt
]
AreDigitBytes-encrypt_loop random i (suc num) text =
    All-append IsDigitByte (c_string (random_des des_key (random i) (c_string (take 16 text))))
      (encrypt_loop random (suc i) num (drop 16 text))
      (AreDigitBytes-c_string _
        (AreDigitBytes-random_des des_key (random i) (c_string (take 16 text))))
      (AreDigitBytes-encrypt_loop random (suc i) num (drop 16 text))

-- The text that `encrypt` writes.
pub AreDigitBytes-encrypt :
    (random : ℕ → Bytes) (text : Bytes) → AreDigitBytes (encrypt random text)
unfolding encrypt
AreDigitBytes-encrypt random text = elim (Bool-cases (ltb (length text) 16)) [
  | inl e ↦ rw e (AreDigitBytes-random_des des_key (random 0) text)
  | inr e ↦ rw e (AreDigitBytes-encrypt_loop random 0 (length text / 16) text)
]

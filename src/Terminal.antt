-- ===== src/Terminal.antt =====
-- The text of a command's output on its way into the audit log: `EncodeData`, `ClearVT100Data` and
-- `ClearData` of DBRecord/DBoperate.c. `char` is signed. A pointer is the suffix that it points at,
-- and at the empty suffix it reads the final 0.
pub mod Steps
pub mod Clear
pub mod Overrun
pub mod Encode
mod Tests
use oscshell.Base.{
  ℕ, zero, suc, ◌+◌, ◌-◌, ◌*◌, ◌/◌, ◌%◌, Bool, true, false, ◌||◌, [], ◌∷◌, ◌++◌, ltb, ◌==◌,
  if◌then◌else◌, length, take,
}
use oscshell.Base.Text.{Bytes, codes}

-- A walk over a text ends, or steps over the final 0, or has no rounds left.
pub data Walk {ℓ} (A : Type ℓ) : Type ℓ where
  done : A → Walk A
  past_end : Walk A
  rounds_out : Walk A

infixl 5 ◌>>=◌
abbrev pub ◌>>=◌ {ℓ κ} : {A : Type ℓ} {B : Type κ} → Walk A → (A → Walk B) → Walk B
done a >>= f = f a
past_end >>= f = past_end
rounds_out >>= f = rounds_out

abbrev pub escape : ℕ
escape = 27

-- The letters that end a control sequence.
unfoldable pub is_final : ℕ → Bool
is_final c =
    c == b'c'
    || c == b'n'
    || c == b'R'
    || c == b'h'
    || c == b'l'
    || c == b'H'
    || c == b'A'
    || c == b'B'
    || c == b'C'
    || c == b'D'
    || c == b'f'
    || c == b's'
    || c == b'u'
    || c == b'r'
    || c == b'K'
    || c == b'J'
    || c == b'i'
    || c == b'p'
    || c == b'm'

-- Behind the escape and `[`.
control_sequence : Bytes → Walk Bytes
control_sequence [] = past_end
control_sequence (c ∷ s) = if is_final c then done s else control_sequence s

-- Behind the escape.
pub after_escape : Bytes → Walk Bytes
unfolding control_sequence
after_escape [] = past_end
after_escape (c ∷ s) = if c == b'[' then control_sequence s else done s

pub clear_vt100_data : Bytes → Walk Bytes
unfolding after_escape
clear_vt100_data [] = done []
clear_vt100_data (c ∷ s) = if c == escape then after_escape s else done (c ∷ s)

abbrev starts_escape : Bytes → Bool
starts_escape [] = false
starts_escape (c ∷ s) = c == escape

-- while (*dest == '\033')
pub skip_escapes : ℕ → Bytes → Walk Bytes
skip_escapes zero dest = rounds_out
skip_escapes (suc rounds) dest = elim (starts_escape dest) [
  | true ↦ clear_vt100_data dest >>= skip_escapes rounds
  | false ↦ done dest
]

-- `src` holds `out`. One byte is copied; if it is the final 0, the walk goes on behind it.
pub copy_byte : (Bytes → Bytes → Walk Bytes) → Bytes → Bytes → Walk Bytes
copy_byte continue [] out = past_end
copy_byte continue (d ∷ t) out = continue t (out ++ d ∷ [])

pub clear_loop : ℕ → Bytes → Bytes → Walk Bytes
unfolding skip_escapes copy_byte
clear_loop zero dest out = rounds_out
clear_loop (suc rounds) [] out = done out
clear_loop (suc rounds) (c ∷ s) out = elim (c == b'\r' || c == b'\n') [
  | true ↦ clear_loop rounds s out
  | false ↦ skip_escapes (suc (length (c ∷ s))) (c ∷ s) >>= λ p. copy_byte (clear_loop rounds) p out
]

-- `strlen + 1` rounds are enough.
pub clear_data : Bytes → Walk Bytes
unfolding clear_loop
clear_data dest = clear_loop (suc (length dest)) dest []

pub hex_digit : ℕ → ℕ
hex_digit d = if ltb d 10 then b'0' + d else b'A' + d - 10

-- sprintf ("%02X") of a byte as a signed `char`, widened to an `int` of 32 bits.
pub hex_of : ℕ → Bytes
unfolding hex_digit
hex_of c =
    (if ltb c 128 then [] else codes "FFFFFF") ++ hex_digit (c / 16) ∷ hex_digit (c % 16) ∷ []

-- Each `sprintf` writes behind the first `2 * i` bytes and ends the text there.
encode_loop : ℕ → Bytes → Bytes → Bytes
encode_loop i out [] = out
encode_loop i out (c ∷ s) = encode_loop (i + 1) (take (2 * i) out ++ hex_of c) s

pub encode_data : Bytes → Bytes
unfolding encode_loop
encode_data dest = encode_loop 0 [] dest

-- ===== src/Terminal/Steps.antt =====
-- `ClearData`: the equations of one step of its loops.
use oscshell.Base.{ℕ, suc, Bool, true, false, ◌||◌, ◌∷◌, ◌==◌, length, ◌≡◌}
use oscshell.Base.Text.{Bytes}
use oscshell.Terminal.{
  done, ◌>>=◌, escape, after_escape, clear_vt100_data, skip_escapes, copy_byte, clear_loop,
}

pub skip_escapes-escape :
    (rounds c : ℕ) (s : Bytes)
    → (c == escape) ≡ true
    → skip_escapes (suc rounds) (c ∷ s) ≡ (after_escape s >>= skip_escapes rounds)
unfolding skip_escapes clear_vt100_data
skip_escapes-escape rounds c s e = rw (e, skip_escapes) (rw (e, clear_vt100_data))

pub skip_escapes-other :
    (rounds c : ℕ) (s : Bytes)
    → (c == escape) ≡ false
    → skip_escapes (suc rounds) (c ∷ s) ≡ done (c ∷ s)
unfolding skip_escapes
skip_escapes-other rounds c s e = rw (e, skip_escapes)

abbrev pub is_line_end : ℕ → Bool
is_line_end c = c == b'\r' || c == b'\n'

pub clear_loop-line_end :
    (rounds c : ℕ) (s out : Bytes)
    → is_line_end c ≡ true
    → clear_loop (suc rounds) (c ∷ s) out ≡ clear_loop rounds s out
unfolding clear_loop
clear_loop-line_end rounds c s out e = rw (e, clear_loop)

pub clear_loop-byte :
    (rounds c : ℕ) (s out : Bytes)
    → is_line_end c ≡ false
    → clear_loop (suc rounds) (c ∷ s) out
      ≡ (skip_escapes (suc (suc (length s))) (c ∷ s) >>= λ p. copy_byte (clear_loop rounds) p out)
unfolding clear_loop
clear_loop-byte rounds c s out e = rw (e, clear_loop)

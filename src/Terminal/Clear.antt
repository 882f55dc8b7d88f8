-- ===== src/Terminal/Clear.antt =====
-- `ClearData`: it comes to an end, and leaves no escape.
use oscshell.Base.{
  ℕ, zero, suc, ◌<◌, ◌≤◌, false, [], ◌∷◌, ◌++◌, ◌==◌, length, ◌≡◌, ◌≢◌, refl, sym, ◌⊎◌, arith,
  All-append, Bool-cases, inl, inr,
}
use mathlib.Core.Path.{subst}
use oscshell.Base.Text.{Bytes, Lacks}
use oscshell.Terminal.{
  Walk, done, past_end, rounds_out, ◌>>=◌, escape, is_final, control_sequence, after_escape,
  starts_escape, skip_escapes, copy_byte, clear_loop, clear_data,
}
use oscshell.Terminal.Steps.{
  is_line_end, skip_escapes-escape, skip_escapes-other, clear_loop-line_end, clear_loop-byte,
}

-- A walk that ends not later than its text.
abbrev Within : ℕ → Walk Bytes → Type 0
Within n (done p) = length p ≤ n
Within n past_end = Unit
Within n rounds_out = ⊥

Within-suc : (n : ℕ) (w : Walk Bytes) → Within n w → Within (suc n) w
Within-suc n (done p) h = omega arith
Within-suc n past_end h = tt
Within-suc n rounds_out h = h

Within-control_sequence : (s : Bytes) → Within (length s) (control_sequence s)
unfolding control_sequence
Within-control_sequence [] = tt
Within-control_sequence (c ∷ s) = elim (Bool-cases (is_final c)) [
  | inl e ↦ rw e (omega arith)
  | inr e ↦ rw e (Within-suc _ _ (Within-control_sequence s))
]

Within-after_escape : (s : Bytes) → Within (length s) (after_escape s)
unfolding after_escape
Within-after_escape [] = tt
Within-after_escape (c ∷ s) = elim (Bool-cases (c == b'[')) [
  | inl e ↦ rw e (Within-suc _ _ (Within-control_sequence s))
  | inr e ↦ rw e (omega arith)
]

-- The walk stops at a byte that is no escape, or over the end.
abbrev Skips : ℕ → Walk Bytes → Type 0
Skips n (done p) = (starts_escape p ≡ false) × (length p ≤ n)
Skips n past_end = Unit
Skips n rounds_out = ⊥

Skips-suc : (n m : ℕ) (w : Walk Bytes) → n ≤ m → Skips n w → Skips m w
Skips-suc n m (done p) le h = (h.0, omega arith)
Skips-suc n m past_end le h = tt
Skips-suc n m rounds_out le h = h

Skips-bind :
    (n : ℕ) (w : Walk Bytes) (f : Bytes → Walk Bytes)
    → Within n w
    → ((p : Bytes) → length p ≤ n → Skips (length p) (f p))
    → Skips n (w >>= f)
Skips-bind n (done p) f h k = Skips-suc (length p) n (f p) h (k p h)
Skips-bind n past_end f h k = tt
Skips-bind n rounds_out f h k = h

Skips-skip_escapes :
    (rounds : ℕ) (s : Bytes) → length s < rounds → Skips (length s) (skip_escapes rounds s)
Skips-skip_escapes zero s lt = absurd (omega arith)
Skips-skip_escapes (suc rounds) [] lt = unfold skip_escapes in (refl, omega arith)
Skips-skip_escapes (suc rounds) (c ∷ s) lt = elim (Bool-cases (c == escape)) [
  | inl e ↦ subst (Skips (suc (length s))) (sym (skip_escapes-escape rounds c s e)) (
      Skips-suc (length s) (suc (length s)) _ (omega arith) (
        Skips-bind (length s) (after_escape s) (skip_escapes rounds) (Within-after_escape s)
          (λ p le. Skips-skip_escapes rounds p (omega arith))))
  | inr e ↦ subst (Skips (suc (length s))) (sym (skip_escapes-other rounds c s e)) (e, omega arith)
]

-- What the walk leaves in the output: no escape, if there was none.
abbrev Clean : Bytes → Walk Bytes → Type 0
Clean out (done r) = Lacks escape out → Lacks escape r
Clean out past_end = Unit
Clean out rounds_out = ⊥

Clean-copy_byte :
    (rounds n : ℕ) (w : Walk Bytes) (out : Bytes)
    → Skips n w
    → n ≤ rounds
    → ((t o : Bytes) → length t < rounds → Clean o (clear_loop rounds t o))
    → Clean out (w >>= λ p. copy_byte (clear_loop rounds) p out)
unfolding copy_byte
Clean-copy_byte rounds n (done []) out h le k = tt
Clean-copy_byte rounds n (done (d ∷ t)) out h le k =
    let later = k t (out ++ d ∷ []) (omega arith) in go (clear_loop rounds t (out ++ d ∷ [])) later
  where
    go : (w : Walk Bytes) → Clean (out ++ d ∷ []) w → Clean out w
    go (done r) c = λ lacks. c (All-append (λ c. c ≢ escape) out (d ∷ []) lacks (ground arith, tt))
    go past_end c = tt
    go rounds_out c = c
Clean-copy_byte rounds n past_end out h le k = tt
Clean-copy_byte rounds n rounds_out out h le k = h

Clean-clear_loop :
    (rounds : ℕ) (s out : Bytes) → length s < rounds → Clean out (clear_loop rounds s out)
Clean-clear_loop zero s out lt = absurd (omega arith)
Clean-clear_loop (suc rounds) [] out lt = unfold clear_loop in λ h. h
Clean-clear_loop (suc rounds) (c ∷ s) out lt = elim (Bool-cases (is_line_end c)) [
  | inl e ↦
      subst (Clean out) (sym (clear_loop-line_end rounds c s out e))
        (Clean-clear_loop rounds s out (omega arith))
  | inr e ↦ subst (Clean out) (sym (clear_loop-byte rounds c s out e)) (
      Clean-copy_byte rounds (suc (length s)) _ out
        (Skips-skip_escapes (suc (suc (length s))) (c ∷ s) (omega arith)) (omega arith)
        (λ t o l. Clean-clear_loop rounds t o l))
]

Clean-cases :
    (w : Walk Bytes) → Clean [] w → (w ≡ past_end) ⊎ ((r : Bytes) × (w ≡ done r) × Lacks escape r)
Clean-cases (done r) h = inr (r, refl, h tt)
Clean-cases past_end h = inl refl
Clean-cases rounds_out h = absurd h

-- `ClearData` always comes to an end: it returns a text with no escape byte, or walks over the end
-- of its input.
pub clear_data_ends :
    (dest : Bytes)
    → (clear_data dest ≡ past_end) ⊎ ((r : Bytes) × (clear_data dest ≡ done r) × Lacks escape r)
unfolding clear_data
clear_data_ends dest = Clean-cases _ (Clean-clear_loop (suc (length dest)) dest [] (omega arith))

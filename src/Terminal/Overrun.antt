-- ===== src/Terminal/Overrun.antt =====
-- `ClearData`: texts with no escape, and texts that end in a control sequence.
use oscshell.Base.{
  ℕ, suc, ◌+◌, true, false, ◌||◌, [], ◌∷◌, ◌++◌, ◌==◌, if◌then◌else◌, length, ◌≡◌, ◌≢◌, refl, sym,
  length-append, ap, ◌∙◌, arith, All, Bool-cases, inl, inr, append_assoc, append-nil,
}
use native.Mathlib.Nat.{zero-add, suc-add}
use oscshell.Base.Text.{Bytes, Lacks}
use oscshell.Terminal.{
  done, past_end, escape, is_final, control_sequence, after_escape, skip_escapes, copy_byte,
  clear_loop, clear_data,
}
use oscshell.Terminal.Steps.{
  is_line_end, skip_escapes-escape, skip_escapes-other, clear_loop-line_end, clear_loop-byte,
}

-- The bytes of the text that are no line ends.
abbrev pub without_line_ends : Bytes → Bytes
without_line_ends [] = []
without_line_ends (c ∷ s) =
    if c == b'\r' || c == b'\n' then without_line_ends s else c ∷ without_line_ends s

clear_loop-plain_byte :
    (rounds c : ℕ) (s out : Bytes)
    → c ≢ escape
    → is_line_end c ≡ false
    → clear_loop (suc rounds) (c ∷ s) out ≡ clear_loop rounds s (out ++ c ∷ [])
unfolding copy_byte
clear_loop-plain_byte rounds c s out h e =
    clear_loop-byte rounds c s out e ∙ rw (skip_escapes-other (suc (length s)) c s (ground arith))

-- Over bytes that are no escape the loop copies what is no line end, and goes on behind them.
clear_loop-plain :
    (s rest : Bytes) (rounds : ℕ) (out : Bytes)
    → Lacks escape s
    → clear_loop (length s + rounds) (s ++ rest) out
      ≡ clear_loop rounds rest (out ++ without_line_ends s)
clear_loop-plain [] rest rounds out h = rw (zero-add, append-nil)
clear_loop-plain (c ∷ s) rest rounds out h =
    let more = suc-add (length s) rounds in
    elim (Bool-cases (is_line_end c)) [
      | inl e ↦
          rw (more, e)
            (clear_loop-line_end (length s + rounds) c (s ++ rest) out e
              ∙ clear_loop-plain s rest rounds out h.1)
      | inr e ↦
          rw (more, e)
            (clear_loop-plain_byte (length s + rounds) c (s ++ rest) out h.0 e
              ∙ clear_loop-plain s rest rounds (out ++ c ∷ []) h.1
              ∙ rw append_assoc)
    ]

-- A text with no escape is returned without its line ends.
pub clear_data_plain :
    (dest : Bytes) → Lacks escape dest → clear_data dest ≡ done (without_line_ends dest)
unfolding clear_data
clear_data_plain dest h =
    let e : suc (length dest) ≡ length dest + 1 = omega arith in
    let all : dest ≡ dest ++ [] = sym (append-nil dest) in
    ap (λ (n : ℕ). clear_loop n dest []) e
    ∙ ap (λ (x : Bytes). clear_loop (length dest + 1) x []) all
    ∙ clear_loop-plain dest [] 1 [] h
    ∙ unfold clear_loop in refl

-- No byte of a parameter list ends a control sequence.
abbrev pub IsParameters : Bytes → Type 0
IsParameters = All (λ c. is_final c ≡ false)

control_sequence-parameters :
    (params rest : Bytes) (c : ℕ)
    → IsParameters params
    → is_final c ≡ true
    → control_sequence (params ++ (c ∷ rest)) ≡ done rest
unfolding control_sequence
control_sequence-parameters [] rest c h f = rw f
control_sequence-parameters (p ∷ params) rest c h f =
    rw h.0 (control_sequence-parameters params rest c h.1 f)

after_escape-parameters :
    (params : Bytes) (c : ℕ)
    → IsParameters params
    → is_final c ≡ true
    → after_escape (b'[' ∷ (params ++ (c ∷ []))) ≡ done []
unfolding after_escape
after_escape-parameters params c = control_sequence-parameters params [] c

-- A text that ends in a control sequence, with no escape before it, makes `ClearData` step over the
-- final 0 of its input: it copies the 0, and reads on behind it.
pub clear_data_overrun :
    (s params : Bytes) (c : ℕ)
    → Lacks escape s
    → IsParameters params
    → is_final c ≡ true
    → clear_data (s ++ (escape ∷ (b'[' ∷ (params ++ (c ∷ []))))) ≡ past_end
unfolding clear_data skip_escapes copy_byte
clear_data_overrun s params c h p f =
    let t = params ++ (c ∷ []) in
    let tail = escape ∷ (b'[' ∷ t) in
    let e : suc (length (s ++ tail)) ≡ length s + suc (length tail) =
      omega (arith, length-append s tail) in
    ap (λ (n : ℕ). clear_loop n (s ++ tail) []) e
    ∙ clear_loop-plain s tail (suc (length tail)) [] h
    ∙ clear_loop-byte (length tail) escape (b'[' ∷ t) (without_line_ends s) refl
    ∙ rw (skip_escapes-escape (suc (suc (length t))) escape (b'[' ∷ t) refl)
        (rw (after_escape-parameters params c p f))

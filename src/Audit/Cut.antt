-- ===== src/Audit/Cut.antt =====
-- A question mark at the start of a word cuts the rest of the command off.
use native.Mathlib.Nat.{mul-lt-mul_of_pos_left, suc-mul}
use oscshell.Base.{
  ℕ, zero, suc, ◌+◌, ◌*◌, ◌<◌, ◌≤◌, true, false, [], ◌∷◌, ◌++◌, some, ltb, lt→ltb, ◌==◌, ◌≡◌, ◌≢◌,
  inl, inr, refl, sym, ap, ◌∙◌, arith, All-append, Bool-cases, length, length-append,
  take-length-append, map, get_elem?,
}
use oscshell.Base.Text.{Bytes, Lacks}
use oscshell.Audit.{is_mark, mark_word, mark_loop, cleaned}
use oscshell.Audit.Marks.{quoted, length-quoted, cleaned-mark_loop}

is_mark-Lacks : (n : ℕ) (s : Bytes) → Lacks 63 s → is_mark (get_elem? s n) ≡ false
unfolding is_mark
is_mark-Lacks n [] h = refl
is_mark-Lacks zero (c ∷ s) h = ground (arith, h.0)
is_mark-Lacks (suc n) (c ∷ s) h = is_mark-Lacks n s h.1

is_mark-before :
    (n : ℕ) (before after : Bytes)
    → n < length before
    → Lacks 63 before
    → is_mark (get_elem? (before ++ after) n) ≡ false
unfolding is_mark
is_mark-before n [] after lt h = absurd (omega arith)
is_mark-before zero (c ∷ s) after lt h = ground (arith, h.0)
is_mark-before (suc n) (c ∷ s) after lt h = is_mark-before n s after (omega arith) h.1

is_mark-at :
    (n : ℕ) (before after : Bytes)
    → length before ≡ n
    → is_mark (get_elem? (before ++ (63 ∷ after)) n) ≡ true
unfolding is_mark
is_mark-at zero [] after e = refl
is_mark-at (suc n) [] after e = absurd (omega (arith, e))
is_mark-at zero (c ∷ s) after e = absurd (omega (arith, e))
is_mark-at (suc n) (c ∷ s) after e = is_mark-at n s after (omega (arith, e))

mark_loop_same :
    (rounds word i : ℕ) (cmd : Bytes) → Lacks 63 cmd → mark_loop rounds word i cmd ≡ cmd
unfolding mark_loop mark_word
mark_loop_same zero word i cmd h = refl
mark_loop_same (suc rounds) word i cmd h = elim (Bool-cases (ltb i (length cmd))) [
  | inl e ↦ rw e (rw (is_mark-Lacks (word * i) cmd h) (mark_loop_same rounds word (i + 1) cmd h))
  | inr e ↦ rw e
]

at_least : (word i : ℕ) → 0 < word → i ≤ word * i
at_least zero i h = absurd (omega arith)
at_least (suc w) i h = rw (suc-mul w i) (omega arith)

mark_loop_cut :
    (rounds word i j : ℕ) (before after : Bytes)
    → 0 < word
    → length before ≡ word * i
    → j ≤ i
    → i < j + rounds
    → Lacks 63 before
    → mark_loop rounds word j (before ++ (63 ∷ after)) ≡ before ++ 32 ∷ []
unfolding mark_loop mark_word
mark_loop_cut zero word i j before after w e le lt h = absurd (omega arith)
mark_loop_cut (suc rounds) word i j before after w e le lt h =
    let inside : ltb j (length (before ++ (63 ∷ after))) ≡ true =
      lt→ltb _ _ (omega (arith, length-append before (63 ∷ after), at_least word i w)) in
    elim (Bool-cases (j == i)) [
      | inl same ↦
          let now : word * j ≡ length before = ap (◌*◌ word) (ground arith) ∙ sym e in
          rw inside (
            rw now (
              rw (is_mark-at (length before) before after refl) (
                rw take-length-append (
                  mark_loop_same rounds word (j + 1) (before ++ 32 ∷ [])
                    (All-append (λ c. c ≢ 63) before (32 ∷ []) h (ground arith, tt))))))
      | inr other ↦
          let less : j < i = ground arith in
          let early : word * j < length before =
            omega (arith, e, mul-lt-mul_of_pos_left {m = j} {n = i} {k = word} less w) in
          rw inside (
            rw (is_mark-before (word * j) before (63 ∷ after) early h)
              (mark_loop_cut rounds word i (j + 1) before after w e (omega arith) (omega arith) h))
    ]

map-append : (s t : Bytes) → map quoted (s ++ t) ≡ map quoted s ++ map quoted t
map-append [] t = refl
map-append (c ∷ s) t = ap (◌∷◌ (quoted c)) (map-append s t)

Lacks-marks : (s : Bytes) → Lacks 63 s → Lacks 63 (map quoted s)
Lacks-marks [] h = tt
Lacks-marks (c ∷ s) h = (λ e. h.0 (ground arith), Lacks-marks s h.1)

-- A line whose first question mark stands behind a whole number of words, and which fits the buffer,
-- loses all that is behind the mark, before the policies see it: what is left is the text in front,
-- with double quotes for quotes, and a space.
pub cleaned_cut :
    (word i : ℕ) (before after : Bytes)
    → 0 < word
    → length before ≡ word * i
    → Lacks 63 before
    → length (before ++ (63 ∷ after)) < 10240 * word
    → cleaned word (before ++ (63 ∷ after)) ≡ some (map quoted before ++ 32 ∷ [])
cleaned_cut word i before after w e h fits =
    let line = before ++ (63 ∷ after) in
    let split : map quoted line ≡ map quoted before ++ (63 ∷ map quoted after) =
      map-append before (63 ∷ after) in
    let enough : i < 0 + length line =
      omega (arith, length-append before (63 ∷ after), at_least word i w) in
    cleaned-mark_loop word line fits
    ∙ ap (λ (x : Bytes). some (mark_loop (length line) word 0 x)) split
    ∙ ap (λ (x : Bytes). some x)
        (mark_loop_cut (length line) word i 0 (map quoted before) (map quoted after) w
          (length-quoted before ∙ e) (omega arith) enough (Lacks-marks before h))

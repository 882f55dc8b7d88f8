-- ===== src/Audit/Marks.antt =====
-- The loop that looks for question marks, and where it cuts a command off.
use oscshell.Base.{
  ℕ, zero, suc, ◌+◌, ◌*◌, ◌<◌, ◌≤◌, [], ◌∷◌, some, ltb, if◌then◌else◌, ◌==◌, ◌≡◌, ◌≢◌, inl, inr,
  refl, ap, ◌∙◌, arith, All-append, Bool-cases, Option-cases, length, length-append, take, map,
  flat_map, get_elem?,
}
use oscshell.Base.Text.{Bytes, Lacks, strcpy_fits}
use oscshell.Replace.OneByte.{replaced, strings_replace_free_byte}
use oscshell.Audit.{is_mark, mark_word, mark_loop, cleaned}

-- A quote becomes a double quote.
abbrev pub quoted : ℕ → ℕ
quoted c = if c == b'\'' then b'"' else c

flat_map-quoted : (s : Bytes) → flat_map (replaced b'\'' (b'"' ∷ [])) s ≡ map quoted s
flat_map-quoted [] = refl
flat_map-quoted (c ∷ s) = elim (Bool-cases (c == b'\'')) [
  | inl e ↦ ground (arith, flat_map-quoted s)
  | inr e ↦ ground (arith, flat_map-quoted s)
]

pub length-quoted : (s : Bytes) → length (map quoted s) ≡ length s
length-quoted [] = refl
length-quoted (c ∷ s) = ap suc (length-quoted s)

pub Lacks-quoted : (s : Bytes) → Lacks b'\'' (map quoted s)
Lacks-quoted [] = tt
Lacks-quoted (c ∷ s) = (λ e. ground arith, Lacks-quoted s)

pub Lacks-take : (q n : ℕ) (s : Bytes) → Lacks q s → Lacks q (take n s)
Lacks-take q zero s h = tt
Lacks-take q (suc n) [] h = tt
Lacks-take q (suc n) (c ∷ s) h = (h.0, Lacks-take q n s h.1)

length-take-some : (n c : ℕ) (s : Bytes) → get_elem? s n ≡ some c → length (take n s) + 1 ≤ length s
length-take-some n c [] h = absurd (cc h)
length-take-some zero c (d ∷ s) h = omega arith
length-take-some (suc n) c (d ∷ s) h = omega (arith, length-take-some n c s h)

pub cleaned-mark_loop :
    (word : ℕ) (line : Bytes)
    → length line < 10240 * word
    → cleaned word line ≡ some (mark_loop (length line) word 0 (map quoted line))
unfolding cleaned
cleaned-mark_loop word line fits =
    let (b, e, written, size) = strings_replace_free_byte line b'\'' (b'"' ∷ []) in
    let same : b.written ≡ map quoted line = written ∙ flat_map-quoted line in
    let long : length b.written ≡ length line = ap length same ∙ length-quoted line in
    rw e (
      rw (strcpy_fits (10240 * word) b.written (omega arith))
        (rw long (ap (λ (x : Bytes). some (mark_loop (length line) word 0 x)) same)))

Lacks-mark_word :
    (q word i : ℕ) (cmd : Bytes) → 32 ≢ q → Lacks q cmd → Lacks q (mark_word word i cmd)
unfolding mark_word
Lacks-mark_word q word i cmd other h = elim (Bool-cases (is_mark (get_elem? cmd (word * i)))) [
  | inl e ↦ rw e (
      All-append (λ c. c ≢ q) (take (word * i) cmd) (32 ∷ []) (Lacks-take q (word * i) cmd h)
        (other, tt))
  | inr e ↦ rw e h
]

pub Lacks-mark_loop :
    (q rounds word i : ℕ) (cmd : Bytes)
    → 32 ≢ q
    → Lacks q cmd
    → Lacks q (mark_loop rounds word i cmd)
unfolding mark_loop
Lacks-mark_loop q zero word i cmd other h = h
Lacks-mark_loop q (suc rounds) word i cmd other h = elim (Bool-cases (ltb i (length cmd))) [
  | inl e ↦
      rw e (Lacks-mark_loop q rounds word (i + 1) _ other (Lacks-mark_word q word i cmd other h))
  | inr e ↦ rw e h
]

length-mark_word : (word i : ℕ) (cmd : Bytes) → length (mark_word word i cmd) ≤ length cmd
unfolding mark_word is_mark
length-mark_word word i cmd = elim (Option-cases (get_elem? cmd (word * i))) [
  | inl e ↦ rw e (omega arith)
  | inr (c, e) ↦ elim (Bool-cases (c == 63)) [
    | inl m ↦ rw e (
        rw m (
          omega (
            arith,
            length-append (take (word * i) cmd) (32 ∷ []),
            length-take-some (word * i) c cmd e,
          )))
    | inr m ↦ rw e (rw m (omega arith))
  ]
]

pub length-mark_loop :
    (rounds word i : ℕ) (cmd : Bytes) → length (mark_loop rounds word i cmd) ≤ length cmd
unfolding mark_loop
length-mark_loop zero word i cmd = omega arith
length-mark_loop (suc rounds) word i cmd = elim (Bool-cases (ltb i (length cmd))) [
  | inl e ↦ rw e (
      omega (
        arith,
        length-mark_loop rounds word (i + 1) (mark_word word i cmd),
        length-mark_word word i cmd,
      ))
  | inr e ↦ rw e (omega arith)
]

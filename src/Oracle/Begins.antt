-- ===== src/Oracle/Begins.antt =====
-- The first byte that the loops of `PrintData` over the groups of a number print.
use oscshell.Base.{
  ℕ, ◌+◌, ◌/◌, ◌%◌, ◌≤◌, ◌<◌, true, ◌∷◌, ◌++◌, flatten, ltb, ◌==◌, Bool-cases, inl, inr, ◌≡◌, refl,
  arith, append_assoc,
}
use oscshell.Base.Int.{pos}
use oscshell.Base.Text.{Bytes}
use oscshell.Base.Print.{print_int, print_padded}
use oscshell.Oracle.Times.{print_num}
use oscshell.Oracle.Cell.{print_point, print_group, groups_loop}
use oscshell.Oracle.Numeral.{decimal-digit, decimal-two, print_padded-two}

-- The text begins with a digit.
pub record Begins (text : Bytes) : Type 0 where
  pub first : ℕ
  pub rest : Bytes
  pub whole : text ≡ first ∷ rest
  pub digit : 48 ≤ first

Begins-print_int : (u : ℕ) (s : Bytes) → u < 100 → Begins (print_int (pos u) ++ s)
unfolding print_int
Begins-print_int u s h = elim (Bool-cases (ltb u 10)) [
  | inl e ↦ record {
    first = 48 + u;
    rest = s;
    whole = rw (decimal-digit 9 u (ground arith)) refl;
    digit = omega arith;
  }
  | inr e ↦ record {
    first = 48 + u / 10;
    rest = (48 + u % 10) ∷ s;
    whole = rw (decimal-two 8 u (ground arith) h) refl;
    digit = omega arith;
  }
]

Begins-print_padded : (u : ℕ) (s : Bytes) → u < 100 → Begins (print_padded 2 u ++ s)
Begins-print_padded u s h = record {
  first = 48 + u / 10;
  rest = (48 + u % 10) ∷ s;
  whole = rw (print_padded-two u h) refl;
  digit = omega arith;
}

pub Begins-groups_loop :
    (group : ℕ → ℕ) (intlen b : ℕ) (bs tail : Bytes)
    → group b < 100
    → Begins (flatten (groups_loop group 1 intlen (b ∷ bs)) ++ tail)
unfolding groups_loop print_point print_group print_num
Begins-groups_loop group intlen b bs tail h =
    let rest = flatten (groups_loop group 2 intlen bs) in
    let f : ltb (group b) 100 ≡ true = ground arith in
    elim (Bool-cases (0 == intlen)) [
      | inl e ↦
          let zero_len : (intlen == 0) ≡ true = ground arith in
          rw e (rw zero_len (record { first = 48; rest = _; whole = refl; digit = omega arith }))
      | inr e ↦ elim (Bool-cases (ltb 1 intlen)) [
        | inl g ↦ rw e (
            rw g (
              rw (append_assoc (print_int (pos (group b))) rest tail)
                (Begins-print_int (group b) (rest ++ tail) h)))
        | inr g ↦ rw e (
            rw g (
              rw f (
                rw (append_assoc (print_padded 2 (group b)) rest tail)
                  (Begins-print_padded (group b) (rest ++ tail) h))))
      ]
    ]

-- ===== src/Oracle/Groups.antt =====
-- The loops of `PrintData` over the groups of a number, as their text is read.
use oscshell.Base.{
  ℕ, suc, ◌+◌, ◌-◌, ◌*◌, ◌≤◌, ◌<◌, true, false, ◌&&◌, List, [], ◌∷◌, ◌++◌, map, length, flatten,
  ltb, ◌==◌, Bool-cases, inl, inr, ◌≡◌, refl, ap, ◌∙◌, arith, append_assoc, flatten-append,
  append-nil,
}
use oscshell.Base.Int.{pos}
use oscshell.Base.Text.{Bytes}
use oscshell.Base.Print.{print_int, print_padded}
use oscshell.Oracle.Times.{print_num}
use oscshell.Oracle.Cell.{print_point, print_group, groups_loop}
use oscshell.Oracle.Numeral.{
  read_fraction, read_whole, base_hundred, AreGroups, read_whole-two, read_fraction-two,
  read_whole-print_int,
}

-- A group behind the first.
print_group-later :
    (i intlen u : ℕ) → intlen < i → 0 < i → u < 100 → print_group i intlen u ≡ print_padded 2 u ∷ []
unfolding print_group print_num
print_group-later i intlen u h p small =
    let e : (i == 1 && ltb i intlen) ≡ false = ground arith in
    let f : ltb u 100 ≡ true = ground arith in rw e (rw f refl)

read_whole-print_group :
    (acc i intlen u : ℕ) (s : Bytes)
    → (i ≡ 1 → acc ≡ 0)
    → u < 100
    → read_whole acc (flatten (print_group i intlen u) ++ s) ≡ read_whole (acc * 100 + u) s
unfolding print_group print_num
read_whole-print_group acc i intlen u s start small = elim (Bool-cases (i == 1 && ltb i intlen)) [
  | inl e ↦
      let none_yet : acc ≡ 0 = start (ground arith) in
      rw e (
        rw none_yet (
          rw (append-nil (print_int (pos u)))
            (read_whole-print_int u s small ∙ ap (λ (n : ℕ). read_whole n s) (omega arith))))
  | inr e ↦
      let f : ltb u 100 ≡ true = ground arith in
      rw e (rw f (rw (append-nil (print_padded 2 u)) (read_whole-two acc u s small)))
]

read_whole-print_point :
    (acc i intlen : ℕ) (ts : List Bytes) (s : Bytes)
    → (i ≡ 1 → acc ≡ 0)
    → i ≡ suc intlen
    → read_whole acc (flatten (print_point i intlen ++ ts) ++ s)
      ≡ read_fraction acc 0 (flatten ts ++ s)
unfolding print_point
read_whole-print_point acc i intlen ts s start at =
    let e : (i - 1 == intlen) ≡ true = ground (arith, at) in
    rw e (elim (Bool-cases (intlen == 0)) [
      | inl f ↦ let none_yet : acc ≡ 0 = start (ground (arith, at)) in rw f (rw none_yet refl)
      | inr f ↦ rw f refl
    ])

module _ (group : ℕ → ℕ) where
  -- Behind the point.
  read_fraction-groups_loop :
      (i intlen acc scale : ℕ) (bs tail : Bytes)
      → intlen + 1 < i
      → AreGroups (map group bs)
      → read_fraction acc scale (flatten (groups_loop group i intlen bs) ++ tail)
        ≡ read_fraction (base_hundred acc (map group bs)) (scale + 2 * length bs) tail
  unfolding groups_loop print_point
  read_fraction-groups_loop i intlen acc scale [] tail h a =
      ap (λ (n : ℕ). read_fraction acc n tail) (omega arith)
  read_fraction-groups_loop i intlen acc scale (b ∷ bs) tail h a =
      let u = group b in
      let rest = flatten (groups_loop group (suc i) intlen bs) in
      let e : (i - 1 == intlen) ≡ false = ground arith in
      rw e (
        rw (print_group-later i intlen u (omega arith) (omega arith) a.0) (
          rw (append_assoc (print_padded 2 u) rest tail) (
            read_fraction-two acc scale u (rest ++ tail) a.0
            ∙ read_fraction-groups_loop (suc i) intlen (acc * 100 + u) (suc (suc scale)) bs tail
                (omega arith) a.1
            ∙ ap (λ (n : ℕ). read_fraction (base_hundred (acc * 100 + u) (map group bs)) n tail)
                (omega arith))))

  -- In front of the point.
  pub read_whole-groups_loop :
      (i intlen acc : ℕ) (bs tail : Bytes)
      → 0 < i
      → (i ≡ 1 → acc ≡ 0)
      → i - 1 + length bs ≤ intlen
      → AreGroups (map group bs)
      → read_whole acc (flatten (groups_loop group i intlen bs) ++ tail)
        ≡ read_whole (base_hundred acc (map group bs)) tail
  unfolding groups_loop print_point
  read_whole-groups_loop i intlen acc [] tail p start h a = refl
  read_whole-groups_loop i intlen acc (b ∷ bs) tail p start h a =
      let u = group b in
      let rest = groups_loop group (suc i) intlen bs in
      let e : (i - 1 == intlen) ≡ false = ground arith in
      rw e (
        rw (flatten-append (print_group i intlen u) rest) (
          rw (append_assoc (flatten (print_group i intlen u)) (flatten rest) tail) (
            read_whole-print_group acc i intlen u (flatten rest ++ tail) start a.0
            ∙ read_whole-groups_loop (suc i) intlen (acc * 100 + u) bs tail (omega arith)
                (λ k. absurd (omega (arith, k, p))) (omega arith) a.1)))

  -- Across the point.
  pub read_whole-groups_loop_point :
      (i intlen acc : ℕ) (bs tail : Bytes)
      → 0 < i
      → (i ≡ 1 → acc ≡ 0)
      → i - 1 ≤ intlen
      → intlen < i - 1 + length bs
      → AreGroups (map group bs)
      → read_whole acc (flatten (groups_loop group i intlen bs) ++ tail)
        ≡ read_fraction (base_hundred acc (map group bs)) (2 * (i - 1 + length bs - intlen)) tail
  unfolding groups_loop
  read_whole-groups_loop_point i intlen acc [] tail p start h k a = absurd (omega arith)
  read_whole-groups_loop_point i intlen acc (b ∷ bs) tail p start h k a =
      let u = group b in
      let rest = groups_loop group (suc i) intlen bs in
      elim (Bool-cases (i - 1 == intlen)) [
        | inl e ↦
            rw
              (read_whole-print_point acc i intlen (print_group i intlen u ++ rest) tail start
                (ground arith))
              (rw (print_group-later i intlen u (ground arith) p a.0) (
                rw (append_assoc (print_padded 2 u) (flatten rest) tail) (
                  read_fraction-two acc 0 u (flatten rest ++ tail) a.0
                  ∙ read_fraction-groups_loop (suc i) intlen (acc * 100 + u) 2 bs tail
                      (ground arith) a.1
                  ∙ ap
                      (λ (n : ℕ).
                        read_fraction (base_hundred (acc * 100 + u) (map group bs)) n tail)
                      (ground (arith, e)))))
        | inr e ↦ rw (no_point e) (
            rw (flatten-append (print_group i intlen u) rest) (
              rw (append_assoc (flatten (print_group i intlen u)) (flatten rest) tail) (
                read_whole-print_group acc i intlen u (flatten rest ++ tail) start a.0
                ∙ read_whole-groups_loop_point (suc i) intlen (acc * 100 + u) bs tail (omega arith)
                    (λ k. absurd (omega (arith, k, p))) (ground arith) (omega arith) a.1
                ∙ ap (λ (n : ℕ). read_fraction (base_hundred (acc * 100 + u) (map group bs)) n tail)
                    (omega arith))))
      ]
    where
      no_point : (i - 1 == intlen) ≡ false → print_point i intlen ≡ []
      no_point e = unfold print_point in rw e refl

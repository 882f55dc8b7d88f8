-- ===== src/Oracle/Fractions.antt =====
-- The numbers near 0 that `PrintData` loses.
use oscshell.Base.{
  ℕ, ◌+◌, ◌-◌, ◌≤◌, Bool, true, false, List, [], ◌∷◌, ◌++◌, some, map, length, ltb, leb, ◌==◌, ◌≡◌,
  refl, arith,
}
use oscshell.Base.Text.{Bytes, codes}
use oscshell.Oracle.Number.{ending}
use oscshell.Oracle.Cell.{print_number, print_data, print_all}

-- The NUMBER -groups · 100 ^ -(e + number of groups), and the NUMBER
-- groups · 100 ^ -(e + 1 + number of groups).
abbrev pub fraction_bytes : Bool → ℕ → List ℕ → Bytes
fraction_bytes true e gs = (63 + e) ∷ (map (λ g. 101 - g) gs ++ ending gs)
fraction_bytes false e gs = (191 - e) ∷ map (λ g. g + 1) gs

-- Every negative number above -1 leaves the row as it is, without the mark that ends a column; every
-- positive number below 0.01 is printed as 0.
pub print_data-fraction_bytes :
    (show_double show_float : Bytes → Bytes) (wide : Bool) (d e : ℕ) (gs : List ℕ)
    (behind row : Bytes)
    → d ≤ 64
    → e ≤ 63
    → (ts : List Bytes) × (us : List Bytes) × (print_data show_double show_float wide 2
          (fraction_bytes true d gs ++ behind)
          (length (fraction_bytes true d gs))
        ≡ some ts)
      × (print_all row ts ≡ some row)
      × (print_data show_double show_float wide 2
            (fraction_bytes false e gs ++ behind)
            (length (fraction_bytes false e gs))
          ≡ some us)
      × (us ≡ codes "0|" ∷ [])
unfolding print_data print_number print_all
print_data-fraction_bytes show_double show_float wide d e gs behind row near h =
    let a : ltb (63 + d) 63 ≡ false = ground arith in
    let b : leb 192 (63 + d) ≡ false = ground (arith, near) in
    let c : leb 128 (63 + d) ≡ false = ground (arith, near) in
    let f : ltb (191 - e) 63 ≡ false = ground (arith, h) in
    let g : leb 192 (191 - e) ≡ false = ground arith in
    let k : leb 128 (191 - e) ≡ true = ground (arith, h) in
    let m : (length (fraction_bytes true d gs) == 0) ≡ false = ground arith in
    let n : (length (fraction_bytes false e gs) == 0) ≡ false = ground arith in
    (
      [],
      codes "0|" ∷ [],
      rw m (rw a (rw b (rw c refl))),
      refl,
      rw n (rw f (rw g (rw k refl))),
      refl,
    )

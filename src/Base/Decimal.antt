-- ===== src/Base/Decimal.antt =====
-- `atoi` reads the digits that `sprintf` prints.
use oscshell.Base.{
  ℕ, zero, suc, ◌+◌, ◌-◌, ◌*◌, ◌/◌, ◌%◌, ◌≤◌, ◌<◌, ◌≢◌, true, false, [], ◌∷◌, ◌++◌, All, All-append,
  length, ltb, leb, Bool-cases, ◌⊎◌, inl, inr, ◌≡◌, refl, sym, ap, ◌∙◌, arith, length-append,
}
use oscshell.Base.Int.{pos, atoi, digits_value}
use oscshell.Base.Text.{Bytes, Lacks}
use oscshell.Base.Print.{decimal, print_int}

abbrev IsDigit : ℕ → Type 0
IsDigit c = (48 ≤ c) × (c ≤ 57)

abbrev pub AreDigits : Bytes → Type 0
AreDigits = All IsDigit

digits_value-digit :
    (acc c : ℕ) (s : Bytes)
    → IsDigit c
    → digits_value acc (c ∷ s) ≡ digits_value (acc * 10 + (c - 48)) s
unfolding digits_value
digits_value-digit acc c s h =
    let e : leb 48 c ≡ true = ground (arith, h.0) in
    let f : leb c 57 ≡ true = ground (arith, h.1) in
    rw (e, digits_value) (rw (f, digits_value) refl)

digits_value-append :
    (acc : ℕ) (s : Bytes) (d : ℕ)
    → AreDigits s
    → IsDigit d
    → digits_value acc (s ++ d ∷ []) ≡ digits_value acc s * 10 + (d - 48)
digits_value-append acc [] d h i = digits_value-digit acc d [] i ∙ (unfold digits_value in refl)
digits_value-append acc (c ∷ s) d h i =
    digits_value-digit acc c (s ++ d ∷ []) h.0
    ∙ digits_value-append (acc * 10 + (c - 48)) s d h.1 i
    ∙ ap (λ (v : ℕ). v * 10 + (d - 48)) (sym (digits_value-digit acc c s h.0))

-- `n` digits are enough for `k`.
abbrev FitsDigits : ℕ → ℕ → Type 0
FitsDigits zero k = ⊥
FitsDigits (suc n) k = (k < 10) ⊎ FitsDigits n (k / 10)

FitsDigits-more :
    (n bound : ℕ)
    → ((k : ℕ) → k < bound → FitsDigits n k)
    → (k : ℕ) → k < 10 * bound
    → FitsDigits (suc n) k
FitsDigits-more n bound fits k h = inr (fits (k / 10) (omega arith))

FitsDigits-less : (n k : ℕ) → FitsDigits n k → FitsDigits (suc n) k
FitsDigits-less zero k h = absurd h
FitsDigits-less (suc n) k (inl h) = inl h
FitsDigits-less (suc n) k (inr h) = inr (FitsDigits-less n (k / 10) h)

FitsDigits-five : (k : ℕ) → k < 100000 → FitsDigits 5 k
FitsDigits-five =
    FitsDigits-more 4 10000
      (FitsDigits-more 3 1000 (FitsDigits-more 2 100 (FitsDigits-more 1 10 (λ j i. inl i))))

pub FitsDigits-ten : (k : ℕ) → k < 100000 → FitsDigits 10 k
FitsDigits-ten k h = FitsDigits-less 9 k (
    FitsDigits-less 8 k
      (FitsDigits-less 7 k (FitsDigits-less 6 k (FitsDigits-less 5 k (FitsDigits-five k h)))))

-- The digits that are printed, as they are read.
pub record Printed (k : ℕ) (s : Bytes) : Type 0 where
  pub digits : AreDigits s
  pub value : digits_value 0 s ≡ k
  pub some_digit : 0 < length s

pub Printed-decimal : (n k : ℕ) → FitsDigits n k → Printed k (decimal n k)
unfolding decimal
Printed-decimal zero k h = absurd h
Printed-decimal (suc n) k h = elim (Bool-cases (ltb k 10)) [
  | inl e ↦
      let digit : IsDigit (48 + k) = ground arith in
      rw e (record {
        digits = (digit, tt);
        value = digits_value-digit 0 (48 + k) [] digit ∙ (unfold digits_value in omega arith);
        some_digit = omega arith;
      })
  | inr e ↦ rw e (longer n k (Printed-decimal n (k / 10) (shorter h e)))
]
  where
    shorter : FitsDigits (suc n) k → ltb k 10 ≡ false → FitsDigits n (k / 10)
    shorter (inl small) e = absurd (ground arith)
    shorter (inr rest) e = rest

    longer :
        (n k : ℕ)
        → Printed (k / 10) (decimal n (k / 10))
        → Printed k (decimal n (k / 10) ++ (48 + k % 10) ∷ [])
    longer n k p = record {
      digits = All-append IsDigit (decimal n (k / 10)) ((48 + k % 10) ∷ []) p.digits (omega arith);
      value =
          digits_value-append 0 (decimal n (k / 10)) (48 + k % 10) p.digits (omega arith)
          ∙ omega (arith, p.value);
      some_digit = omega (arith, length-append (decimal n (k / 10)) ((48 + k % 10) ∷ []));
    }

atoi-digits : (s : Bytes) → AreDigits s → 0 < length s → atoi s ≡ pos (digits_value 0 s)
unfolding atoi
atoi-digits [] h some_digit = absurd (omega arith)
atoi-digits (c ∷ s) h some_digit = ground (arith, h.0)

pub atoi-print_int : (k : ℕ) → k < 100000 → atoi (print_int (pos k)) ≡ pos k
unfolding print_int
atoi-print_int k h =
    let p = Printed-decimal 10 k (FitsDigits-ten k h) in
    atoi-digits (decimal 10 k) p.digits p.some_digit ∙ ap pos p.value

-- No more digits are printed than are needed.
length-decimal : (m n k : ℕ) → FitsDigits n k → length (decimal m k) ≤ n
unfolding decimal
length-decimal m zero k h = absurd h
length-decimal zero (suc n) k h = omega arith
length-decimal (suc m) (suc n) k h = elim (Bool-cases (ltb k 10)) [
  | inl e ↦ rw e (omega arith)
  | inr e ↦ rw e (
      omega (
        arith,
        length-append (decimal m (k / 10)) ((48 + k % 10) ∷ []),
        length-decimal m n (k / 10) (shorter h e),
      ))
]
  where
    shorter : FitsDigits (suc n) k → ltb k 10 ≡ false → FitsDigits n (k / 10)
    shorter (inl small) e = absurd (ground arith)
    shorter (inr rest) e = rest

Lacks-digits : (c : ℕ) (s : Bytes) → (c < 48) ⊎ (57 < c) → AreDigits s → Lacks c s
Lacks-digits c [] h d = tt
Lacks-digits c (x ∷ s) h d = (differs h, Lacks-digits c s h d.1)
  where
    differs : (c < 48) ⊎ (57 < c) → x ≢ c
    differs (inl small) e = omega (arith, e, d.0.0, small)
    differs (inr large) e = omega (arith, e, d.0.1, large)

-- A printed port is short, and has only digits.
pub print_int-port :
    (k c : ℕ)
    → k < 100000
    → (c < 48) ⊎ (57 < c)
    → Lacks c (print_int (pos k)) × (length (print_int (pos k)) ≤ 5)
unfolding print_int
print_int-port k c h other = (
  Lacks-digits c (decimal 10 k) other (Printed-decimal 10 k (FitsDigits-ten k h)).digits,
  length-decimal 10 5 k (FitsDigits-five k h),
)

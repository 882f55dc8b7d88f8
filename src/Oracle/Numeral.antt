-- ===== src/Oracle/Numeral.antt =====
-- The decimal numbers that `PrintData` prints, as they are read.
use oscshell.Base.{
  ℕ, suc, ◌+◌, ◌-◌, ◌*◌, ◌/◌, ◌%◌, ◌≤◌, ◌<◌, Bool, true, false, ◌&&◌, List, [], ◌∷◌, ◌++◌, All,
  if◌then◌else◌, ltb, leb, ◌==◌, Bool-cases, inl, inr, ◌≡◌, refl, sym, ap, ◌∙◌, arith,
}
use oscshell.Base.Int.{pos}
use oscshell.Base.Text.{Bytes}
use oscshell.Base.Print.{decimal, print_int, zero_digits, print_padded}

abbrev is_digit : ℕ → Bool
is_digit c = leb 48 c && leb c 57

-- The digits as one number, and how many of them stand behind the point.
abbrev pub read_fraction : ℕ → ℕ → Bytes → ℕ × ℕ
read_fraction acc scale [] = (acc, scale)
read_fraction acc scale (c ∷ s) =
    let more = read_fraction (acc * 10 + (c - 48)) (suc scale) s in
    if is_digit c then more else (acc, scale)

abbrev pub read_whole : ℕ → Bytes → ℕ × ℕ
read_whole acc [] = (acc, 0)
read_whole acc (c ∷ s) =
    let more = read_whole (acc * 10 + (c - 48)) s in
    if is_digit c then more else (if c == b'.' then read_fraction acc 0 s else (acc, 0))

-- The groups as one number, to the base 100.
abbrev pub base_hundred : ℕ → List ℕ → ℕ
base_hundred acc [] = acc
base_hundred acc (g ∷ gs) = base_hundred (acc * 100 + g) gs

abbrev pub AreGroups : List ℕ → Type 0
AreGroups = All (λ g. g < 100)

is_digit-digit : (d : ℕ) → d < 10 → is_digit (48 + d) ≡ true
is_digit-digit d h = ground arith

read_whole-digit :
    (acc d : ℕ) (s : Bytes) → d < 10 → read_whole acc ((48 + d) ∷ s) ≡ read_whole (acc * 10 + d) s
read_whole-digit acc d s h =
    rw (is_digit-digit d h) (ap (λ (n : ℕ). read_whole (acc * 10 + n) s) (omega arith))

read_fraction-digit :
    (acc scale d : ℕ) (s : Bytes)
    → d < 10
    → read_fraction acc scale ((48 + d) ∷ s) ≡ read_fraction (acc * 10 + d) (suc scale) s
read_fraction-digit acc scale d s h =
    rw (is_digit-digit d h)
      (ap (λ (n : ℕ). read_fraction (acc * 10 + n) (suc scale) s) (omega arith))

pub decimal-digit : (n d : ℕ) → d < 10 → decimal (suc n) d ≡ (48 + d) ∷ []
unfolding decimal
decimal-digit n d h = let e : ltb d 10 ≡ true = ground arith in rw e refl

pub decimal-two :
    (n u : ℕ) → 10 ≤ u → u < 100 → decimal (suc (suc n)) u ≡ (48 + u / 10) ∷ (48 + u % 10) ∷ []
unfolding decimal
decimal-two n u h i =
    let e : ltb u 10 ≡ false = ground arith in
    let f : ltb (u / 10) 10 ≡ true = ground arith in rw e (rw f refl)

-- Two digits.
pub print_padded-two : (u : ℕ) → u < 100 → print_padded 2 u ≡ (48 + u / 10) ∷ (48 + u % 10) ∷ []
unfolding print_padded zero_digits
print_padded-two u h = elim (Bool-cases (ltb u 10)) [
  | inl e ↦ rw (decimal-digit 9 u (ground arith)) (two (48 + u) (ground arith) (ground arith))
  | inr e ↦ rw (decimal-two 8 u (ground arith) h) refl
]
  where
    two :
        (d : ℕ)
        → 48 ≡ 48 + u / 10
        → d ≡ 48 + u % 10
        → Path Bytes (48 ∷ d ∷ []) ((48 + u / 10) ∷ (48 + u % 10) ∷ [])
    two d a b = rw (sym a) (ap (λ (x : ℕ). 48 ∷ x ∷ []) b)

pub read_whole-two :
    (acc u : ℕ) (s : Bytes)
    → u < 100
    → read_whole acc (print_padded 2 u ++ s) ≡ read_whole (acc * 100 + u) s
read_whole-two acc u s h = rw (print_padded-two u h) (
    rw (read_whole-digit acc (u / 10) ((48 + u % 10) ∷ s) (omega arith)) (
      rw (read_whole-digit (acc * 10 + u / 10) (u % 10) s (omega arith))
        (ap (λ (n : ℕ). read_whole n s) (omega arith))))

pub read_fraction-two :
    (acc scale u : ℕ) (s : Bytes)
    → u < 100
    → read_fraction acc scale (print_padded 2 u ++ s)
      ≡ read_fraction (acc * 100 + u) (suc (suc scale)) s
read_fraction-two acc scale u s h = rw (print_padded-two u h) (
    rw (read_fraction-digit acc scale (u / 10) ((48 + u % 10) ∷ s) (omega arith)) (
      rw (read_fraction-digit (acc * 10 + u / 10) (suc scale) (u % 10) s (omega arith))
        (ap (λ (n : ℕ). read_fraction n (suc (suc scale)) s) (omega arith))))

pub read_whole-print_int :
    (u : ℕ) (s : Bytes) → u < 100 → read_whole 0 (print_int (pos u) ++ s) ≡ read_whole u s
unfolding print_int
read_whole-print_int u s h = elim (Bool-cases (ltb u 10)) [
  | inl e ↦
      rw (decimal-digit 9 u (ground arith))
        (read_whole-digit 0 u s (ground arith) ∙ ap (λ (n : ℕ). read_whole n s) (omega arith))
  | inr e ↦ rw (decimal-two 8 u (ground arith) h) (
      rw (read_whole-digit 0 (u / 10) ((48 + u % 10) ∷ s) (omega arith)) (
        rw (read_whole-digit (0 * 10 + u / 10) (u % 10) s (omega arith))
          (ap (λ (n : ℕ). read_whole n s) (omega arith))))
]

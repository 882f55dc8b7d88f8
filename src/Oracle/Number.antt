-- ===== src/Oracle/Number.antt =====
-- What `PrintData` prints for a NUMBER, against the number that it stands for.
use native.Mathlib.Nat.{mul_assoc, mul-one, pow-zero, pow-suc}
use Prim.Native.Nat.{◌^◌}
use mathlib.Core.Path.{subst}
use oscshell.Base.{
  ℕ, zero, suc, ◌+◌, ◌-◌, ◌*◌, Bool, true, false, List, [], ◌∷◌, ◌++◌, map, if◌then◌else◌, length,
  flatten, ltb, leb, ◌==◌, Bool-cases, inl, inr, ◌≡◌, refl, sym, ap, ◌∙◌, arith, flatten-append,
}
use oscshell.Base.Text.{Bytes, codes}
use oscshell.Oracle.Cell.{groups_loop, zero_pairs}
use oscshell.Oracle.Numeral.{read_fraction, read_whole, base_hundred, AreGroups}
use oscshell.Oracle.Groups.{read_whole-groups_loop, read_whole-groups_loop_point}

-- A negative NUMBER ends in the byte 102, unless it has 20 groups.
abbrev pub ending : List ℕ → Bytes
ending gs = if ltb (length gs) 20 then 102 ∷ [] else []

-- A NUMBER is sign · (groups to the base 100) · 100 ^ (intlen - number of groups), with at most 20
-- groups.
abbrev pub number_bytes : Bool → ℕ → List ℕ → Bytes
number_bytes false intlen gs = (192 + intlen) ∷ map (λ g. g + 1) gs
number_bytes true intlen gs = (63 - intlen) ∷ (map (λ g. 101 - g) gs ++ ending gs)

-- The sign, the digits as one number, and how many of them stand behind the point.
abbrev pub read_numeral : Bytes → Bool × ℕ × ℕ
read_numeral [] = (false, 0, 0)
read_numeral (c ∷ s) =
    let (m, scale) = read_whole 0 s in
    let (n, other) = read_whole 0 (c ∷ s) in
    if c == b'-' then (true, m, scale) else (false, n, other)

pow-add : (n a b : ℕ) → n ^ (a + b) ≡ n ^ a * n ^ b
pow-add n a zero =
    let same : a + 0 ≡ a = omega arith in
    ap (λ (k : ℕ). n ^ k) same ∙ sym (ap (λ (x : ℕ). n ^ a * x) (pow-zero n) ∙ mul-one (n ^ a))
pow-add n a (suc b) =
    let same : a + suc b ≡ suc (a + b) = omega arith in
    ap (λ (k : ℕ). n ^ k) same
    ∙ pow-suc n (a + b)
    ∙ ap (λ (x : ℕ). x * n) (pow-add n a b)
    ∙ mul_assoc (n ^ a) (n ^ b) n
    ∙ ap (λ (x : ℕ). n ^ a * x) (sym (pow-suc n b))

pow_pairs : (n : ℕ) → 10 ^ (2 * n) ≡ 100 ^ n
pow_pairs zero = omega arith
pow_pairs (suc n) =
    let same : 2 * suc n ≡ 2 * n + 2 = omega arith in
    ap (λ (k : ℕ). 10 ^ k) same ∙ omega (arith, pow-add 10 (2 * n) 2, pow_pairs n, pow-suc 100 n)

-- Two zeros for every group that is left out.
read_whole-zero_pairs :
    (acc n : ℕ) → read_whole acc (flatten (zero_pairs n) ++ codes "|") ≡ (acc * 100 ^ n, 0)
unfolding zero_pairs
read_whole-zero_pairs acc zero = ap (λ (m : ℕ). (m, 0)) (omega arith)
read_whole-zero_pairs acc (suc n) =
    read_whole-zero_pairs ((acc * 10 + 0) * 10 + 0) n
    ∙ ap (λ (m : ℕ). (m, 0)) (grind (arith, pow-suc 100 n, mul_assoc acc (100 ^ n) 100))

-- What is read stands for the number of the groups.
pub record Reads (text : Bytes) (intlen : ℕ) (gs : List ℕ) : Type 0 where
  pub digits : ℕ
  pub scale : ℕ
  pub read : read_whole 0 text ≡ (digits, scale)
  pub same : digits * 100 ^ length gs ≡ base_hundred 0 gs * 100 ^ intlen * 10 ^ scale

pub length-map : (f : ℕ → ℕ) (s : List ℕ) → length (map f s) ≡ length s
length-map f [] = refl
length-map f (c ∷ s) = ap suc (length-map f s)

scaled_whole : (m a b : ℕ) → m * 100 ^ a * 100 ^ b ≡ m * 100 ^ (a + b) * 10 ^ 0
scaled_whole m a b =
    mul_assoc m (100 ^ a) (100 ^ b)
    ∙ ap (λ (x : ℕ). m * x) (sym (pow-add 100 a b))
    ∙ sym (ap (λ (x : ℕ). m * 100 ^ (a + b) * x) (pow-zero 10) ∙ mul-one (m * 100 ^ (a + b)))

scaled_part : (m a b : ℕ) → m * 100 ^ (a + b) ≡ m * 100 ^ a * 10 ^ (2 * b)
scaled_part m a b =
    ap (λ (x : ℕ). m * x) (pow-add 100 a b)
    ∙ sym (mul_assoc m (100 ^ a) (100 ^ b))
    ∙ ap (λ (x : ℕ). m * 100 ^ a * x) (sym (pow_pairs b))

Reads-groups_loop :
    (group : ℕ → ℕ) (intlen : ℕ) (bs : Bytes)
    → AreGroups (map group bs)
    → Reads
        (flatten
          (groups_loop group 1 intlen bs ++ (zero_pairs (intlen - length bs) ++ codes "|" ∷ [])))
        intlen
        (map group bs)
Reads-groups_loop group intlen bs a =
    let loop = groups_loop group 1 intlen bs in
    let zeros = zero_pairs (intlen - length bs) in
    let gs = map group bs in
    let split = flatten-append loop (zeros ++ codes "|" ∷ []) in
    let end = flatten-append zeros (codes "|" ∷ []) in
    let size = length-map group bs in
    elim (Bool-cases (leb (length bs) intlen)) [
      | inl e ↦ record {
        digits = base_hundred 0 gs * 100 ^ (intlen - length bs);
        scale = 0;
        read =
            ap (read_whole 0) (split ∙ ap (λ (s : Bytes). flatten loop ++ s) end)
            ∙ read_whole-groups_loop group 1 intlen 0 bs (flatten zeros ++ codes "|") (omega arith)
                (λ h. refl) (ground arith) a
            ∙ read_whole-zero_pairs (base_hundred 0 gs) (intlen - length bs);
        same =
            let sum : intlen - length bs + length bs ≡ intlen = ground arith in
            ap (λ (k : ℕ). base_hundred 0 gs * 100 ^ (intlen - length bs) * 100 ^ k) size
            ∙ scaled_whole (base_hundred 0 gs) (intlen - length bs) (length bs)
            ∙ ap (λ (k : ℕ). base_hundred 0 gs * 100 ^ k * 10 ^ 0) sum;
      }
      | inr e ↦ record {
        digits = base_hundred 0 gs;
        scale = 2 * (length bs - intlen);
        read =
            let none_left : intlen - length bs ≡ 0 = ground arith in
            let same : 1 - 1 + length bs - intlen ≡ length bs - intlen = omega arith in
            ap (read_whole 0) (split ∙ ap (λ (s : Bytes). flatten loop ++ s) end)
            ∙ read_whole-groups_loop_point group 1 intlen 0 bs (flatten zeros ++ codes "|")
                (omega arith) (λ h. refl) (omega arith) (ground arith) a
            ∙ ap (λ (k : ℕ). read_fraction (base_hundred 0 gs) (2 * k) (flatten zeros ++ codes "|"))
                same
            ∙ ap
                (λ (k : ℕ).
                  read_fraction (base_hundred 0 gs) (2 * (length bs - intlen))
                    (flatten (zero_pairs k) ++ codes "|"))
                none_left
            ∙ (unfold zero_pairs in refl);
        same =
            let sum : intlen + (length bs - intlen) ≡ length gs = ground (arith, size) in
            ap (λ (k : ℕ). base_hundred 0 gs * 100 ^ k) (sym sum)
            ∙ scaled_part (base_hundred 0 gs) intlen (length bs - intlen);
      }
    ]

-- The groups that the bytes stand for.
pub Reads-bytes :
    (group : ℕ → ℕ) (intlen : ℕ) (bs : Bytes) (gs : List ℕ)
    → map group bs ≡ gs
    → AreGroups gs
    → Reads
        (flatten
          (groups_loop group 1 intlen bs ++ (zero_pairs (intlen - length bs) ++ codes "|" ∷ [])))
        intlen
        gs
Reads-bytes group intlen bs gs same a =
    subst
      (λ (x : List ℕ).
        Reads
          (flatten
            (groups_loop group 1 intlen bs ++ (zero_pairs (intlen - length bs) ++ codes "|" ∷ [])))
          intlen x)
      same (Reads-groups_loop group intlen bs (subst AreGroups (sym same) a))

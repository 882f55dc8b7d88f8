-- ===== src/Config/Search.antt =====
-- Keywords that a line does not have, and the end of a line.
use oscshell.Base.{
  ℕ, zero, suc, ◌+◌, ◌-◌, ◌<◌, true, false, ◌≢◌, [], ◌∷◌, ◌++◌, none, some, take, length, get_elem?,
  leb, ◌==◌, ◌≡◌, refl, ap, ◌∙◌, arith, length-append, take-length-append,
}
use oscshell.Base.Text.{Bytes, Lacks, starts_with, strstr}
use oscshell.Config.{without_end}

starts_with-Lacks : (c : ℕ) (a b s : Bytes) → Lacks c s → starts_with (a ++ (c ∷ b)) s ≡ false
starts_with-Lacks c [] b [] h = refl
starts_with-Lacks c [] b (d ∷ s) h = ground (arith, h.0)
starts_with-Lacks c (x ∷ a) b [] h = refl
starts_with-Lacks c (x ∷ a) b (d ∷ s) h = ground (arith, starts_with-Lacks c a b s h.1)

-- A text is not found where one of its bytes does not stand.
pub strstr-Lacks : (c : ℕ) (a b s : Bytes) → Lacks c s → strstr s (a ++ (c ∷ b)) ≡ none
unfolding strstr
strstr-Lacks c a b [] h = rw (starts_with-Lacks c a b [] h) refl
strstr-Lacks c a b (d ∷ s) h = rw (starts_with-Lacks c a b (d ∷ s) h) (strstr-Lacks c a b s h.1)

get_elem?-length : (s : Bytes) (c : ℕ) (t : Bytes) → get_elem? (s ++ (c ∷ t)) (length s) ≡ some c
get_elem?-length [] c t = refl
get_elem?-length (x ∷ s) c t = get_elem?-length s c t

get_elem?-before :
    (s t : Bytes) (n : ℕ)
    → n < length s
    → Lacks b'\r' s
    → (c : ℕ) × (get_elem? (s ++ t) n ≡ some c) × (c ≢ b'\r')
get_elem?-before [] t n h l = absurd (omega arith)
get_elem?-before (x ∷ s) t zero h l = (x, refl, l.0)
get_elem?-before (x ∷ s) t (suc n) h l = get_elem?-before s t n (omega arith) l.1

-- A line that ends in a line feed alone loses it.
pub without_end-line :
    (s : Bytes) → 0 < length s → Lacks b'\r' s → without_end (s ++ b'\n' ∷ []) ≡ some s
unfolding without_end
without_end-line s some_byte h =
    let text = s ++ b'\n' ∷ [] in
    let n : length text ≡ length s + 1 = length-append s (b'\n' ∷ []) in
    let (c, at, ne) = get_elem?-before s (b'\n' ∷ []) (length text - 2) (omega (arith, n)) h in
    let last : get_elem? text (length text - 1) ≡ some b'\n' =
      ap (get_elem? text) (omega (arith, n)) ∙ get_elem?-length s b'\n' [] in
    let long : leb 2 (length text) ≡ true = ground (arith, n) in
    let other : (c == b'\r') ≡ false = ground arith in
    rw last (
      rw long (
        rw at (
          rw other (
            ap (λ (k : ℕ). some (take k text)) (omega (arith, n))
            ∙ ap some (take-length-append s (b'\n' ∷ []))))))

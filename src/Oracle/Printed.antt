-- ===== src/Oracle/Printed.antt =====
-- What `PrintData` prints for a NUMBER is the number.
use Prim.Native.Nat.{◌^◌}
use mathlib.Core.Path.{subst}
use oscshell.Base.{
  ℕ, ◌+◌, ◌-◌, ◌*◌, ◌≤◌, ◌<◌, Bool, true, false, ◌&&◌, List, [], ◌∷◌, ◌++◌, some, map,
  if◌then◌else◌, length, flatten, ltb, leb, ◌==◌, Bool-cases, inl, inr, ◌≡◌, refl, sym, ap, ◌∙◌,
  arith, append_assoc, append-nil, flatten-append, length-append, take-length-append,
}
use oscshell.Base.Text.{Bytes, codes}
use oscshell.Oracle.Cell.{
  groups_loop, zero_pairs, read_bytes, positive_group, negative_group, print_positive,
  print_negative, print_number,
}
use oscshell.Oracle.Numeral.{read_whole, base_hundred, AreGroups}
use oscshell.Oracle.Begins.{Begins, Begins-groups_loop}
use oscshell.Oracle.Number.{number_bytes, read_numeral, Reads-bytes}

-- What is read stands for the number: digits / 10 ^ scale is groups · 100 ^ (intlen - their number).
pub record IsNumeral (text : Bytes) (negative : Bool) (intlen : ℕ) (gs : List ℕ) : Type 0 where
  pub digits : ℕ
  pub scale : ℕ
  pub read : read_numeral text ≡ (negative, digits, scale)
  pub same : digits * 100 ^ length gs ≡ base_hundred 0 gs * 100 ^ intlen * 10 ^ scale

map-back :
    (f g : ℕ → ℕ) (gs : List ℕ)
    → ((u : ℕ) → u < 100 → f (g u) ≡ u)
    → AreGroups gs
    → map f (map g gs) ≡ gs
map-back f g [] back a = refl
map-back f g (u ∷ gs) back a =
    rw (back u a.0) (ap (λ (s : List ℕ). u ∷ s) (map-back f g gs back a.1))

positive_group-byte : (u : ℕ) → u < 100 → positive_group (u + 1) ≡ u
unfolding positive_group
positive_group-byte u h = omega arith

negative_group-byte : (u : ℕ) → u < 100 → negative_group (101 - u) ≡ u
unfolding negative_group
negative_group-byte u h = omega arith

zero_pairs-if :
    (n intlen a k : ℕ)
    → 0 < n
    → a ≡ n
    → k ≡ intlen - n
    → (if ltb 0 a && ltb a intlen then zero_pairs k else []) ≡ zero_pairs (intlen - n)
zero_pairs-if n intlen a k h same left = elim (Bool-cases (ltb 0 a && ltb a intlen)) [
  | inl e ↦ rw e (ap zero_pairs left)
  | inr e ↦
      let none_left : intlen - n ≡ 0 = ground arith in
      rw e (rw none_left (unfold zero_pairs in refl))
]

-- The calls of `printreslut` behind the sign.
abbrev texts : (ℕ → ℕ) → ℕ → Bytes → List Bytes
texts group intlen bytes =
    groups_loop group 1 intlen bytes ++ (zero_pairs (intlen - length bytes) ++ codes "|" ∷ [])

Begins-texts :
    (group : ℕ → ℕ) (intlen b : ℕ) (bs : Bytes)
    → group b < 100
    → Begins (flatten (texts group intlen (b ∷ bs)))
Begins-texts group intlen b bs h =
    let tail = zero_pairs (intlen - length (b ∷ bs)) ++ codes "|" ∷ [] in
    let t = Begins-groups_loop group intlen b bs (flatten tail) h in
    record {
      first = t.first;
      rest = t.rest;
      whole = flatten-append (groups_loop group 1 intlen (b ∷ bs)) tail ∙ t.whole;
      digit = t.digit;
    }

read_numeral-unsigned :
    (text : Bytes)
    → Begins text
    → read_numeral text ≡ (false, (read_whole 0 text).0, (read_whole 0 text).1)
read_numeral-unsigned text b =
    let plus : (b.first == b'-') ≡ false = ground (arith, b.digit) in rw b.whole (rw plus refl)

IsNumeral-positive :
    (intlen g : ℕ) (gs : List ℕ)
    → AreGroups (g ∷ gs)
    → IsNumeral
        (flatten (texts positive_group intlen (map (λ u. u + 1) (g ∷ gs))))
        false
        intlen
        (g ∷ gs)
IsNumeral-positive intlen g gs a =
    let bytes = map (λ u. u + 1) (g ∷ gs) in
    let r =
      Reads-bytes positive_group intlen bytes (g ∷ gs)
        (map-back positive_group (λ u. u + 1) (g ∷ gs) positive_group-byte a) a in
    let begins =
      Begins-texts positive_group intlen (g + 1) (map (λ u. u + 1) gs)
        (rw (positive_group-byte g a.0) a.0) in
    record {
      digits = r.digits;
      scale = r.scale;
      read =
          read_numeral-unsigned (flatten (texts positive_group intlen bytes)) begins
          ∙ ap (λ (x : ℕ × ℕ). (false, x.0, x.1)) r.read;
      same = r.same;
    }

IsNumeral-negative :
    (intlen g : ℕ) (gs : List ℕ)
    → AreGroups (g ∷ gs)
    → IsNumeral
        (b'-' ∷ flatten (texts negative_group intlen (map (λ u. 101 - u) (g ∷ gs))))
        true
        intlen
        (g ∷ gs)
IsNumeral-negative intlen g gs a =
    let r =
      Reads-bytes negative_group intlen (map (λ u. 101 - u) (g ∷ gs)) (g ∷ gs)
        (map-back negative_group (λ u. 101 - u) (g ∷ gs) negative_group-byte a) a in
    record {
      digits = r.digits;
      scale = r.scale;
      read = ap (λ (x : ℕ × ℕ). (true, x.0, x.1)) r.read;
      same = r.same;
    }

pub read_bytes-append : (s t : Bytes) → read_bytes (length s) (s ++ t) ≡ some s
unfolding read_bytes
read_bytes-append s t =
    let e : leb (length s) (length (s ++ t)) ≡ true = ground (arith, length-append s t) in
    rw e (ap some (take-length-append s t))

-- A negative number with any byte behind its groups.
abbrev negative_bytes : ℕ → List ℕ → ℕ → Bytes
negative_bytes intlen gs e = (63 - intlen) ∷ (map (λ g. 101 - g) gs ++ e ∷ [])

print_number-negative :
    (intlen : ℕ) (gs : List ℕ) (e : ℕ) (behind : Bytes)
    → AreGroups gs
    → 0 < length gs
    → intlen ≤ 62
    → 0 < intlen
    → (ts : List Bytes) × (print_number
          (negative_bytes intlen gs e ++ behind)
          (length (negative_bytes intlen gs e))
        ≡ some ts)
      × IsNumeral (flatten ts) true intlen gs
unfolding print_number print_positive print_negative
print_number-negative intlen [] e behind a some_group small positive = absurd (omega arith)
print_number-negative intlen (g ∷ gs) e behind a some_group small positive =
    let bytes = map (λ u. 101 - u) (g ∷ gs) in
    let value = negative_bytes intlen (g ∷ gs) e in
    let head = (63 - intlen) ∷ bytes in
    let first : ltb (63 - intlen) 63 ≡ true = ground (arith, positive) in
    let other : (101 - g == 0) ≡ false = ground (arith, a.0) in
    let size : length value ≡ length head + 1 = omega (arith, length-append bytes (e ∷ [])) in
    let whole : value ++ behind ≡ head ++ (e ∷ behind) =
      ap (λ (s : Bytes). (63 - intlen) ∷ s) (append_assoc bytes (e ∷ []) behind) in
    let reads : read_bytes (length value - 1) (value ++ behind) ≡ some head =
      ap (λ (s : Bytes). read_bytes (length value - 1) s) whole
      ∙ ap (λ (k : ℕ). read_bytes k (head ++ (e ∷ behind))) (omega (arith, size))
      ∙ read_bytes-append head (e ∷ behind) in
    let same : 63 - (63 - intlen) ≡ intlen = omega (arith, small) in
    let sign : ltb 0 (length value - 2) ≡ true = ground (arith, size) in
    (
      codes "-" ∷ texts negative_group intlen bytes,
      rw first (
          rw other (
            rw reads (
              rw same (
                rw
                  (zero_pairs-if (length bytes) intlen (length value - 2)
                    (intlen + 2 - length value) (omega arith) (omega (arith, size))
                    (omega (arith, size)))
                  (rw sign refl))))),
      IsNumeral-negative intlen g gs a,
    )

map_last :
    (gs : List ℕ) (last : ℕ)
    → map (λ (g : ℕ). 101 - g) (gs ++ last ∷ []) ≡ map (λ g. 101 - g) gs ++ (101 - last) ∷ []
map_last [] last = refl
map_last (g ∷ gs) last = ap (◌∷◌ (101 - g)) (map_last gs last)

-- A number with at most 62 groups in front of the point, positive, with 1 to 20 groups and a first
-- byte of 0xc0 or more, or negative, of -1 or less with 1 to 19 groups, is printed as a decimal numeral
-- of the same value.
pub print_number-number_bytes :
    (negative : Bool) (intlen : ℕ) (gs : List ℕ) (behind : Bytes)
    → AreGroups gs
    → 0 < length gs
    → length gs ≤ 20
    → intlen ≤ 62
    → (negative ≡ true → (0 < intlen) × (length gs < 20))
    → (ts : List Bytes) × (print_number
          (number_bytes negative intlen gs ++ behind)
          (length (number_bytes negative intlen gs))
        ≡ some ts)
      × IsNumeral (flatten ts) negative intlen gs
unfolding print_number print_positive
print_number-number_bytes negative intlen [] behind a some_group few small h = absurd (omega arith)
print_number-number_bytes false intlen (g ∷ gs) behind a some_group few small h =
    let bytes = map (λ u. u + 1) (g ∷ gs) in
    let len = length (number_bytes false intlen (g ∷ gs)) in
    let first : ltb (192 + intlen) 63 ≡ false = ground arith in
    let second : leb 192 (192 + intlen) ≡ true = ground arith in
    let same : 192 + intlen - 192 ≡ intlen = omega arith in
    (
      texts positive_group intlen bytes,
      rw first (
          rw second (
            rw (read_bytes-append ((192 + intlen) ∷ bytes) behind) (
              rw same (
                rw
                  (zero_pairs-if (length bytes) intlen (len - 1) (intlen + 1 - len) (omega arith)
                    (omega arith) (omega arith))
                  refl)))),
      IsNumeral-positive intlen g gs a,
    )
print_number-number_bytes true intlen gs behind a some_group few small h =
    let (positive, fewer) = h refl in
    let short : ltb (length gs) 20 ≡ true = ground (arith, fewer) in
    rw short (print_number-negative intlen gs 102 behind a some_group small positive)

-- A negative number with 20 groups and 1 to 62 groups in front of the point, which has no byte behind
-- its groups, is printed without the last group.
pub print_number_last_group :
    (intlen : ℕ) (gs : List ℕ) (last : ℕ) (behind : Bytes)
    → AreGroups gs
    → length gs ≡ 19
    → 0 < intlen
    → intlen ≤ 62
    → (ts : List Bytes) × (print_number
          (number_bytes true intlen (gs ++ last ∷ []) ++ behind)
          (length (number_bytes true intlen (gs ++ last ∷ [])))
        ≡ some ts)
      × IsNumeral (flatten ts) true intlen gs
print_number_last_group intlen gs last behind a size positive small =
    let full : ltb (length (gs ++ last ∷ [])) 20 ≡ false =
      ground (arith, length-append gs (last ∷ []), size) in
    let same : number_bytes true intlen (gs ++ last ∷ []) ≡ negative_bytes intlen gs (101 - last) =
      rw full (
        ap (◌∷◌ (63 - intlen))
          (append-nil (map (λ g. 101 - g) (gs ++ last ∷ [])) ∙ map_last gs last)) in
    subst
      (λ (value : Bytes).
        (ts : List Bytes) × (print_number (value ++ behind) (length value) ≡ some ts)
        × IsNumeral (flatten ts) true intlen gs)
      (sym same)
      (print_number-negative intlen gs (101 - last) behind a (omega (arith, size)) small positive)

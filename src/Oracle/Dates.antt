-- ===== src/Oracle/Dates.antt =====
-- What `PrintData` prints for a DATE.
use oscshell.Base.{
  ℕ, ◌+◌, ◌-◌, ◌/◌, ◌%◌, ◌≤◌, ◌<◌, true, false, List, [], ◌∷◌, ◌++◌, some, if◌then◌else◌, ltb,
  Bool-cases, inl, inr, ◌≡◌, refl, sym, ap, ◌∙◌, arith,
}
use oscshell.Base.Text.{Bytes, codes}
use oscshell.Base.Print.{decimal, zero_digits, print_padded}
use oscshell.Oracle.Times.{print_num, print_part, print_date}
use oscshell.Oracle.Numeral.{decimal-digit, decimal-two, print_padded-two}

pub record Date : Type 0 where
  pub year : ℕ
  pub month : ℕ
  pub day : ℕ
  pub hour : ℕ
  pub minute : ℕ
  pub second : ℕ

-- A date from the year 100 on.
pub record IsDate (d : Date) : Type 0 where
  pub years : (100 ≤ d.year) × (d.year < 10000)
  pub months : (1 ≤ d.month) × (d.month ≤ 12)
  pub days : (1 ≤ d.day) × (d.day ≤ 31)
  pub hours : d.hour < 24
  pub minutes : d.minute < 60
  pub seconds : d.second < 60

-- The seven bytes of a DATE.
abbrev pub date_bytes : Date → Bytes
date_bytes d =
    (100 + d.year / 100)
    ∷ (100 + d.year % 100)
    ∷ d.month
    ∷ d.day
    ∷ (d.hour + 1)
    ∷ (d.minute + 1)
    ∷ (d.second + 1)
    ∷ []

abbrev pub time_text : Date → Bytes
time_text d =
    print_padded 2 d.month
    ++ (b'-'
        ∷ (print_padded 2 d.day
            ++ (b' '
                ∷ (print_padded 2 d.hour
                    ++ (b':'
                        ∷ (print_padded 2 d.minute
                            ++ (b':' ∷ (print_padded 2 d.second ++ codes "|"))))))))

-- YYYY-MM-DD HH:MM:SS
abbrev pub date_text : Date → Bytes
date_text d = print_padded 4 d.year ++ (b'-' ∷ time_text d)

four :
    (a b c d w x y z : ℕ)
    → a ≡ w
    → b ≡ x
    → c ≡ y
    → d ≡ z
    → Path Bytes (a ∷ b ∷ c ∷ d ∷ []) (w ∷ x ∷ y ∷ z ∷ [])
four a b c d w x y z e f g h = rw (e, f, g, h) refl

two_twos :
    (m n : ℕ)
    → m < 100
    → n < 100
    → print_padded 2 m ++ print_padded 2 n
      ≡ (48 + m / 10) ∷ (48 + m % 10) ∷ (48 + n / 10) ∷ (48 + n % 10) ∷ []
two_twos m n h i = rw (print_padded-two m h) (rw (print_padded-two n i) refl)

decimal-hundreds :
    (k : ℕ)
    → 100 ≤ k
    → decimal 10 k ≡ (decimal 8 (k / 100) ++ (48 + k / 10 % 10) ∷ []) ++ (48 + k % 10) ∷ []
unfolding decimal
decimal-hundreds k h =
    let e : ltb k 10 ≡ false = ground arith in
    let f : ltb (k / 10) 10 ≡ false = ground arith in
    let g : k / 10 / 10 ≡ k / 100 = omega arith in
    rw e (rw f (ap (λ (q : ℕ). (decimal 8 q ++ (48 + k / 10 % 10) ∷ []) ++ (48 + k % 10) ∷ []) g))

pub print_padded-four :
    (k : ℕ)
    → 100 ≤ k
    → k < 10000
    → print_padded 4 k ≡ print_padded 2 (k / 100) ++ print_padded 2 (k % 100)
unfolding print_padded zero_digits
print_padded-four k h i =
    let n = k / 100 in
    let twos = sym (two_twos n (k % 100) (omega arith) (omega arith)) in
    elim (Bool-cases (ltb n 10)) [
      | inl e ↦ rw (decimal-hundreds k h) (
          rw (decimal-digit 7 n (ground arith)) (
            four 48 (48 + n) (48 + k / 10 % 10) (48 + k % 10) _ _ _ _ (ground (arith, e))
              (ground (arith, e)) (omega arith) (omega arith)
            ∙ twos))
      | inr e ↦ rw (decimal-hundreds k h) (
          rw (decimal-two 6 n (ground arith) (omega arith)) (
            four (48 + n / 10) (48 + n % 10) (48 + k / 10 % 10) (48 + k % 10) _ _ _ _ (omega arith)
              (omega arith) (omega arith) (omega arith)
            ∙ twos))
    ]

-- A part above its bound.
print_part-some :
    (over less : ℕ) (behind : List Bytes) (b v : ℕ)
    → b ≡ v + less
    → over < b
    → v < 100
    → print_part over less behind b ≡ print_padded 2 v ∷ behind
unfolding print_part print_num
print_part-some over less behind b v same h small =
    let e : ltb over b ≡ true = ground arith in
    let f : ltb v 100 ≡ true = ground arith in
    let g : b - less ≡ v = omega (arith, same) in rw e (rw g (rw f refl))

-- The texts from the month on.
abbrev pub time_parts : Date → List Bytes
time_parts d =
    print_padded 2 d.month
    ∷ codes "-"
    ∷ print_padded 2 d.day
    ∷ codes " "
    ∷ print_padded 2 d.hour
    ∷ codes ":"
    ∷ print_padded 2 d.minute
    ∷ codes ":"
    ∷ print_padded 2 d.second
    ∷ codes "|"
    ∷ []

-- The texts of a date. A year of a century has no second part.
abbrev pub date_parts : Date → List Bytes
date_parts d =
    print_padded 2 (d.year / 100)
    ∷ (if ltb 100 (100 + d.year % 100)
        then print_padded 2 (d.year % 100) ∷ codes "-" ∷ time_parts d
        else time_parts d)

pub print_date-date_bytes :
    (d : Date) (behind : Bytes)
    → IsDate d
    → print_date (date_bytes d ++ behind) ≡ some (date_parts d)
unfolding print_date
print_date-date_bytes d behind v =
    let c = d.year / 100 in
    let dash = codes "-" ∷ [] in
    let space = codes " " ∷ [] in
    let colon = codes ":" ∷ [] in
    rw
      (print_part-some 100 100 [] (100 + c) c (omega arith) (omega (arith, v.years))
        (omega (arith, v.years)))
      (rw
        (print_part-some 0 0 dash d.month d.month (omega arith) (omega (arith, v.months))
          (omega (arith, v.months)))
        (rw
          (print_part-some 0 0 space d.day d.day (omega arith) (omega (arith, v.days))
            (omega (arith, v.days)))
          (rw
            (print_part-some 0 1 colon (d.hour + 1) d.hour refl (omega arith)
              (omega (arith, v.hours)))
            (rw
              (print_part-some 0 1 colon (d.minute + 1) d.minute refl (omega arith)
                (omega (arith, v.minutes)))
              (rw
                (print_part-some 0 1 [] (d.second + 1) d.second refl (omega arith)
                  (omega (arith, v.seconds)))
                (year2 (d.year % 100) (omega arith) (time_parts d)))))))
  where
    year2 :
        (y : ℕ)
        → y < 100
        → (ts : List Bytes)
        → some
            (print_padded 2 (d.year / 100) ∷ (print_part 100 100 (codes "-" ∷ []) (100 + y) ++ ts))
          ≡ some (
              print_padded 2 (d.year / 100)
              ∷ (if ltb 100 (100 + y) then print_padded 2 y ∷ codes "-" ∷ ts else ts))
    year2 y h ts = elim (Bool-cases (ltb 100 (100 + y))) [
      | inl e ↦
          rw (print_part-some 100 100 (codes "-" ∷ []) (100 + y) y (omega arith) (ground arith) h)
            (rw e refl)
      | inr e ↦ (unfold print_part in rw e refl)
    ]

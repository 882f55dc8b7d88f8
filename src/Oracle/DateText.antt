-- ===== src/Oracle/DateText.antt =====
-- The text that `PrintData` adds to the rows for a DATE.
use oscshell.Base.{
  ℕ, ◌+◌, ◌/◌, ◌%◌, ◌<◌, Bool, true, false, ◌≢◌, ◌↔◌, List, [], ◌∷◌, ◌++◌, Option, none, some,
  length, flatten, ltb, Bool-cases, inl, inr, ◌≡◌, refl, sym, ap, ◌∙◌, arith, append_assoc,
  length-append, append-nil,
}
use oscshell.Base.Text.{Bytes}
use oscshell.Base.Print.{print_padded}
use oscshell.Oracle.Result.{reslut_size, printreslut, printreslut_iff}
use oscshell.Oracle.Cell.{print_data, print_all}
use oscshell.Oracle.Numeral.{print_padded-two}
use oscshell.Oracle.Dates.{
  Date, IsDate, date_bytes, time_text, date_text, date_parts, print_padded-four,
  print_date-date_bytes,
}

-- While a row has room, its texts are added one behind the other.
pub print_all-flatten :
    (row : Bytes) (ts : List Bytes)
    → length row + length (flatten ts) < reslut_size
    → print_all row ts ≡ some (row ++ flatten ts)
unfolding print_all
print_all-flatten row [] h = ap some (sym (append-nil row))
print_all-flatten row (t ∷ ts) h =
    let total = length-append t (flatten ts) in
    let both = length-append row t in
    let one : printreslut row t ≡ some (row ++ t) =
      (printreslut_iff row t (row ++ t) (omega (arith, h, total))).1
        (refl, omega (arith, h, total, both)) in
    rw one (
      print_all-flatten (row ++ t) ts (omega (arith, h, total, both))
      ∙ ap some (append_assoc row t (flatten ts)))

length-time_text : (d : Date) → IsDate d → length (time_text d) ≡ 15
length-time_text d v = rw (print_padded-two d.month (omega (arith, v.months))) (
    rw (print_padded-two d.day (omega (arith, v.days))) (
      rw (print_padded-two d.hour (omega (arith, v.hours))) (
        rw (print_padded-two d.minute (omega (arith, v.minutes)))
          (rw (print_padded-two d.second (omega (arith, v.seconds))) refl))))

length-date_text : (d : Date) → IsDate d → length (date_text d) ≡ 20
length-date_text d v =
    let t = length-time_text d v in
    rw (print_padded-four d.year v.years.0 v.years.1) (
      rw (print_padded-two (d.year / 100) (omega (arith, v.years)))
        (rw (print_padded-two (d.year % 100) (omega (arith, v.years))) (omega (arith, t))))

-- In a year that is not the first of a century, the parts are the date.
flatten-date_parts :
    (d : Date)
    → IsDate d
    → ltb 100 (100 + d.year % 100) ≡ true
    → flatten (date_parts d) ≡ date_text d
flatten-date_parts d v e = rw e (
    rw (print_padded-four d.year v.years.0 v.years.1) (
      sym (
        append_assoc (print_padded 2 (d.year / 100)) (print_padded 2 (d.year % 100))
          (b'-' ∷ time_text d))))

length-date_parts :
    (d : Date)
    → IsDate d
    → ltb 100 (100 + d.year % 100) ≡ false
    → length (flatten (date_parts d)) ≡ 17
length-date_parts d v e = rw e (
    rw (print_padded-two (d.year / 100) (omega (arith, v.years)))
      (omega (arith, length-time_text d v)))

abbrev size_of : Option Bytes → ℕ
size_of none = 0
size_of (some s) = length s

-- The seven bytes of a date from the year 100 on are printed, behind a row with room for 20 bytes, as
-- YYYY-MM-DD HH:MM:SS| exactly if the year is not the first of a century.
pub print_data-date_bytes :
    (show_double show_float : Bytes → Bytes) (wide : Bool) (d : Date) (behind row : Bytes)
    → IsDate d
    → length row + 20 < reslut_size
    → (ts : List Bytes) × (print_data show_double show_float wide 12 (date_bytes d ++ behind) 7
        ≡ some ts)
      × ((print_all row ts ≡ some (row ++ date_text d)) ↔ (d.year % 100 ≢ 0))
unfolding print_data
print_data-date_bytes show_double show_float wide d behind row v room = (
  date_parts d,
  print_date-date_bytes d behind v,
  elim (Bool-cases (ltb 100 (100 + d.year % 100))) [
    | inl e ↦ (
      (λ h. ground arith),
      λ h.
          print_all-flatten row (date_parts d)
            (omega (arith, room, ap length (flatten-date_parts d v e), length-date_text d v))
          ∙ ap (λ (s : Bytes). some (row ++ s)) (flatten-date_parts d v e),
    )
    | inr e ↦ ((λ h. absurd (short e h)), λ h. absurd (ground arith))
  ],
)
  where
    short :
        ltb 100 (100 + d.year % 100) ≡ false
        → print_all row (date_parts d) ≡ some (row ++ date_text d)
        → ⊥
    short e h =
        let n = length-date_parts d v e in
        let printed = print_all-flatten row (date_parts d) (omega (arith, room, n)) in
        let size : length (row ++ flatten (date_parts d)) ≡ length (row ++ date_text d) =
          ap size_of (sym printed ∙ h) in
        omega (
          arith,
          n,
          length-append row (flatten (date_parts d)),
          length-append row (date_text d),
          length-date_text d v,
          size,
        )

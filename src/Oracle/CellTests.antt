-- ===== src/Oracle/CellTests.antt =====
-- Values of columns, and the theorems at them.
use oscshell.Base.{
  ℕ, zero, suc, ◌+◌, ◌<◌, ◌≤◌, ap, map, refl, ◌%◌, ◌≢◌, ◌↔◌, true, false, List, [], ◌∷◌, ◌++◌, some,
  length, flatten, ◌≡◌, arith,
}
use oscshell.Base.Int.{pos}
use oscshell.Base.Text.{Bytes, codes, c_string}
use oscshell.Oracle.Ack.{Peer, zero_bytes, blank, decode_tns_data0401}
use oscshell.Oracle.AckText.{header_size, answer_of, decode_tns_data0401-answer_of}
use oscshell.Oracle.Cell.{print_number, print_data, print_all}
use oscshell.Oracle.Number.{number_bytes}
use oscshell.Oracle.Printed.{IsNumeral, print_number-number_bytes, print_number_last_group}
use oscshell.Oracle.Result.{reslut_size}
use oscshell.Oracle.Filled.{Overrun, printreslut-Overrun}
use oscshell.Oracle.Dates.{Date, date_bytes, date_text}
use oscshell.Oracle.DateText.{print_data-date_bytes}
use oscshell.Oracle.Fractions.{fraction_bytes, print_data-fraction_bytes}

-- -1234.5
print_number-number_bytes_example :
    (ts : List Bytes) × (print_number
        (number_bytes true 2 (12 ∷ 34 ∷ 50 ∷ []) ++ [])
        (length (number_bytes true 2 (12 ∷ 34 ∷ 50 ∷ [])))
      ≡ some ts)
    × IsNumeral (flatten ts) true 2 (12 ∷ 34 ∷ 50 ∷ [])
print_number-number_bytes_example =
    print_number-number_bytes true 2 (12 ∷ 34 ∷ 50 ∷ []) [] (omega arith) (omega arith)
      (omega arith) (omega arith) (λ h. (omega arith, omega arith))

-- The groups of -10/3 but the last.
abbrev thirds : List ℕ
thirds =
    3 ∷ 33 ∷ 33 ∷ 33 ∷ 33 ∷ 33 ∷ 33 ∷ 33 ∷ 33 ∷ 33 ∷ 33 ∷ 33 ∷ 33 ∷ 33 ∷ 33 ∷ 33 ∷ 33 ∷ 33 ∷ 33 ∷ []

print_number_last_group_example :
    (ts : List Bytes) × (print_number
        (number_bytes true 1 (thirds ++ 33 ∷ []) ++ [])
        (length (number_bytes true 1 (thirds ++ 33 ∷ [])))
      ≡ some ts)
    × IsNumeral (flatten ts) true 1 thirds
print_number_last_group_example =
    print_number_last_group 1 thirds 33 [] (omega arith) refl (omega arith) (omega arith)

abbrev spring : Date
spring = record { year = 2012; month = 3; day = 9; hour = 14; minute = 30; second = 0 }

print_data-date_bytes_example :
    (ts : List Bytes) × (print_data (λ s. s) (λ s. s) true 12 (date_bytes spring ++ []) 7 ≡ some ts)
    × ((print_all (codes "SMITH|") ts ≡ some (codes "SMITH|" ++ date_text spring))
        ↔ (2012 % 100 ≢ 0))
print_data-date_bytes_example =
    print_data-date_bytes (λ s. s) (λ s. s) true spring [] (codes "SMITH|")
      (record {
        years = omega arith;
        months = omega arith;
        days = omega arith;
        hours = omega arith;
        minutes = omega arith;
        seconds = omega arith;
      })
      (omega arith)

-- -0.5 and 0.005
print_data-fraction_bytes_example :
    (ts : List Bytes) × (us : List Bytes) × (print_data
        (λ s. s)
        (λ s. s)
        true
        2
        (fraction_bytes true 0 (50 ∷ []) ++ [])
        (length (fraction_bytes true 0 (50 ∷ [])))
      ≡ some ts)
    × (print_all (codes "SMITH|") ts ≡ some (codes "SMITH|"))
    × (print_data
          (λ s. s)
          (λ s. s)
          true
          2
          (fraction_bytes false 0 (50 ∷ []) ++ [])
          (length (fraction_bytes false 0 (50 ∷ [])))
        ≡ some us)
    × (us ≡ codes "0|" ∷ [])
print_data-fraction_bytes_example =
    print_data-fraction_bytes (λ s. s) (λ s. s) true 0 0 (50 ∷ []) [] (codes "SMITH|") (omega arith)
      (omega arith)

abbrev oracle_11 : Peer
oracle_11 = record { is_jdbc = false; is_wide = true; is_nine = false; word = 8 }

head_place : length (zero_bytes 64) ≡ header_size oracle_11
unfolding zero_bytes
head_place = refl

abbrev told : Bytes
told = codes "RA-01401: inserted value\n"

decode_tns_data0401-answer_of_example :
    (out : Bytes) × (decode_tns_data0401 oracle_11
        (answer_of (zero_bytes 64) (b'O' ∷ told) [])
        (zero_bytes 1024)
      ≡ some (pos 0, out))
    × (c_string out ≡ map blank (b'O' ∷ told))
decode_tns_data0401-answer_of_example =
    decode_tns_data0401-answer_of oracle_11 (zero_bytes 64) told [] b'O' 1024 refl head_place
      (omega arith) (omega arith) (omega arith) (omega arith) (omega arith)

copies : ℕ → Bytes
copies zero = []
copies (suc n) = b'x' ∷ copies n

length-copies : (n : ℕ) → length (copies n) ≡ n
unfolding copies
length-copies zero = refl
length-copies (suc n) = ap suc (length-copies n)

-- There is room for three characters, and the second text has four.
printreslut-Overrun_example :
    (length (copies 4092) + 5 < reslut_size
      → print_all (copies 4092) (codes "|" ∷ codes "four" ∷ [])
        ≡ some (copies 4092 ++ codes "|four"))
    × (reslut_size ≤ length (copies 4092) + 5
        → Overrun (copies 4092) (codes "|" ∷ codes "four" ∷ []))
printreslut-Overrun_example =
    printreslut-Overrun (copies 4092) (codes "|" ∷ codes "four" ∷ [])
      (omega (arith, length-copies 4092)) (omega arith, (omega arith, tt))

-- ===== src/Oracle/Times.antt =====
-- Dates, times and intervals in `PrintData` of OracleProxy/oraclefilter.c. A result is the texts that
-- `printreslut` is called with, one call after the other; `none` is a byte read behind the packet.
use oscshell.Base.{
  ℕ, suc, ◌+◌, ◌-◌, ◌*◌, ◌%◌, Bool, List, [], ◌∷◌, ◌++◌, Option, none, some, if◌then◌else◌, ◌>>=◌,
  get_elem?, ltb, leb, ◌==◌,
}
use oscshell.Base.Int.{ℤ, pos, negsuc, is_neg, difference, int32, ◌+ℤ◌}
use oscshell.Base.Text.{Bytes, codes}
use oscshell.Base.Print.{print_int, print_padded, print_padded_int}

-- `PrintfNum`
unfoldable pub print_num : ℕ → List Bytes
print_num u = if ltb u 100 then print_padded 2 u ∷ [] else []

-- One byte of a date: nothing if it is not above `over`.
unfoldable pub print_part : ℕ → ℕ → List Bytes → ℕ → List Bytes
print_part over less behind b = if ltb over b then print_num (b - less) ++ behind else []

-- The branch for a DATE, which reads seven bytes whatever the length is.
unfoldable pub print_date : Bytes → Option (List Bytes)
print_date (year1 ∷ year2 ∷ month ∷ day ∷ hour ∷ minute ∷ second ∷ rest) = some (
    print_part 100 100 [] year1
    ++ (print_part 100 100 (codes "-" ∷ []) year2
        ++ (print_part 0 0 (codes "-" ∷ []) month
            ++ (print_part 0 0 (codes " " ∷ []) day
                ++ (print_part 0 1 (codes ":" ∷ []) hour
                    ++ (print_part 0 1 (codes ":" ∷ []) minute
                        ++ (print_part 0 1 [] second ++ codes "|" ∷ [])))))))
print_date _ = none

-- The four bytes at `n`, the highest first.
unfoldable pub read_int : Bytes → ℕ → Option ℕ
read_int s n = do
  b0 ← get_elem? s n
  b1 ← get_elem? s (n + 1)
  b2 ← get_elem? s (n + 2)
  b3 ← get_elem? s (n + 3)
  some (b0 * 16777216 + b1 * 65536 + b2 * 256 + b3)

-- An `int` that is stored with 0x80 added to its highest byte.
unfoldable pub read_biased : Bytes → ℕ → Option ℤ
read_biased s n = do k ← read_int s n; some (int32 ((k + 2147483648) % 4294967296))

-- INTERVAL YEAR TO MONTH
unfoldable pub print_year_month : Bytes → ℕ → Option (List Bytes)
print_year_month s len =
    let value = (do
      day ← read_biased s 0
      b ← get_elem? s 4
      some ((print_int day ++ (codes "-" ++ (print_int (difference 60 b) ++ codes "|"))) ∷ [])) in
    if len == 5 then value else some (codes "NULL|" ∷ [])

-- INTERVAL DAY TO SECOND
unfoldable pub print_day_second : Bytes → ℕ → Option (List Bytes)
print_day_second s len =
    let value = (do
      day ← read_biased s 0
      hour ← get_elem? s 4
      minute ← get_elem? s 5
      second ← get_elem? s 6
      msecond ← read_biased s 7
      some (
          (print_int day
            ++ (codes " "
                ++ (print_int (difference hour 60)
                    ++ (codes ":"
                        ++ (print_int (difference minute 60)
                            ++ (codes ":"
                                ++ (print_int (difference second 60)
                                    ++ (codes ":" ++ (print_int msecond ++ codes "|")))))))))
          ∷ [])) in
    if len == 11 then value else some (codes "NULL|" ∷ [])

-- A timestamp, as it is computed.
pub record Stamp : Type 0 where
  pub year : ℤ
  pub month : ℤ
  pub day : ℤ
  pub hour : ℤ
  pub minute : ℤ
  pub second : ℤ

-- The time zone is added; what falls below 0 is borrowed from the next field.
unfoldable pub borrow_minute : Stamp → Stamp
borrow_minute t =
    if is_neg t.minute
    then record t { hour = t.hour +ℤ negsuc 0; minute = t.minute +ℤ pos 60 }
    else t

unfoldable pub borrow_hour : Stamp → Stamp
borrow_hour t =
    if is_neg t.hour then record t { day = t.day +ℤ negsuc 0; hour = t.hour +ℤ pos 24 } else t

unfoldable pub borrow_day : Stamp → Stamp
borrow_day t =
    if is_neg t.day then record t { month = t.month +ℤ negsuc 0; day = t.day +ℤ pos 30 } else t

unfoldable pub borrow_month : Stamp → Stamp
borrow_month t =
    if is_neg t.month then record t { year = t.year +ℤ negsuc 0; month = t.month +ℤ pos 12 } else t

unfoldable pub add_zone : ℤ → ℤ → Stamp → Stamp
add_zone z1 z2 t =
    let shifted = record t { hour = t.hour +ℤ z1; minute = t.minute +ℤ z2 } in
    borrow_month (borrow_day (borrow_hour (borrow_minute shifted)))

unfoldable pub print_stamp : Stamp → ℤ → Bytes
print_stamp t msecond =
    print_int t.year
    ++ (codes "-"
        ++ (print_padded_int 2 t.month
            ++ (codes "-"
                ++ (print_padded_int 2 t.day
                    ++ (codes " "
                        ++ (print_padded_int 2 t.hour
                            ++ (codes ":"
                                ++ (print_padded_int 2 t.minute
                                    ++ (codes ":"
                                        ++ (print_padded_int 2 t.second
                                            ++ (codes ":" ++ print_padded_int 6 msecond)))))))))))

-- The fields in front of the time zone. `wide` is the test for version 11 or 64 bits.
unfoldable pub read_stamp : Bool → Bytes → Option Stamp
read_stamp wide (c ∷ y ∷ m ∷ d ∷ h ∷ n ∷ s ∷ rest) = some (record {
  year = difference (c * 100 + y) 10100;
  month = if wide then pos m else difference m 1;
  day = if wide then pos d else difference d 1;
  hour = difference h 1;
  minute = difference n 1;
  second = difference s 1;
})
read_stamp wide _ = none

-- The absolute value, which is printed for the minutes of the zone.
unfoldable pub magnitude : ℤ → ℕ
magnitude (pos n) = n
magnitude (negsuc n) = suc n

-- TIMESTAMP, with a local time zone or without.
unfoldable pub print_timestamp : Bool → Bytes → ℕ → Option (List Bytes)
print_timestamp wide s len =
    let part = (do k ← read_int s 7; some (int32 k)) in
    let zoned = (λ (t : Stamp). do
      msecond ← part
      b1 ← get_elem? s 11
      b2 ← get_elem? s 12
      let z1 = difference b1 20
      let z2 = difference b2 60
      some (
          (print_stamp (add_zone z1 z2 t) msecond
            ++ (codes " "
                ++ (print_padded_int 2 z1
                    ++ (codes ":" ++ (print_padded 2 (magnitude z2) ++ codes "|")))))
          ∷ [])) in
    let plain = (λ (t : Stamp). do
      msecond ← (if leb 11 len then part else some (pos 0))
      some ((print_stamp t msecond ++ codes "|") ∷ [])) in
    let stamp = (do t ← read_stamp wide s; if leb 13 len then zoned t else plain t) in
    if ltb len 7 then some (codes "NULL|" ∷ []) else stamp

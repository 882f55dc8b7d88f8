-- ===== src/Oracle/Cell.antt =====
-- `PrintData` of OracleProxy/oraclefilter.c: the value of a column as it is printed. A buffer is what
-- lies in memory from the value on; `none` is a byte read behind it.
use oscshell.Base.{
  ℕ, zero, suc, ◌+◌, ◌-◌, ◌/◌, ◌%◌, Bool, ◌&&◌, ◌||◌, List, [], ◌∷◌, ◌++◌, Option, none, some, map,
  if◌then◌else◌, ◌>>=◌, take, drop, length, get_elem?, ltb, leb, ◌==◌,
}
use oscshell.Base.Int.{pos}
use oscshell.Base.Text.{Bytes, codes}
use oscshell.Base.Print.{print_int}
use oscshell.Des.Hex.{digit_char}
use oscshell.Oracle.Result.{printreslut}
use oscshell.Oracle.Strings.{until_zero}
use oscshell.Oracle.Times.{
  print_num, print_date, print_year_month, print_day_second, print_timestamp,
}

-- The first `n` bytes.
unfoldable pub read_bytes : ℕ → Bytes → Option Bytes
read_bytes n s = if leb n (length s) then some (take n s) else none

-- The decimal point in front of group `i`.
unfoldable pub print_point : ℕ → ℕ → List Bytes
print_point i intlen =
    if i - 1 == intlen
    then (if intlen == 0 then codes "0" ∷ codes "." ∷ [] else codes "." ∷ [])
    else []

-- One group of two digits. The first of several groups in front of the point has no leading 0.
unfoldable pub print_group : ℕ → ℕ → ℕ → List Bytes
print_group i intlen u = if i == 1 && ltb i intlen then print_int (pos u) ∷ [] else print_num u

-- The loops over the groups, from group `i` on; `group` gives the value of a byte.
unfoldable pub groups_loop : (ℕ → ℕ) → ℕ → ℕ → Bytes → List Bytes
groups_loop group i intlen [] = []
groups_loop group i intlen (b ∷ s) =
    print_point i intlen ++ (print_group i intlen (group b) ++ groups_loop group (suc i) intlen s)

unfoldable pub zero_pairs : ℕ → List Bytes
zero_pairs zero = []
zero_pairs (suc n) = codes "00" ∷ zero_pairs n

-- An `unsigned char` that is decremented, and that is taken from 101.
unfoldable pub positive_group : ℕ → ℕ
positive_group b = (b + 255) % 256

unfoldable pub negative_group : ℕ → ℕ
negative_group b = (357 - b) % 256

-- The branch of a NUMBER for 0xc0 and above.
unfoldable pub print_positive : ℕ → Bytes → ℕ → Option (List Bytes)
print_positive first s len = do
  digits ← read_bytes len s
  let intlen = first - 192
  some (
      groups_loop positive_group 1 intlen (drop 1 digits)
      ++ ((if ltb 0 (len - 1) && ltb (len - 1) intlen then zero_pairs (intlen + 1 - len) else [])
          ++ codes "|" ∷ []))

-- The branch of a NUMBER below 0x3f. Its loop for a byte that is not 0 looks at one byte only.
unfoldable pub print_negative : ℕ → Bytes → ℕ → Option (List Bytes)
print_negative first s len =
    let intlen = 63 - first in
    let value = (do
      digits ← read_bytes (len - 1) s
      some (
          (if ltb 0 (len - 2) then codes "-" ∷ [] else [])
          ++ (groups_loop negative_group 1 intlen (drop 1 digits)
              ++ ((if ltb 0 (len - 2) && ltb (len - 2) intlen
                    then zero_pairs (intlen + 2 - len)
                    else [])
                  ++ codes "|" ∷ [])))) in
    do second ← get_elem? s 1; if second == 0 then some (codes "NULL|" ∷ []) else value

-- The branch for a NUMBER.
unfoldable pub print_number : Bytes → ℕ → Option (List Bytes)
print_number s len = do
  first ← get_elem? s 0
  if ltb first 63
      then print_negative first s len
      else (if leb 192 first
          then print_positive first s len
          else (if leb 128 first then some (codes "0|" ∷ []) else some []))

-- `%c` for the bytes other than 0.
unfoldable pub print_chars : Bytes → List Bytes
print_chars [] = []
print_chars (c ∷ s) = if c == 0 then print_chars s else (c ∷ []) ∷ print_chars s

-- `%02X` for each byte.
unfoldable pub print_hex : Bytes → List Bytes
print_hex [] = []
print_hex (c ∷ s) = (digit_char (c / 16 % 16) ∷ digit_char (c % 16) ∷ []) ∷ print_hex s

-- The bytes of a binary float, changed back to the format of the machine, the highest first.
unfoldable pub float_bytes : Bool → Bytes → Bytes
float_bytes wide [] = []
float_bytes wide (b ∷ s) =
    if wide then (if leb 128 b then (b - 128) ∷ s else map (λ c. 255 - c) (b ∷ s)) else b ∷ s

-- A binary float or double of `size` bytes, if its length is that.
unfoldable pub print_float : (Bytes → Bytes) → Bool → ℕ → Bytes → ℕ → Option (List Bytes)
print_float print wide size s len =
    let value = (do
      bytes ← read_bytes size s
      some ((print (float_bytes wide bytes) ++ codes "|") ∷ [])) in
    if len == size then value else some []

-- `%s` up to the next 0.
unfoldable pub print_string : Bytes → Option (List Bytes)
print_string s = do text ← until_zero s; some ((text ++ codes "|") ∷ [])

-- The branch for a LONG.
unfoldable pub print_long : Bytes → Option (List Bytes)
print_long s = do
  first ← get_elem? s 0
  if first == 0 then some (codes "NULL|" ∷ []) else print_string s

-- `PrintData`. `show_double` and `show_float` are what `%f` prints for the bytes, the highest first.
unfoldable pub print_data :
    (Bytes → Bytes) → (Bytes → Bytes) → Bool → ℕ → Bytes → ℕ → Option (List Bytes)
print_data show_double show_float wide utype s len =
    let chars = (do value ← read_bytes len s; some (print_chars value ++ codes "|" ∷ [])) in
    let raw = (do value ← read_bytes len s; some (print_hex value ++ codes "|" ∷ [])) in
    if len == 0
    then some (codes "NULL|" ∷ [])
    else (if utype == 0
        then print_string s
        else (if utype == 11 || utype == 208
            then some (codes "ROWID|" ∷ [])
            else (if utype == 1 || utype == 96
                then chars
                else (if utype == 101
                    then print_float show_double wide 8 s len
                    else (if utype == 100
                        then print_float show_float wide 4 s len
                        else (if utype == 182
                            then print_year_month s len
                            else (if utype == 183
                                then print_day_second s len
                                else (if utype == 2
                                    then print_number s len
                                    else (if utype == 12
                                        then print_date s
                                        else (if utype == 8 || utype == 24
                                            then print_long s
                                            else (if utype == 23
                                                then raw
                                                else (if utype == 180
                                                      || utype == 231
                                                      || utype == 181
                                                    then print_timestamp wide s len
                                                    else (if utype == 105
                                                        then some []
                                                        else print_string s)))))))))))))

-- The calls of `printreslut`.
unfoldable pub print_all : Bytes → List Bytes → Option Bytes
print_all sql_reslut [] = some sql_reslut
print_all sql_reslut (t ∷ ts) = do next ← printreslut sql_reslut t; print_all next ts

-- ===== src/Oracle/Strings.antt =====
-- `ParseStrbyLen`, `CheckValidChar` and `CheckSqlString` of OracleProxy/oraclefilter.c. A buffer is
-- the rest of the packet from a pointer on; reading behind it, or writing behind the end of the array
-- for the result, is `none`. The array is cleared by the caller.
use oscshell.Base.{
  ℕ, zero, suc, ◌+◌, Bool, true, false, ◌&&◌, ◌||◌, [], ◌∷◌, ◌++◌, Option, none, some,
  if◌then◌else◌, ◌>>=◌, take, drop, length, ltb, leb, ◌==◌,
}
use oscshell.Base.Int.{ℤ, pos, negsuc}
use oscshell.Base.Text.{Bytes, codes, str_eq}

-- What `ParseStrbyLen` leaves: the bytes written to `pszSubStr`, `*piSubStrLen`, the value returned,
-- and `oracleFlag`.
pub record Parsed : Type 0 where
  pub sub_str : Bytes
  pub sub_str_len : ℕ
  pub is_fe : ℤ
  pub oracle_flag : Bool

-- `n` is at most the `int` given.
unfoldable pub in_length : ℤ → ℕ → Bool
in_length (pos len) n = leb n len
in_length (negsuc len) n = false

-- The loop over the pieces of a string behind 0xfe. A round reads at least one byte.
unfoldable pub piece_loop : ℕ → ℕ → ℤ → Bool → Bytes → ℕ → Bytes → Option Parsed
piece_loop zero size buf_len flag written is_fe buf = none
piece_loop (suc rounds) size buf_len flag written is_fe [] = none
piece_loop (suc rounds) size buf_len flag written is_fe (ilen ∷ buf) =
    let rest =
      piece_loop rounds size buf_len flag (written ++ take ilen buf) (suc is_fe) (drop ilen buf) in
    if in_length buf_len (length written + ilen)
    then (if ilen == 0
        then some (record {
          sub_str = written;
          sub_str_len = length written;
          is_fe = pos (suc is_fe);
          oracle_flag = flag;
        })
        else (if leb ilen (length buf) && leb (length written + ilen) size then rest else none))
    else some (record { sub_str = written; sub_str_len = 0; is_fe = negsuc 0; oracle_flag = flag })

-- The text in front of the first 0.
unfoldable pub until_zero : Bytes → Option Bytes
until_zero [] = none
until_zero (c ∷ s) = do
  rest ← elim (c == 0) [ true ↦ some [] | false ↦ until_zero s ]
  some (if c == 0 then [] else c ∷ rest)

-- The branch for one length byte, which is copied with the string.
unfoldable pub parse_short : ℤ → Bool → ℕ → Bytes → Option Parsed
parse_short buf_len flag ilen buf =
    if in_length buf_len (suc ilen)
    then (if ilen == 0
        then some (record { sub_str = []; sub_str_len = 0; is_fe = pos 1; oracle_flag = flag })
        else (if leb ilen (suc (length buf))
            then some (record {
              sub_str = take ilen (ilen ∷ buf);
              sub_str_len = ilen;
              is_fe = pos 1;
              oracle_flag = flag;
            })
            else none))
    else some (record { sub_str = []; sub_str_len = 0; is_fe = negsuc 0; oracle_flag = flag })

unfoldable pub parse_terminated : ℕ → Bytes → Option Parsed
parse_terminated size buf = do
  s ← until_zero buf
  if ltb (length s) size
      then some (record { sub_str = s; sub_str_len = length s; is_fe = pos 1; oracle_flag = true })
      else none

unfoldable pub parse_first : ℕ → ℤ → Bool → Bytes → Option Parsed
parse_first size buf_len flag [] = none
parse_first size buf_len flag (c ∷ buf) =
    if c == 0xfe
    then piece_loop (suc (length buf)) size buf_len flag [] 1 buf
    else (if c == 0xff
        then some (record { sub_str = []; sub_str_len = 0; is_fe = pos 1; oracle_flag = flag })
        else (if flag then parse_terminated size (c ∷ buf) else parse_short buf_len flag c buf))

-- `ParseStrbyLen` for an array of `size` bytes.
unfoldable pub parse_strby_len : ℕ → Bool → Bytes → ℤ → Option Parsed
parse_strby_len size flag buf buf_len =
    if leb 6 (length buf)
    then parse_first size buf_len (str_eq (take 6 buf) (codes "Oracle") || flag) buf
    else none

-- ===== src/Oracle/Query.antt =====
-- The statement of a request: the text that `DecodeTnsData035e` of OracleProxy/oraclefilter.c puts
-- into `pszQueryStr`.
use oscshell.Base.{
  ℕ, zero, suc, ◌+◌, ◌-◌, Bool, ◌||◌, [], ◌∷◌, Option, none, some, if◌then◌else◌, ◌>>=◌, drop,
  length, ltb, leb, ◌==◌,
}
use oscshell.Base.Int.{ℤ, pos, negsuc}
use oscshell.Base.Text.{Bytes}
use oscshell.Oracle.Strings.{parse_strby_len}
use oscshell.Oracle.Places.{Client, first_place, find_fe40, place_by_length}

-- Size of `pszQueryStr`.
abbrev pub query_size : ℕ
query_size = 40960

-- The bytes written to `pszQueryStr`, `iQueryStrLen`, `i`, and `oracleFlag`.
pub record Query : Type 0 where
  pub query_str : Bytes
  pub query_str_len : ℕ
  pub place : ℕ
  pub oracle_flag : Bool

-- The bytes up to a 0, `n` at most.
unfoldable pub copied : ℕ → Bytes → Option Bytes
copied zero buf = some []
copied (suc n) [] = none
copied (suc n) (c ∷ s) = do
  rest ← (let more = copied n s in if c == 0 then some [] else more)
  some (if c == 0 then [] else c ∷ rest)

-- m - n for an `int`.
unfoldable pub int_minus : ℕ → ℕ → ℤ
int_minus m n = if leb n m then pos (m - n) else negsuc (n - m - 1)

-- The text behind 0xfe 0x40. `iQueryStrLen` is the index of its last byte.
unfoldable pub marked_query : Bool → Bytes → ℕ → ℕ → ℕ → Option Query
marked_query flag buf query_len mark i = do
  s ← copied (query_len - (mark + 2)) (drop (mark + 2) buf)
  if leb (length s) query_size
      then some
          (record { query_str = s; query_str_len = length s - 1; place = i; oracle_flag = flag })
      else none

unfoldable pub or_place : Option ℕ → ℕ → ℕ
or_place none i = i
or_place (some j) i = j

unfoldable pub parsed_query : Bool → Bytes → ℕ → ℕ → Option Query
parsed_query flag buf query_len i = do
  p ← parse_strby_len query_size flag (drop i buf) (int_minus query_len i)
  some (record {
    query_str = p.sub_str;
    query_str_len = p.sub_str_len;
    place = i;
    oracle_flag = p.oracle_flag;
  })

-- The text of the request in `buf`, for `query_len` bytes.
unfoldable pub query_of : Client → Bool → Bytes → ℕ → Option Query
query_of client flag buf query_len = do
  i ← first_place client buf
  mark ← find_fe40 (query_len - 1) 0 buf
  let by_length = do
    found ← place_by_length client buf query_len
    parsed_query flag buf query_len (or_place found i)
  if ltb 0 mark
      then marked_query flag buf query_len mark i
      else (if client.iversion == 9 || client.iversion == 10
          then by_length
          else parsed_query flag buf query_len i)

-- ===== src/Split.antt =====
-- `strsplit` and `FindDBTable` of DBRecord/DBoperate.c. A pointer into the text is the suffix that
-- it points at. `malloc` always succeeds here, so the return value -2 does not occur.
pub mod Cuts
pub mod Met
pub mod Concat
pub mod Tables
mod Tests
use oscshell.Base.{
  ℕ, zero, suc, ◌-◌, Bool, true, false, ◌&&◌, ◌||◌, List, [], ◌∷◌, ◌++◌, Option, none, some, ltb,
  ◌==◌, if◌then◌else◌, ◌>>=◌, length, take, drop,
}
use oscshell.Base.Int.{ℤ, is_neg, is_pos, is_zero}
use oscshell.Base.Text.{Bytes, codes, strstr, contains}

-- most_front_separator_start, most_front_separator_end and find_a_separator
pub record Front : Type 0 where
  pub start : Bytes
  pub stop : Bytes
  pub found : Bool

-- A separator counts only if it starts in front of those seen before.
update_front : Front → Bytes → Bytes → Front
update_front f separator_start separator =
    if ltb (length f.start) (length separator_start)
    then record {
      start = separator_start;
      stop = drop (length separator) separator_start;
      found = true;
    }
    else record f { found = true }

scan_separators : Bytes → List Bytes → Front → Front
scan_separators look [] f = f
scan_separators look (sep ∷ seps) f = elim (strstr look sep) [
  | none ↦ scan_separators look seps f
  | some separator_start ↦ scan_separators look seps (update_front f separator_start sep)
]

unfoldable pub next_separator : Bytes → List Bytes → Front
unfolding scan_separators update_front
next_separator look seps =
    scan_separators look seps (record { start = []; stop = []; found = false })

-- What one round puts into the result: the text in front of the separator, and the separator.
unfoldable pub round_pieces : ℤ → ℤ → Bytes → Front → List Bytes
round_pieces compress keep look f =
    (if ltb (length f.start) (length look)
      then take (length look - length f.start) look ∷ []
      else (if is_zero compress then [] ∷ [] else []))
    ++ (if is_pos keep then take (length f.start - length f.stop) f.start ∷ [] else [])

-- The return value and the pieces.
pub data SplitResult : Type 0 where
  refused : SplitResult
  pieces : ℕ → List Bytes → SplitResult

unfoldable pub split_loop : ℕ → Bytes → List Bytes → ℤ → ℤ → List Bytes → Bool → Option SplitResult
split_loop zero look seps compress keep result rtn = none
split_loop (suc rounds) [] seps compress keep result rtn =
    some (pieces (if rtn then 1 else 0) result)
split_loop (suc rounds) (c ∷ s) seps compress keep result rtn =
    let f = next_separator (c ∷ s) seps in
    split_loop rounds f.stop seps compress keep (result ++ round_pieces compress keep (c ∷ s) f)
      (rtn || f.found)

-- A separator is the empty text.
abbrev pub has_empty : List Bytes → Bool
has_empty [] = false
has_empty ([] ∷ seps) = true
has_empty ((c ∷ s) ∷ seps) = has_empty seps

abbrev pub is_nil {ℓ} : {A : Type ℓ} → List A → Bool
is_nil [] = true
is_nil (x ∷ xs) = false

-- `strlen + 1` rounds are enough.
unfoldable pub strsplit : Bytes → List Bytes → ℤ → ℤ → Option SplitResult
strsplit s seps compress keep =
    if is_nil s || is_nil seps || is_neg compress || is_neg keep || has_empty seps
    then some refused
    else split_loop (suc (length s)) s seps compress keep [] false

abbrev pub separators : List Bytes
separators = codes "SELECT" ∷ codes "INSERT" ∷ codes "UPDATE" ∷ codes "DELETE" ∷ []

-- The test of one piece and the piece behind it; both branches of the source are written out.
pair_matches : Bytes → Bytes → Bytes → Bytes → Bool
pair_matches cmd table piece next =
    if length piece == length cmd && contains piece cmd
    then contains next table
    else contains piece cmd && contains next table

unfoldable pub find_pair : Bytes → Bytes → List Bytes → Bool
unfolding pair_matches
find_pair cmd table [] = false
find_pair cmd table (piece ∷ []) = false
find_pair cmd table (piece ∷ (next ∷ rest)) =
    pair_matches cmd table piece next || find_pair cmd table (next ∷ rest)

table_in_result : Bytes → Bytes → Bytes → SplitResult → Bool
table_in_result sql cmd table refused = contains sql cmd && contains sql table
table_in_result sql cmd table (pieces rtn result) =
    if rtn == 1 then find_pair cmd table result else contains sql cmd && contains sql table

unfoldable pub find_db_table : Bytes → Bytes → Bytes → Option Bool
unfolding table_in_result
find_db_table sql cmd table = do
  result ← strsplit sql separators (ℤ.pos 1) (ℤ.pos 1)
  some (table_in_result sql cmd table result)

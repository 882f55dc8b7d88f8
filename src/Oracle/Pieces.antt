-- ===== src/Oracle/Pieces.antt =====
-- `ParseStrbyLen` reads back a string that is sent in pieces.
use oscshell.Base.{ℕ, Bool, List, [], ◌∷◌, ◌++◌, length}
use oscshell.Base.Int.{pos}
use oscshell.Base.Text.{Bytes}
use oscshell.Oracle.Strings.{Parsed}

-- A string of more than one byte length, as the protocol sends it: each piece behind its length, and
-- a 0 behind the last.
abbrev pub pieces_sent : List Bytes → Bytes
pieces_sent [] = 0 ∷ []
pieces_sent (p ∷ ps) = length p ∷ (p ++ pieces_sent ps)

abbrev pub joined : List Bytes → Bytes
joined [] = []
joined (p ∷ ps) = p ++ joined ps

abbrev answer : Bool → Bytes → ℕ → Parsed
answer flag text is_fe = record {
  sub_str = text;
  sub_str_len = length text;
  is_fe = pos is_fe;
  oracle_flag = flag;
}

-- ===== src/Split/Tests.antt =====
-- Runs of `strsplit` and `FindDBTable`, and the theorems at concrete statements.
use oscshell.Base.{ℕ, true, List, [], ◌∷◌, some, ◌≡◌, ◌↔◌, refl, flatten}
use oscshell.Base.Int.{pos}
use oscshell.Base.Text.{Bytes, codes, strstr}
use oscshell.Split.{
  pieces, strsplit, split_loop, next_separator, round_pieces, find_db_table, find_pair, separators,
}
use oscshell.Split.Concat.{flatten-strsplit}
use oscshell.Split.Tables.{Found, find_db_table_iff}

abbrev sql : Bytes
sql = codes "DELETE FROM T1; SELECT 1"

splits :
    strsplit sql separators (pos 1) (pos 1)
    ≡ some (pieces 1 (codes "DELETE" ∷ codes " FROM T1; " ∷ codes "SELECT" ∷ codes " 1" ∷ [] ∷ []))
unfolding strsplit split_loop next_separator round_pieces strstr
splits = refl

finds : find_db_table sql (codes "DELETE") (codes "T1") ≡ some true
unfolding find_db_table strsplit split_loop next_separator round_pieces strstr find_pair
finds = refl

flatten-strsplit_example :
    (rtn : ℕ) × (result : List Bytes) × (strsplit sql separators (pos 1) (pos 1)
      ≡ some (pieces rtn result))
    × (flatten result ≡ sql)
flatten-strsplit_example = flatten-strsplit sql separators (pos 1) (pos 1) (cc) (cc) refl refl refl

find_db_table_iff_example :
    (rtn : ℕ) × (result : List Bytes) × (strsplit sql separators (pos 1) (pos 1)
      ≡ some (pieces rtn result))
    × (flatten result ≡ sql)
    × ((find_db_table sql (codes "DELETE") (codes "T1") ≡ some true)
        ↔ Found sql (codes "DELETE") (codes "T1") result)
find_db_table_iff_example = find_db_table_iff sql (codes "DELETE") (codes "T1") (cc)

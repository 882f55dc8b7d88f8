-- ===== src/Database/Rows.antt =====
-- Rows of a reply of the database and their columns; `none` is a read through NULL or past the row.
use oscshell.Base.{ℕ, List, Option, none, some, ◌>>=◌, get_elem?}
use oscshell.Base.Int.{ℤ, atoi}
use oscshell.Base.Text.{Bytes}

-- A column is NULL or a text.
abbrev pub Row : Type 0
Row = List (Option Bytes)

-- mysql_query and mysql_store_result fail, or there are rows.
pub data Reply : Type 0 where
  query_failed : Reply
  store_failed : Reply
  rows : List Row → Reply

-- strcpy (…, row[i])
unfoldable pub text : Row → ℕ → Option Bytes
text row i = do column ← get_elem? row i; column

-- if (row[i] != NULL) strcpy (…, row[i])
unfoldable pub text_or : Bytes → Row → ℕ → Option Bytes
text_or old row i = do column ← get_elem? row i; elim column [ none ↦ some old | some s ↦ some s ]

-- atoi (row[i])
unfoldable pub number : Row → ℕ → Option ℤ
number row i = do s ← text row i; some (atoi s)

unfoldable pub number_or : ℤ → Row → ℕ → Option ℤ
number_or old row i = do
  column ← get_elem? row i
  elim column [ none ↦ some old | some s ↦ some (atoi s) ]

-- `decrypt` is `DecryptData`.
unfoldable pub secret : (Bytes → Bytes) → Row → ℕ → Option Bytes
secret decrypt row i = do s ← text row i; some (decrypt s)

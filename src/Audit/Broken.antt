-- ===== src/Audit/Broken.antt =====
-- A command that ends in a backslash, in the statement of `SetUseractivitylog`.
use oscshell.Base.{ℕ, false, none, ◌++◌, drop, ◌≡◌}
use oscshell.Base.Text.{Bytes, codes}
use oscshell.Audit.{UserActivityLog}
use oscshell.Audit.Statement.{Clock, print_values, log_values}
use oscshell.Audit.Sql.{read_values}

module _ (escape : ℕ → ℕ) where
  -- No number of values is read from the text.
  abbrev Rejects : Bytes → Type 0
  Rejects t = (n : ℕ) → read_values escape n t ≡ none

-- What follows the prompt.
abbrev rest_of : Clock → UserActivityLog → Bytes
unfolding log_values
rest_of c log = codes ", " ++ print_values (drop 8 (log_values false c log)) (codes ");")

-- ===== src/Config/File.antt =====
-- A file with the six settings, as it is read.
use oscshell.Base.{ℕ, ◌<◌, List, [], ◌∷◌, ◌++◌, some, length, ◌≡◌}
use oscshell.Base.Int.{pos}
use oscshell.Base.Text.{Bytes, Lacks, codes}
use oscshell.Base.Print.{print_int}
use oscshell.Des.Hex.{IsText}
use oscshell.Des.Password.{encrypt}
use oscshell.Config.{Settings, stored_password}

-- A value that a line can hold: not too long, without a colon and without a line end.
pub record IsValue (size : ℕ) (v : Bytes) : Type 0 where
  pub fits : length v < size
  pub no_colon : Lacks b':' v
  pub no_return : Lacks b'\r' v

abbrev pub line_of : Bytes → Bytes → Bytes
line_of keyword v = keyword ++ (v ++ b'\n' ∷ [])

-- A password of less than 16 bytes is encrypted as one block.
record Secret (random : ℕ → Bytes) (pwd : Bytes) : Type 0 where
  fits : length (encrypt random pwd) < 256
  stored : stored_password (encrypt random pwd) ≡ some pwd

-- The lines of a file, with the password encrypted.
abbrev pub file_of : (ℕ → Bytes) → Settings → ℕ → List Bytes
file_of random st port =
    ((codes "serverip:=" ++ st.serverip) ++ b'\n' ∷ [])
    ∷ ((codes "port:=" ++ print_int (pos port)) ++ b'\n' ∷ [])
    ∷ ((codes "username:=" ++ st.username) ++ b'\n' ∷ [])
    ∷ ((codes "userpwd:=" ++ encrypt random st.userpwd) ++ b'\n' ∷ [])
    ∷ ((codes "database:=" ++ st.database) ++ b'\n' ∷ [])
    ∷ ((codes "dbtype:=" ++ st.dbtype) ++ b'\n' ∷ [])
    ∷ []

-- Settings that a file can hold.
pub record IsStorable (st : Settings) : Type 0 where
  pub serverip : IsValue 32 st.serverip
  pub username : IsValue 50 st.username
  pub database : IsValue 50 st.database
  pub dbtype : IsValue 50 st.dbtype
  pub password : IsText st.userpwd
  pub some_password : 0 < length st.userpwd
  pub password_fits : length st.userpwd < 16

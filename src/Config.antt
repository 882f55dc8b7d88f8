-- ===== src/Config.antt =====
-- The files that say where the databases are: `GetMysqlConfig` and `Audit_GetMysqlConfig` of
-- DBRecord/DBoperate.c. A file is what `fgets` gives, call after call; `none` is a file that cannot be
-- opened. A result of `none` is an access outside an array.
pub mod Search
pub mod Digits
pub mod File
mod Tests
use oscshell.Base.{
  ℕ, zero, suc, ◌+◌, ◌-◌, Bool, true, false, ◌||◌, List, [], ◌∷◌, ◌++◌, Option, none, some,
  if◌then◌else◌, ◌>>=◌, take, drop, length, get_elem?, leb, ◌==◌,
}
use oscshell.Base.Int.{ℤ, pos, atoi}
use oscshell.Base.Text.{Bytes, codes, contains, strcpy, c_string}
use oscshell.Des.Password.{encrypts}

-- `serverip`, `port`, `username`, `userpwd`, `database` and `dbtype`.
pub record Settings : Type 0 where
  pub serverip : Bytes
  pub port : ℤ
  pub username : Bytes
  pub userpwd : Bytes
  pub database : Bytes
  pub dbtype : Bytes

-- A line without its end. The last two bytes are read whatever the length is, so that a line of less
-- than two bytes is read in front of the array.
unfoldable pub without_end : Bytes → Option Bytes
without_end s = do
  last ← get_elem? s (length s - 1)
  before ← (if leb 2 (length s) then get_elem? s (length s - 2) else none)
  some (
      if before == b'\r'
      then take (length s - 2) s
      else (if last == b'\n' || last == b'\r' then take (length s - 1) s else s))

-- A password of 20 bytes or more is stored encrypted.
unfoldable pub stored_password : Bytes → Option Bytes
stored_password s =
    let plain = strcpy 256 (c_string (encrypts s)) in if leb 20 (length s) then plain else some s

-- What one line sets. The value is what stands behind as many bytes as the keyword has, wherever in
-- the line the keyword stands.
unfoldable pub set_line : Settings → Bytes → Option Settings
set_line st line =
    let ip = (do v ← strcpy 32 (drop 10 line); some (record st { serverip = v })) in
    let number = (do v ← strcpy 10 (drop 6 line); some (record st { port = atoi v })) in
    let name = (do v ← strcpy 50 (drop 10 line); some (record st { username = v })) in
    let password = (do
      v ← strcpy 256 (drop 9 line)
      p ← stored_password v
      some (record st { userpwd = p })) in
    let base = (do v ← strcpy 50 (drop 10 line); some (record st { database = v })) in
    let kind = (do v ← strcpy 50 (drop 8 line); some (record st { dbtype = v })) in
    if contains line (codes "serverip:=")
    then ip
    else (if contains line (codes "port:=")
        then number
        else (if contains line (codes "username:=")
            then name
            else (if contains line (codes "userpwd:=")
                then password
                else (if contains line (codes "database:=")
                    then base
                    else (if contains line (codes "dbtype:=") then kind else some st)))))

unfoldable pub set_lines : Settings → List Bytes → Option Settings
set_lines st [] = some st
set_lines st (text ∷ texts) = do
  line ← without_end text
  changed ← set_line st line
  set_lines changed texts

-- The port and the kind of the database stay until a line sets them.
unfoldable pub cleared : Settings → Settings
cleared st = record st { serverip = []; username = []; userpwd = []; database = [] }

-- The value returned, and the settings.
unfoldable pub settings_of : Settings → Option (List Bytes) → Option (ℕ × Settings)
settings_of st none = some (1, st)
settings_of st (some texts) = do set ← set_lines st texts; some (0, set)

-- `GetMysqlConfig`
unfoldable pub get_mysql_config : Settings → Option (List Bytes) → Option (ℕ × Settings)
get_mysql_config st file = settings_of (cleared st) file

-- `Audit_GetMysqlConfig`: the second file counts if the first cannot be opened.
unfoldable pub audit_get_mysql_config :
    Settings → Option (List Bytes) → Option (List Bytes) → Option (ℕ × Settings)
audit_get_mysql_config st none file = settings_of (cleared st) file
audit_get_mysql_config st (some texts) file = settings_of (cleared st) (some texts)

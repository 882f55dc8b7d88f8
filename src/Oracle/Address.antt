-- ===== src/Oracle/Address.antt =====
-- The address of a server in a redirect packet, and the one that the client gets instead: parts of
-- `OracleFitler` of OracleProxy/oraclefilter.c, and `GetNewConnet`.
use oscshell.Base.{ℕ, [], ◌∷◌, ◌++◌, Option, none, some, if◌then◌else◌, ◌>>=◌, drop, ◌==◌}
use oscshell.Base.Int.{ℤ, atoi, is_pos}
use oscshell.Base.Print.{print_int}
use oscshell.Base.Text.{Bytes, codes, strstr, strcpy}

-- `sznewHost` and `inewPort`.
pub record Address : Type 0 where
  pub new_host : Bytes
  pub new_port : ℤ

-- The text in front of the first `c`, or all of it.
unfoldable pub cut_at : ℕ → Bytes → Bytes
cut_at c [] = []
cut_at c (d ∷ s) = if d == c then [] else d ∷ cut_at c s

-- What follows a mark of 6 bytes, up to a closing parenthesis. All that follows the mark is copied
-- into an array of 256 bytes first.
unfoldable pub field_at : Option Bytes → Option (Option Bytes)
field_at none = some none
field_at (some s) = do t ← strcpy 256 (drop 6 s); some (some (cut_at b')' t))

unfoldable pub host_or : Address → Option Bytes → Address
host_or a none = a
host_or a (some host) = record a { new_host = host }

unfoldable pub port_or : Address → Option Bytes → Address
port_or a none = a
port_or a (some port) = record a { new_port = atoi port }

-- The host and the port of a connect string.
unfoldable pub read_address : Address → Bytes → Option Address
read_address a content = do
  host ← field_at (strstr content (codes "(HOST="))
  port ← field_at (strstr content (codes "(PORT="))
  some (port_or (host_or a host) port)

-- The connect string with the address of the proxy, for an array of 1024 bytes.
unfoldable pub connect_text : Bytes → ℤ → Bytes
connect_text host port =
    codes "(ADDRESS=(PROTOCOL=tcp)(HOST="
    ++ (host ++ (codes ")(PORT=" ++ (print_int port ++ codes "))")))

-- `GetNewConnet`: the host and port, if there is a new one.
unfoldable pub get_new_connet : Address → Option (Bytes × ℤ)
get_new_connet a = if is_pos a.new_port then some (a.new_host, a.new_port) else none

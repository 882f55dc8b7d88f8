-- ===== src/Config/Tests.antt =====
-- A settings file that is written and read back.
use oscshell.Base.{[], ◌∷◌}
use oscshell.Base.Int.{pos}
use oscshell.Base.Text.{Bytes, codes}
use oscshell.Config.{Settings}

abbrev random : Bytes
random = 1 ∷ 2 ∷ 3 ∷ 4 ∷ 5 ∷ 6 ∷ 7 ∷ 8 ∷ []

abbrev unset : Settings
unset = record {
  serverip = [];
  port = pos 0;
  username = [];
  userpwd = [];
  database = [];
  dbtype = [];
}

abbrev local : Settings
local = record {
  serverip = codes "192.168.1.10";
  port = pos 3306;
  username = codes "audit";
  userpwd = codes "secret";
  database = codes "oscshell";
  dbtype = codes "mysql";
}

-- ===== src/Audit/Tests.antt =====
-- A recorded command, and the theorem at it.
use oscshell.Base.{
  ◌<◌, Bool, true, false, ◌++◌, ◌==◌, List, [], ◌∷◌, some, map, length, ◌≡◌, ◌↔◌, Any, refl, arith,
  if◌then◌else◌,
}
use oscshell.Base.Int.{pos}
use oscshell.Base.Text.{Bytes, Lacks, codes, strstr}
use oscshell.Policy.{Policy}
use oscshell.Database.Cleared.{no_auth_access_res}
use oscshell.Access.{no_policy}
use oscshell.Access.Session.{ProxyInfo}
use oscshell.Access.Sample.{session}
use oscshell.Audit.{UserActivityLog, cleaned, mark_loop, recorded, insert_useractivitylog}
use oscshell.Audit.Marks.{quoted}
use oscshell.Audit.Cut.{cleaned_cut}
use oscshell.Audit.Levels.{Refuses}
use oscshell.Audit.Record.{insert_useractivitylog_records}
use oscshell.Audit.Statement.{
  Clock, print_value, print_values, oper_date, clean_prefix, date_value, insert_into, row_id,
  log_values, set_useractivitylog,
}
use oscshell.Audit.Statement
use oscshell.Base.Print.{decimal, print_int, zero_digits, print_padded}
use oscshell.Audit.Sql.{IsPlain, read_insert}
use oscshell.Audit.Rows.{IsRow, set_useractivitylog-IsRow}

abbrev drop_policy : Policy
drop_policy = record no_policy {
  ccl = record { pr_command = codes "DROP"; pr_type = pos 1; pr_table = codes "T1" } ∷ [];
}

abbrev line : Bytes
line = codes "drop table 't1'?"

abbrev audited : ProxyInfo
audited = record session {
  auth = record no_auth_access_res { pr_audit_flag = pos 1; pr_cmd_flag = pos 1 };
  line_out_buffer = line;
  policy = drop_policy ∷ [];
}

abbrev has_mark : Bytes → Bool
has_mark [] = false
has_mark (c ∷ s) = if c == 63 then true else has_mark s

no_mark : (s : Bytes) → has_mark s ≡ false → Lacks 63 s
no_mark [] h = tt
no_mark (c ∷ s) h = (λ e. ground arith, no_mark s (ground arith))

insert_useractivitylog_records_example :
    (out : ProxyInfo) × (log : UserActivityLog) × (cmd : Bytes) × (raised : Bool)
    × (insert_useractivitylog 8 4096 audited ≡ some (out, some log))
    × (cmd ≡ mark_loop (length line) 8 0 (map quoted line))
    × (log.pr_command ≡ recorded 4096 cmd)
    × Lacks b'\'' log.pr_command
    × (out.level ≡ (if raised then pos 1 else pos 0))
    × ((raised ≡ true) ↔ Any (Refuses cmd (pos 1)) (drop_policy ∷ []))
insert_useractivitylog_records_example =
    insert_useractivitylog_records 8 4096 audited (omega arith) (omega arith) (omega arith, tt) refl

cleaned_cut_example :
    cleaned 8 (codes "select 1" ++ (63 ∷ codes "; drop table t1"))
    ≡ some (map quoted (codes "select 1") ++ 32 ∷ [])
cleaned_cut_example =
    cleaned_cut 8 1 (codes "select 1") (codes "; drop table t1") (omega arith) refl
      (no_mark (codes "select 1") refl) (omega arith)

abbrev clock : Clock
clock = record {
  year = 2012;
  month = 3;
  day = 9;
  hour = 8;
  minute = 5;
  second = 0;
  first_rand = 1804289383;
  second_rand = 846930886;
  tv_sec = 1331251500;
  tv_usec = 250000;
}

abbrev list_log : UserActivityLog
list_log = record {
  pr_id = [];
  pr_client_addr = codes "10.0.0.7";
  pr_proxy_addr = codes "10.0.0.1";
  pr_res_id = codes "4";
  pr_res_name = codes "db4";
  pr_res_addr = codes "10.0.0.4";
  pr_command = codes "ls -l";
  pr_cmd_prefix = codes "$";
  pr_org_id = [];
  pr_user_id = codes "u1";
  pr_user_name = codes "Ann";
  pr_uid = codes "ann";
  pr_account_no = codes "root";
  pr_oper_date = [];
  pr_session_id = codes "77";
  pr_level = pos 0;
  pr_access_type = pos 1;
}

statement_fits :
    length (insert_into (codes "pr_useractivitylog") (log_values true clock list_log)) < 1024
unfolding insert_into print_values print_value log_values row_id oper_date clean_prefix date_value
    print_int decimal print_padded zero_digits strstr
statement_fits = omega arith

plain_text : IsPlain (codes "10.0.0.7")
plain_text = record { no_quote = omega arith; no_backslash = omega arith }

set_useractivitylog-IsRow_example :
    (sql : Bytes) × (row : List Statement.Value) × (set_useractivitylog true clock list_log
      ≡ some (sql, row_id clock))
    × (read_insert (λ c. c) (codes "pr_useractivitylog") sql ≡ some row)
    × IsRow true clock list_log row
set_useractivitylog-IsRow_example =
    set_useractivitylog-IsRow (λ c. c) true clock list_log
      (record {
        client_addr = plain_text;
        proxy_addr = record { no_quote = omega arith; no_backslash = omega arith };
        res_id = record { no_quote = omega arith; no_backslash = omega arith };
        res_name = record { no_quote = omega arith; no_backslash = omega arith };
        res_addr = record { no_quote = omega arith; no_backslash = omega arith };
        command = record { no_quote = omega arith; no_backslash = omega arith };
        cmd_prefix = record { no_quote = omega arith; no_backslash = omega arith };
        user_id = record { no_quote = omega arith; no_backslash = omega arith };
        user_name = record { no_quote = omega arith; no_backslash = omega arith };
        uid = record { no_quote = omega arith; no_backslash = omega arith };
        account_no = record { no_quote = omega arith; no_backslash = omega arith };
        session_id = record { no_quote = omega arith; no_backslash = omega arith };
      })
      statement_fits

-- "dir c:\\" at the prompt "$".
abbrev dir_log : UserActivityLog
dir_log = record list_log { pr_command = codes "dir c:" ++ b'\\' ∷ [] }

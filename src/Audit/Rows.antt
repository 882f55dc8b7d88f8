-- ===== src/Audit/Rows.antt =====
-- The rows that the statements of the audit log insert.
use oscshell.Base.{ℕ, ◌<◌, Bool, List, some, length, get_elem?, ◌≡◌, refl, ◌++◌}
use oscshell.Base.Text.{Bytes, codes, strcpy_fits}
use oscshell.Base.Print.{print_int}
use oscshell.Audit.{UserActivityLog}
use oscshell.Audit.Statement.{
  Clock, Value, null, quoted, insert_into, row_id, oper_date, clean_prefix, date_value, log_values,
  set_useractivitylog,
}
use oscshell.Audit.Sql.{read_insert, read_insert-insert_into}
use oscshell.Audit.Plain.{IsPlainLog, IsPlain-log_values}

-- The columns of a row of pr_useractivitylog.
pub record IsRow (is_oracle : Bool) (c : Clock) (log : UserActivityLog) (row : List Value)
    : Type 0 where
  pub id : get_elem? row 0 ≡ some (quoted (row_id c))
  pub client_addr : get_elem? row 1 ≡ some (quoted log.pr_client_addr)
  pub proxy_addr : get_elem? row 2 ≡ some (quoted log.pr_proxy_addr)
  pub res_id : get_elem? row 3 ≡ some (quoted log.pr_res_id)
  pub res_name : get_elem? row 4 ≡ some (quoted log.pr_res_name)
  pub res_addr : get_elem? row 5 ≡ some (quoted log.pr_res_addr)
  pub command : get_elem? row 6 ≡ some (quoted log.pr_command)
  pub cmd_prefix : get_elem? row 7 ≡ some (quoted (clean_prefix log.pr_cmd_prefix ++ codes " "))
  pub org_id : get_elem? row 8 ≡ some (null)
  pub org_name : get_elem? row 9 ≡ some (null)
  pub user_id : get_elem? row 10 ≡ some (quoted log.pr_user_id)
  pub user_name : get_elem? row 11 ≡ some (quoted log.pr_user_name)
  pub uid : get_elem? row 12 ≡ some (quoted log.pr_uid)
  pub account_no : get_elem? row 13 ≡ some (quoted log.pr_account_no)
  pub oper_date : get_elem? row 14 ≡ some (date_value is_oracle (oper_date c))
  pub session_id : get_elem? row 15 ≡ some (quoted log.pr_session_id)
  pub level : get_elem? row 16 ≡ some (quoted (print_int log.pr_level))
  pub access_type : get_elem? row 17 ≡ some (quoted (print_int log.pr_access_type))
  pub no_more : length row ≡ 18

-- For a record in which no text has a quote or a backslash, and whose statement fits its array, the
-- statement that `SetUseractivitylog` writes is read, by either kind of database, as one row of 18
-- columns: the fields of the record in their places, with the id and the time of the clock.
pub set_useractivitylog-IsRow :
    (escape : ℕ → ℕ) (is_oracle : Bool) (c : Clock) (log : UserActivityLog)
    → IsPlainLog log
    → length (insert_into (codes "pr_useractivitylog") (log_values is_oracle c log)) < 1024
    → (sql : Bytes) × (row : List Value) × (set_useractivitylog is_oracle c log
        ≡ some (sql, row_id c))
      × (read_insert escape (codes "pr_useractivitylog") sql ≡ some row)
      × IsRow is_oracle c log row
unfolding set_useractivitylog log_values
set_useractivitylog-IsRow escape is_oracle c log p fits =
    let sql = insert_into (codes "pr_useractivitylog") (log_values is_oracle c log) in
    (
      sql,
      log_values is_oracle c log,
      rw (strcpy_fits 1024 sql fits) refl,
      read_insert-insert_into escape (codes "pr_useractivitylog") _ _
          (IsPlain-log_values is_oracle c log p),
      record {
        id = refl;
        client_addr = refl;
        proxy_addr = refl;
        res_id = refl;
        res_name = refl;
        res_addr = refl;
        command = refl;
        cmd_prefix = refl;
        org_id = refl;
        org_name = refl;
        user_id = refl;
        user_name = refl;
        uid = refl;
        account_no = refl;
        oper_date = refl;
        session_id = refl;
        level = refl;
        access_type = refl;
        no_more = refl;
      },
    )

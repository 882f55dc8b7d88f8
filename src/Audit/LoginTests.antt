-- ===== src/Audit/LoginTests.antt =====
-- A login, its end, and a refused exchange of users.
use oscshell.Base.{
  ◌≤◌, ◌<◌, true, false, [], ◌∷◌, List, none, some, All, length, get_elem?, ◌≡◌, refl, arith,
}
use oscshell.Base.Int.{pos}
use oscshell.Base.Text.{Bytes, codes, strstr}
use oscshell.Base.Print.{decimal, print_int, zero_digits, print_padded}
use oscshell.Database.Rows.{rows}
use oscshell.Database.Cleared.{no_auth_access_res}
use oscshell.Access.Session.{ProxyInfo}
use oscshell.Access.Sample.{session}
use oscshell.Access.Run.{call, asked, granted_info, config_granted}
use oscshell.Audit.Statement.{
  Clock, Value, quoted, print_value, print_values, print_tight, insert_into, row_id, oper_date,
  clean_prefix, date_value, log_values,
}
use oscshell.Audit.Login.{
  AuditDatabase, statement, login_values, login_statement, login_log, set_loginlog, create_loginlog,
}
use oscshell.Audit.Exchange.{exchange_log, insert_stop_exchange_user_info}
use oscshell.Audit.Sql.{read_insert}
use oscshell.Audit.Logins.{IsLoginRow, create_loginlog-IsLoginRow}
use oscshell.Audit.Session.{Process, Answer, LoginCall, with_login, get_config_logged, answers}
use oscshell.Audit.OneLogin.{HasLogin, sent_by, answers_one_login}
use oscshell.Audit.Refused.{exchange_text, insert_stop_exchange_user_info_row}

abbrev noon : Clock
noon = record {
  year = 2016;
  month = 7;
  day = 14;
  hour = 12;
  minute = 0;
  second = 9;
  first_rand = 383;
  second_rand = 886;
  tv_sec = 1468490409;
  tv_usec = 20;
}

abbrev audit_database : AuditDatabase
audit_database = record {
  is_mysql = true;
  connects = true;
  has_sock = true;
  runs = λ sql. true;
  reply = λ sql. rows [];
  main_reply = λ sql. rows [];
  other_set_loginlog = λ log. none;
  other_reflash_loginlog = λ id kind. none;
}

abbrev login : ProxyInfo
login = record session {
  auth = record no_auth_access_res {
    pr_id = codes "12";
    pr_uid = codes "ann";
    pr_account_no = codes "root";
    pr_res_addr = codes "10.0.0.4";
    pr_audit_flag = pos 1;
  };
  loginlog_id = codes "120009383886";
}

login_fits : length (login_statement noon (login_log (pos 1022) login)) < 1024
unfolding login_statement login_values login_log print_values print_tight print_value row_id
    oper_date print_int decimal print_padded zero_digits
login_fits = omega arith

create_loginlog-IsLoginRow_example :
    (out : ProxyInfo) × (sql : Bytes) × (row : List Value) × (create_loginlog audit_database noon
        (pos 1022)
        login
      ≡ some (out, statement sql ∷ []))
    × (read_insert (λ c. c) (codes "pr_loginlog") sql ≡ some row)
    × IsLoginRow noon (pos 1022) login.auth out row
create_loginlog-IsLoginRow_example =
    create_loginlog-IsLoginRow (λ c. c) audit_database noon (pos 1022) login
      (record {
        uid = record { no_quote = omega arith; no_backslash = omega arith };
        user_name = record { no_quote = omega arith; no_backslash = omega arith };
        account_no = record { no_quote = omega arith; no_backslash = omega arith };
        client_addr = record { no_quote = omega arith; no_backslash = omega arith };
        res_addr = record { no_quote = omega arith; no_backslash = omega arith };
        res_id = record { no_quote = omega arith; no_backslash = omega arith };
        res_name = record { no_quote = omega arith; no_backslash = omega arith };
        res_type = record { no_quote = omega arith; no_backslash = omega arith };
        ap_id = record { no_quote = omega arith; no_backslash = omega arith };
        proxy_addr = record { no_quote = omega arith; no_backslash = omega arith };
        auth_id = record { no_quote = omega arith; no_backslash = omega arith };
        proxy_host = record { no_quote = omega arith; no_backslash = omega arith };
        cooperator = record { no_quote = omega arith; no_backslash = omega arith };
        access_memo = record { no_quote = omega arith; no_backslash = omega arith };
      })
      refl refl refl login_fits

refused_fits :
    length (
      insert_into
        (codes "pr_useractivitylog")
        (log_values false noon (exchange_log login (exchange_text login))))
    < 1024
unfolding insert_into print_values print_value log_values row_id oper_date clean_prefix date_value
    exchange_log print_int decimal print_padded zero_digits strstr
refused_fits = omega arith

insert_stop_exchange_user_info_row_example :
    (out : ProxyInfo) × (sql : Bytes) × (row : List Value) × (insert_stop_exchange_user_info false
        noon login
      ≡ some (out, some sql))
    × (read_insert (λ c. c) (codes "pr_useractivitylog") sql ≡ some row)
    × (get_elem? row 6 ≡ some (quoted (codes "username:root")))
    × (get_elem? row 7 ≡ some (quoted (codes "prevent exchange user! ")))
    × (get_elem? row 15 ≡ some (quoted (codes "120009383886")))
    × (get_elem? row 16 ≡ some (quoted (codes "1")))
    × (out.cmd ≡ [])
    × (out.precmd ≡ [])
    × (out.line_out_buffer ≡ [])
unfolding exchange_log
insert_stop_exchange_user_info_row_example =
    insert_stop_exchange_user_info_row (λ c. c) false noon login refl (omega arith)
      (record {
        client_addr = record { no_quote = omega arith; no_backslash = omega arith };
        proxy_addr = record { no_quote = omega arith; no_backslash = omega arith };
        res_id = record { no_quote = omega arith; no_backslash = omega arith };
        res_name = record { no_quote = omega arith; no_backslash = omega arith };
        res_addr = record { no_quote = omega arith; no_backslash = omega arith };
        command = record { no_quote = omega arith; no_backslash = omega arith };
        cmd_prefix = record { no_quote = omega arith; no_backslash = omega arith };
        user_id = record { no_quote = omega arith; no_backslash = omega arith };
        user_name = record { no_quote = omega arith; no_backslash = omega arith };
        uid = record { no_quote = omega arith; no_backslash = omega arith };
        account_no = record { no_quote = omega arith; no_backslash = omega arith };
        session_id = record { no_quote = omega arith; no_backslash = omega arith };
      })
      refused_fits

abbrev request : LoginCall
request = record {
  connected = true;
  call = call;
  username = some asked;
  info = session;
  now = noon;
  client_port = pos 1022;
}

abbrev fresh : Process
fresh = record { is_loginlog = false; loginlog_id = [] }

-- The database of the audit is another one.
abbrev other_database : AuditDatabase
other_database = record audit_database {
  is_mysql = false;
  other_set_loginlog = λ log. some (0, codes "77");
}

abbrev answer_with : Answer
answer_with = record {
  process = record { is_loginlog = true; loginlog_id = codes "77" };
  info = record granted_info { loginlog_id = codes "77" };
  code = 1;
  sent = [];
}

both_granted :
    answers other_database fresh (request ∷ request ∷ []) ≡ some (answer_with ∷ answer_with ∷ [])
unfolding answers get_config_logged with_login create_loginlog set_loginlog
both_granted = rw config_granted refl

answers_one_login_example :
    (id : Bytes) × All (HasLogin id) (answer_with ∷ answer_with ∷ [])
    × (length (sent_by (answer_with ∷ answer_with ∷ [])) ≤ 1)
answers_one_login_example =
    answers_one_login other_database fresh (request ∷ request ∷ []) (answer_with ∷ answer_with ∷ [])
      refl both_granted

-- ===== src/Audit/Login.antt =====
-- The log of logins: `SetLoginlog`, `CreateLoginlog`, `SetAuth` and
-- `SetAuthMessage` of DBRecord/DBoperate.c. `none` is a write past the end of an array.
use oscshell.Base.{ℕ, Bool, ◌&&◌, List, [], ◌∷◌, ◌++◌, Option, some, if◌then◌else◌, ◌>>=◌}
use oscshell.Base.Int.{ℤ, pos}
use oscshell.Base.Text.{Bytes, codes, strcpy}
use oscshell.Base.Print.{print_int}
use oscshell.Database.Rows.{Reply}
use oscshell.Access.Session.{ProxyInfo}
use oscshell.Audit.Statement.{
  Clock, Value, quoted, null, print_value, print_values, print_tight, row_id, oper_date,
}

-- `Pr_Loginlog`
pub record LoginLog : Type 0 where
  pub pr_uid : Bytes
  pub pr_user_name : Bytes
  pub pr_account_no : Bytes
  pub pr_client_addr : Bytes
  pub pr_res_addr : Bytes
  pub pr_res_id : Bytes
  pub pr_res_name : Bytes
  pub pr_res_type : Bytes
  pub pr_ap_id : Bytes
  pub pr_access_type : ℤ
  pub pr_proxy_addr : Bytes
  pub pr_port : ℤ
  pub pr_video_flag : ℤ
  pub pr_cmd_flag : ℤ
  pub pr_log_record : Bytes
  pub pr_status : ℤ
  pub pr_node_flag : ℤ
  pub pr_authaccessresid : Bytes
  pub pr_proxy_host : Bytes
  pub pr_cooperator : Bytes
  pub pr_access_memo : Bytes

-- The database of the audit, and what it answers to a statement. `connects` is the test of what
-- `Audit_ConnectMysql` returns, and `has_sock` that of `audit_mysql_sock`.
pub record AuditDatabase : Type 0 where
  pub is_mysql : Bool
  pub connects : Bool
  pub has_sock : Bool
  pub runs : Bytes → Bool
  pub reply : Bytes → Reply
  -- the reply of the other database, which has the protocols
  pub main_reply : Bytes → Reply
  pub other_set_loginlog : LoginLog → Option (ℕ × Bytes)
  pub other_reflash_loginlog : Bytes → ℤ → Option ℕ

-- What goes out: a statement, a query, or a message for the system log.
pub data Sent : Type 0 where
  statement : Bytes → Sent
  select : Bytes → Sent
  message : Bytes → Sent

unfoldable pub login_values : Clock → LoginLog → List Value
login_values c log =
    quoted (row_id c)
    ∷ quoted log.pr_uid
    ∷ quoted log.pr_user_name
    ∷ quoted []
    ∷ quoted []
    ∷ quoted log.pr_account_no
    ∷ quoted log.pr_client_addr
    ∷ quoted log.pr_res_addr
    ∷ quoted log.pr_res_id
    ∷ quoted log.pr_res_name
    ∷ quoted log.pr_res_type
    ∷ quoted log.pr_ap_id
    ∷ quoted (print_int log.pr_access_type)
    ∷ quoted (oper_date c)
    ∷ null
    ∷ quoted (oper_date c)
    ∷ quoted log.pr_proxy_addr
    ∷ quoted (print_int log.pr_port)
    ∷ quoted (print_int log.pr_video_flag)
    ∷ quoted (print_int log.pr_cmd_flag)
    ∷ quoted log.pr_log_record
    ∷ quoted (print_int log.pr_status)
    ∷ quoted (print_int log.pr_node_flag)
    ∷ null
    ∷ []

unfoldable pub login_statement : Clock → LoginLog → Bytes
login_statement c log =
    codes "INSERT INTO pr_loginlog VALUES ("
    ++ print_values (login_values c log) (
        print_tight (
          quoted log.pr_authaccessresid
          ∷ quoted log.pr_proxy_host
          ∷ quoted log.pr_cooperator
          ∷ quoted log.pr_access_memo
          ∷ []))

-- `SetLoginlog`: the value returned, the id, and what is sent. What the function for another database
-- sends is left out.
unfoldable pub set_loginlog : AuditDatabase → Clock → LoginLog → Option (ℕ × Bytes × List Sent)
set_loginlog db c log =
    let mysql = (do
      sql ← strcpy 1024 (login_statement c log)
      some (
          if db.connects && db.has_sock
          then ((if db.runs sql then 0 else 1), row_id c, statement sql ∷ [])
          else (0, row_id c, []))) in
    let other = (do (code, id) ← db.other_set_loginlog log; some (code, id, [])) in
    if db.is_mysql then mysql else other

-- The record that `CreateLoginlog` fills.
unfoldable pub login_log : ℤ → ProxyInfo → LoginLog
login_log client_port info = record {
  pr_uid = info.auth.pr_uid;
  pr_user_name = info.auth.pr_user_name;
  pr_account_no = info.auth.pr_account_no;
  pr_client_addr = info.auth.pr_client_addr;
  pr_res_addr = info.auth.pr_res_addr;
  pr_res_id = info.auth.pr_res_id;
  pr_res_name = info.auth.pr_res_name;
  pr_res_type = info.auth.pr_res_type;
  pr_ap_id = info.auth.pr_ap_id;
  pr_access_type = info.auth.pr_access_type;
  pr_proxy_addr = info.auth.pr_proxy_addr;
  pr_port = client_port;
  pr_video_flag = info.auth.pr_audit_type;
  pr_cmd_flag = info.auth.pr_audit_flag;
  pr_log_record = [];
  pr_status = pos 1;
  pr_node_flag = pos 1;
  pr_authaccessresid = info.auth.pr_id;
  pr_proxy_host = info.auth.pr_proxy_host;
  pr_cooperator = info.auth.pr_cooperator;
  pr_access_memo = info.auth.pr_access_memo;
}

-- `CreateLoginlog`: the session with the id of its login, and what is sent. The result of
-- `SetLoginlog` is not looked at.
unfoldable pub create_loginlog :
    AuditDatabase → Clock → ℤ → ProxyInfo → Option (ProxyInfo × List Sent)
create_loginlog db c client_port info = do
  (code, id, sent) ← set_loginlog db c (login_log client_port info)
  some (record info { loginlog_id = id }, sent)

-- `SetAuthMessage`
unfoldable pub set_auth_message :
    (Bytes → Bool) → Bytes → Bytes → Bytes → Bytes → Bytes → Bytes → Bytes → Option (ℕ × Sent)
set_auth_message runs id uid user_name res_addr account_no client_addr logged = do
  sql ← strcpy 1024 (
      codes
        "insert into pr_authmessage(pr_id,pr_uid,pr_userName,pr_resAddr,pr_accountNo,pr_clientAddr,"
      ++ (codes "pr_logInfo)                                      values ("
          ++ (print_value (quoted id)
              ++ (b','
                  ∷ (print_value (quoted uid)
                      ++ (b','
                          ∷ (print_value (quoted user_name)
                              ++ (b','
                                  ∷ (print_value (quoted res_addr)
                                      ++ (b','
                                          ∷ (print_value (quoted account_no)
                                              ++ (b','
                                                  ∷ (print_value (quoted client_addr)
                                                      ++ (b','
                                                          ∷ (print_value (quoted logged)
                                                            ++ codes ")")))))))))))))))
  some ((if runs sql then 0 else 2), statement sql)

-- `SetAuth`, which returns before it does anything.
unfoldable pub set_auth : Bool → ℕ → ℕ
set_auth is_mysql other_code = if is_mysql then 0 else other_code

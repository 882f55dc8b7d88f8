-- ===== src/Audit/Logins.antt =====
-- The row that `CreateLoginlog` inserts.
use oscshell.Base.{ℕ, ◌<◌, true, List, [], ◌∷◌, ◌++◌, some, length, get_elem?, ◌≡◌, refl}
use oscshell.Base.Int.{ℤ, pos}
use oscshell.Base.Text.{Bytes, codes, strcpy_fits}
use oscshell.Base.Print.{print_int, decimal}
use oscshell.Database.Records.{AuthAccessRes}
use oscshell.Access.Session.{ProxyInfo}
use oscshell.Audit.Statement.{Clock, Value, quoted, null, row_id, oper_date}
use oscshell.Audit.Login.{
  AuditDatabase, statement, login_values, login_statement, set_loginlog, login_log, create_loginlog,
}
use oscshell.Audit.Sql.{IsPlain, read_insert, read_insert-print_values}
use oscshell.Audit.Plain.{IsPlain-row_id, IsPlain-print_int, IsPlain-oper_date}

-- The columns of a row of pr_loginlog.
pub record IsLoginRow (c : Clock) (client_port : ℤ) (a : AuthAccessRes) (out : ProxyInfo)
    (row : List Value) : Type 0 where
  pub id : get_elem? row 0 ≡ some (quoted out.loginlog_id)
  pub uid : get_elem? row 1 ≡ some (quoted a.pr_uid)
  pub user_name : get_elem? row 2 ≡ some (quoted a.pr_user_name)
  pub org_id : get_elem? row 3 ≡ some (quoted [])
  pub org_name : get_elem? row 4 ≡ some (quoted [])
  pub account_no : get_elem? row 5 ≡ some (quoted a.pr_account_no)
  pub client_addr : get_elem? row 6 ≡ some (quoted a.pr_client_addr)
  pub res_addr : get_elem? row 7 ≡ some (quoted a.pr_res_addr)
  pub res_id : get_elem? row 8 ≡ some (quoted a.pr_res_id)
  pub res_name : get_elem? row 9 ≡ some (quoted a.pr_res_name)
  pub res_type : get_elem? row 10 ≡ some (quoted a.pr_res_type)
  pub ap_id : get_elem? row 11 ≡ some (quoted a.pr_ap_id)
  pub access_type : get_elem? row 12 ≡ some (quoted (print_int a.pr_access_type))
  pub login_date : get_elem? row 13 ≡ some (quoted (oper_date c))
  pub login_out_date : get_elem? row 14 ≡ some (null)
  pub on_line_time : get_elem? row 15 ≡ some (quoted (oper_date c))
  pub proxy_addr : get_elem? row 16 ≡ some (quoted a.pr_proxy_addr)
  pub port : get_elem? row 17 ≡ some (quoted (print_int client_port))
  pub video_flag : get_elem? row 18 ≡ some (quoted (print_int a.pr_audit_type))
  pub cmd_flag : get_elem? row 19 ≡ some (quoted (print_int a.pr_audit_flag))
  pub log_record : get_elem? row 20 ≡ some (quoted [])
  pub status : get_elem? row 21 ≡ some (quoted (codes "1"))
  pub node_flag : get_elem? row 22 ≡ some (quoted (codes "1"))
  pub audit_user : get_elem? row 23 ≡ some (null)
  pub auth_id : get_elem? row 24 ≡ some (quoted a.pr_id)
  pub proxy_host : get_elem? row 25 ≡ some (quoted a.pr_proxy_host)
  pub cooperator : get_elem? row 26 ≡ some (quoted a.pr_cooperator)
  pub access_memo : get_elem? row 27 ≡ some (quoted a.pr_access_memo)
  pub no_more : length row ≡ 28

-- No text that goes into the row has a quote or a backslash.
pub record IsPlainAuth (a : AuthAccessRes) : Type 0 where
  pub uid : IsPlain a.pr_uid
  pub user_name : IsPlain a.pr_user_name
  pub account_no : IsPlain a.pr_account_no
  pub client_addr : IsPlain a.pr_client_addr
  pub res_addr : IsPlain a.pr_res_addr
  pub res_id : IsPlain a.pr_res_id
  pub res_name : IsPlain a.pr_res_name
  pub res_type : IsPlain a.pr_res_type
  pub ap_id : IsPlain a.pr_ap_id
  pub proxy_addr : IsPlain a.pr_proxy_addr
  pub auth_id : IsPlain a.pr_id
  pub proxy_host : IsPlain a.pr_proxy_host
  pub cooperator : IsPlain a.pr_cooperator
  pub access_memo : IsPlain a.pr_access_memo

IsPlain-nil : IsPlain []
IsPlain-nil = record { no_quote = tt; no_backslash = tt }

-- On MySQL, for an authorisation without quotes and backslashes whose statement fits its array, and a
-- database of the audit that is connected, `CreateLoginlog` sends one statement. It is read as one row
-- of 28 columns: the fields of the authorisation in their places, and the id that the session keeps.
pub create_loginlog-IsLoginRow :
    (escape : ℕ → ℕ) (db : AuditDatabase) (c : Clock) (client_port : ℤ) (info : ProxyInfo)
    → IsPlainAuth info.auth
    → db.is_mysql ≡ true
    → db.connects ≡ true
    → db.has_sock ≡ true
    → length (login_statement c (login_log client_port info)) < 1024
    → (out : ProxyInfo) × (sql : Bytes) × (row : List Value) × (create_loginlog db c client_port
          info
        ≡ some (out, statement sql ∷ []))
      × (read_insert escape (codes "pr_loginlog") sql ≡ some row)
      × IsLoginRow c client_port info.auth out row
unfolding create_loginlog set_loginlog login_values login_statement login_log print_int decimal
create_loginlog-IsLoginRow escape db c client_port info p mysql connects has_sock fits =
    let a = info.auth in
    let log = login_log client_port info in
    let sql = login_statement c log in
    let empty = IsPlain-nil in
    (
      record info { loginlog_id = row_id c },
      sql,
      login_values c log
          ++ (quoted a.pr_id
              ∷ quoted a.pr_proxy_host
              ∷ quoted a.pr_cooperator
              ∷ quoted a.pr_access_memo
              ∷ []),
      rw mysql (rw (strcpy_fits 1024 sql fits) (rw connects (rw has_sock refl))),
      read_insert-print_values escape (codes "pr_loginlog") _ _ _
          (
            IsPlain-row_id c,
            (
              p.uid,
              (
                p.user_name,
                (
                  empty,
                  (
                    empty,
                    (
                      p.account_no,
                      (
                        p.client_addr,
                        (
                          p.res_addr,
                          (
                            p.res_id,
                            (
                              p.res_name,
                              (
                                p.res_type,
                                (
                                  p.ap_id,
                                  (
                                    IsPlain-print_int (a.pr_access_type),
                                    (
                                      IsPlain-oper_date c,
                                      (
                                        tt,
                                        (
                                          IsPlain-oper_date c,
                                          (
                                            p.proxy_addr,
                                            (
                                              IsPlain-print_int (client_port),
                                              (
                                                IsPlain-print_int (a.pr_audit_type),
                                                (
                                                  IsPlain-print_int (a.pr_audit_flag),
                                                  (
                                                    empty,
                                                    (
                                                      IsPlain-print_int (pos 1),
                                                      (IsPlain-print_int (pos 1), (tt, tt)),
                                                    ),
                                                  ),
                                                ),
                                              ),
                                            ),
                                          ),
                                        ),
                                      ),
                                    ),
                                  ),
                                ),
                              ),
                            ),
                          ),
                        ),
                      ),
                    ),
                  ),
                ),
              ),
            ),
          )
          (p.auth_id, (p.proxy_host, (p.cooperator, (p.access_memo, tt)))),
      record {
        id = refl;
        uid = refl;
        user_name = refl;
        org_id = refl;
        org_name = refl;
        account_no = refl;
        client_addr = refl;
        res_addr = refl;
        res_id = refl;
        res_name = refl;
        res_type = refl;
        ap_id = refl;
        access_type = refl;
        login_date = refl;
        login_out_date = refl;
        on_line_time = refl;
        proxy_addr = refl;
        port = refl;
        video_flag = refl;
        cmd_flag = refl;
        log_record = refl;
        status = refl;
        node_flag = refl;
        audit_user = refl;
        auth_id = refl;
        proxy_host = refl;
        cooperator = refl;
        access_memo = refl;
        no_more = refl;
      },
    )

-- ===== src/Database/AccountReaders.antt =====
-- From a row to an account or an authorisation, column by column.
use oscshell.Base.{Option, some, ◌>>=◌}
use oscshell.Base.Text.{Bytes}
use oscshell.Database.Records.{EmployeeAccount, AuthAccessRes}
use oscshell.Database.Rows.{Row, text, text_or, number, number_or, secret}

-- The columns of a row; `old` is what the record held.
unfoldable pub read_employee_account : Row → EmployeeAccount → Option EmployeeAccount
read_employee_account row old = do
  pr_id ← text row 0
  pr_user_id ← text row 1
  pr_uid ← text row 2
  pr_user_name ← text row 3
  pr_res_id ← text row 4
  pr_res_addr ← text row 5
  pr_res_name ← text row 6
  pr_res_type ← text row 7
  pr_account_id ← text row 8
  pr_account_no ← text row 9
  pr_account_pwd ← text row 10
  pr_request_flag ← number row 11
  pr_group_id ← text_or old.pr_group_id row 12
  pr_flag ← number row 13
  pr_start_time ← text row 14
  pr_end_time ← text_or old.pr_end_time row 15
  pr_delay_time ← text_or old.pr_delay_time row 16
  pr_approver_id ← text_or old.pr_approver_id row 17
  pr_approver_name ← text_or old.pr_approver_name row 18
  pr_oper_date ← text_or old.pr_oper_date row 19
  pr_desc ← text_or old.pr_desc row 20
  pr_status ← number row 21
  pr_ad_ou ← text_or old.pr_ad_ou row 22
  pr_db_name ← text_or old.pr_db_name row 23
  some (record old {
    pr_id = pr_id;
    pr_user_id = pr_user_id;
    pr_uid = pr_uid;
    pr_user_name = pr_user_name;
    pr_res_id = pr_res_id;
    pr_res_addr = pr_res_addr;
    pr_res_name = pr_res_name;
    pr_res_type = pr_res_type;
    pr_account_id = pr_account_id;
    pr_account_no = pr_account_no;
    pr_account_pwd = pr_account_pwd;
    pr_request_flag = pr_request_flag;
    pr_group_id = pr_group_id;
    pr_flag = pr_flag;
    pr_start_time = pr_start_time;
    pr_end_time = pr_end_time;
    pr_delay_time = pr_delay_time;
    pr_approver_id = pr_approver_id;
    pr_approver_name = pr_approver_name;
    pr_oper_date = pr_oper_date;
    pr_desc = pr_desc;
    pr_status = pr_status;
    pr_ad_ou = pr_ad_ou;
    pr_db_name = pr_db_name;
  })

-- The columns of a row; `old` is what the record held.
unfoldable pub read_auth_access_res : (Bytes → Bytes) → Row → AuthAccessRes → Option AuthAccessRes
read_auth_access_res decrypt row old = do
  pr_id ← text row 0
  pr_user_id ← text row 1
  pr_uid ← text row 2
  pr_user_name ← text row 3
  pr_res_id ← text row 4
  pr_res_addr ← text row 5
  pr_res_name ← text row 6
  pr_res_type ← text row 7
  pr_res_version ← text_or old.pr_res_version row 8
  pr_account_id ← text row 9
  pr_account_no ← text row 10
  pr_account_type ← number row 11
  pr_account_pwd ← secret decrypt row 12
  pr_su_flag ← number row 13
  pr_sso_flag ← number row 14
  pr_audit_flag ← number row 15
  pr_audit_type ← number row 16
  pr_cmd_flag ← number row 17
  pr_client_addr ← text_or old.pr_client_addr row 18
  pr_ap_id ← text row 19
  pr_access_type ← number row 20
  pr_account_no_ex ← text_or old.pr_account_no_ex row 21
  pr_account_pwd_ex ← text_or old.pr_account_pwd_ex row 22
  pr_domain_name ← text_or old.pr_domain_name row 23
  pr_screen_width ← number_or old.pr_screen_width row 24
  pr_screen_height ← number_or old.pr_screen_height row 25
  pr_proxy_addr ← text row 26
  pr_start_time ← text_or old.pr_start_time row 27
  pr_end_time ← text_or old.pr_end_time row 28
  pr_reset_pwd_time ← text_or old.pr_reset_pwd_time row 29
  pr_time_flag ← number row 30
  pr_exec_app ← text row 31
  pr_exec_param ← text_or old.pr_exec_param row 32
  pr_oper_date ← text_or old.pr_oper_date row 33
  pr_proxy_host ← text_or old.pr_proxy_host row 34
  pr_proxy_port ← text_or old.pr_proxy_port row 35
  pr_cooperator ← text_or old.pr_cooperator row 36
  pr_access_memo ← text_or old.pr_access_memo row 37
  some (record old {
    pr_id = pr_id;
    pr_user_id = pr_user_id;
    pr_uid = pr_uid;
    pr_user_name = pr_user_name;
    pr_res_id = pr_res_id;
    pr_res_addr = pr_res_addr;
    pr_res_name = pr_res_name;
    pr_res_type = pr_res_type;
    pr_res_version = pr_res_version;
    pr_account_id = pr_account_id;
    pr_account_no = pr_account_no;
    pr_account_type = pr_account_type;
    pr_account_pwd = pr_account_pwd;
    pr_su_flag = pr_su_flag;
    pr_sso_flag = pr_sso_flag;
    pr_audit_flag = pr_audit_flag;
    pr_audit_type = pr_audit_type;
    pr_cmd_flag = pr_cmd_flag;
    pr_client_addr = pr_client_addr;
    pr_ap_id = pr_ap_id;
    pr_access_type = pr_access_type;
    pr_account_no_ex = pr_account_no_ex;
    pr_account_pwd_ex = pr_account_pwd_ex;
    pr_domain_name = pr_domain_name;
    pr_screen_width = pr_screen_width;
    pr_screen_height = pr_screen_height;
    pr_proxy_addr = pr_proxy_addr;
    pr_start_time = pr_start_time;
    pr_end_time = pr_end_time;
    pr_reset_pwd_time = pr_reset_pwd_time;
    pr_time_flag = pr_time_flag;
    pr_exec_app = pr_exec_app;
    pr_exec_param = pr_exec_param;
    pr_oper_date = pr_oper_date;
    pr_proxy_host = pr_proxy_host;
    pr_proxy_port = pr_proxy_port;
    pr_cooperator = pr_cooperator;
    pr_access_memo = pr_access_memo;
  })

-- ===== src/Database/Cleared.antt =====
-- The records after `memset (…, 0, …)`.
use oscshell.Base.{[]}
use oscshell.Base.Int.{pos}
use oscshell.Database.Records.{Employee, Resource, EmployeeAccount, AuthAccessRes}

-- memset (…, 0, sizeof (Pr_Employee))
abbrev pub no_employee : Employee
no_employee = record {
  pr_id = [];
  pr_user_name = [];
  pr_pinyin = [];
  pr_user_type = pos 0;
  pr_uid = [];
  pr_pwd = [];
  pr_org_id = [];
  pr_org_name = [];
  pr_sex = pos 0;
  pr_email = [];
  pr_phone = [];
  pr_rel_uid = [];
  pr_rel_name = [];
  pr_desc = [];
  pr_status = pos 0;
  pr_create_time = [];
  pr_modify_time = [];
  pr_auth_type = pos 0;
  pr_login_next_time = [];
  pr_login_fail_count = pos 0;
}

-- memset (…, 0, sizeof (Pr_Resource))
abbrev pub no_resource : Resource
no_resource = record {
  pr_id = [];
  pr_rt_id = [];
  pr_name = [];
  pr_address = [];
  pr_user_name = [];
  pr_port = [];
  pr_status = pos 0;
  pr_order = pos 0;
  pr_flag = pos 0;
  pr_sso_flag = pos 0;
  pr_audit_flag = pos 0;
  pr_audit_type = pos 0;
  pr_access_type = pos 0;
  pr_desc = [];
  pr_version = [];
  pr_domain_name = [];
  pr_base_dn = [];
  pr_use_sudo = pos 0;
  pr_host_name = [];
  pr_relation_id = [];
  pr_passwd = [];
}

-- memset (…, 0, sizeof (Pr_Employeeaccount))
abbrev pub no_employee_account : EmployeeAccount
no_employee_account = record {
  pr_id = [];
  pr_user_id = [];
  pr_uid = [];
  pr_user_name = [];
  pr_res_id = [];
  pr_res_addr = [];
  pr_res_name = [];
  pr_res_type = [];
  pr_account_id = [];
  pr_account_no = [];
  pr_account_pwd = [];
  pr_request_flag = pos 0;
  pr_group_id = [];
  pr_flag = pos 0;
  pr_start_time = [];
  pr_end_time = [];
  pr_delay_time = [];
  pr_approver_id = [];
  pr_approver_name = [];
  pr_oper_date = [];
  pr_desc = [];
  pr_status = pos 0;
  pr_ad_ou = [];
  pr_db_name = [];
}

-- memset (…, 0, sizeof (Pr_AuthAccessRes))
abbrev pub no_auth_access_res : AuthAccessRes
no_auth_access_res = record {
  pr_id = [];
  pr_user_id = [];
  pr_uid = [];
  pr_user_name = [];
  pr_res_id = [];
  pr_res_addr = [];
  pr_res_name = [];
  pr_res_type = [];
  pr_res_version = [];
  pr_account_id = [];
  pr_account_no = [];
  pr_account_type = pos 0;
  pr_account_pwd = [];
  pr_su_flag = pos 0;
  pr_sso_flag = pos 0;
  pr_audit_flag = pos 0;
  pr_audit_type = pos 0;
  pr_cmd_flag = pos 0;
  pr_client_addr = [];
  pr_ap_id = [];
  pr_access_type = pos 0;
  pr_account_no_ex = [];
  pr_account_pwd_ex = [];
  pr_domain_name = [];
  pr_screen_width = pos 0;
  pr_screen_height = pos 0;
  pr_proxy_addr = [];
  pr_start_time = [];
  pr_end_time = [];
  pr_reset_pwd_time = [];
  pr_time_flag = pos 0;
  pr_exec_app = [];
  pr_exec_param = [];
  pr_oper_date = [];
  pr_proxy_host = [];
  pr_proxy_port = [];
  pr_cooperator = [];
  pr_access_memo = [];
}

-- ===== src/Database/Records.antt =====
-- The records that DBRecord/DBoperate.c fills from rows. They are declared in a header outside the
-- repository; their fields are those that the code names, each wide enough for its column.
use oscshell.Base.Int.{ℤ}
use oscshell.Base.Text.{Bytes}

-- `Pr_Employee`
pub record Employee : Type 0 where
  pub pr_id : Bytes
  pub pr_user_name : Bytes
  pub pr_pinyin : Bytes
  pub pr_user_type : ℤ
  pub pr_uid : Bytes
  pub pr_pwd : Bytes
  pub pr_org_id : Bytes
  pub pr_org_name : Bytes
  pub pr_sex : ℤ
  pub pr_email : Bytes
  pub pr_phone : Bytes
  pub pr_rel_uid : Bytes
  pub pr_rel_name : Bytes
  pub pr_desc : Bytes
  pub pr_status : ℤ
  pub pr_create_time : Bytes
  pub pr_modify_time : Bytes
  pub pr_auth_type : ℤ
  pub pr_login_next_time : Bytes
  pub pr_login_fail_count : ℤ

-- `Pr_Resource`
pub record Resource : Type 0 where
  pub pr_id : Bytes
  pub pr_rt_id : Bytes
  pub pr_name : Bytes
  pub pr_address : Bytes
  pub pr_user_name : Bytes
  pub pr_port : Bytes
  pub pr_status : ℤ
  pub pr_order : ℤ
  pub pr_flag : ℤ
  pub pr_sso_flag : ℤ
  pub pr_audit_flag : ℤ
  pub pr_audit_type : ℤ
  pub pr_access_type : ℤ
  pub pr_desc : Bytes
  pub pr_version : Bytes
  pub pr_domain_name : Bytes
  pub pr_base_dn : Bytes
  pub pr_use_sudo : ℤ
  pub pr_host_name : Bytes
  pub pr_relation_id : Bytes
  pub pr_passwd : Bytes

-- `Pr_Employeeaccount`
pub record EmployeeAccount : Type 0 where
  pub pr_id : Bytes
  pub pr_user_id : Bytes
  pub pr_uid : Bytes
  pub pr_user_name : Bytes
  pub pr_res_id : Bytes
  pub pr_res_addr : Bytes
  pub pr_res_name : Bytes
  pub pr_res_type : Bytes
  pub pr_account_id : Bytes
  pub pr_account_no : Bytes
  pub pr_account_pwd : Bytes
  pub pr_request_flag : ℤ
  pub pr_group_id : Bytes
  pub pr_flag : ℤ
  pub pr_start_time : Bytes
  pub pr_end_time : Bytes
  pub pr_delay_time : Bytes
  pub pr_approver_id : Bytes
  pub pr_approver_name : Bytes
  pub pr_oper_date : Bytes
  pub pr_desc : Bytes
  pub pr_status : ℤ
  pub pr_ad_ou : Bytes
  pub pr_db_name : Bytes

-- `Pr_AuthAccessRes`
pub record AuthAccessRes : Type 0 where
  pub pr_id : Bytes
  pub pr_user_id : Bytes
  pub pr_uid : Bytes
  pub pr_user_name : Bytes
  pub pr_res_id : Bytes
  pub pr_res_addr : Bytes
  pub pr_res_name : Bytes
  pub pr_res_type : Bytes
  pub pr_res_version : Bytes
  pub pr_account_id : Bytes
  pub pr_account_no : Bytes
  pub pr_account_type : ℤ
  pub pr_account_pwd : Bytes
  pub pr_su_flag : ℤ
  pub pr_sso_flag : ℤ
  pub pr_audit_flag : ℤ
  pub pr_audit_type : ℤ
  pub pr_cmd_flag : ℤ
  pub pr_client_addr : Bytes
  pub pr_ap_id : Bytes
  pub pr_access_type : ℤ
  pub pr_account_no_ex : Bytes
  pub pr_account_pwd_ex : Bytes
  pub pr_domain_name : Bytes
  pub pr_screen_width : ℤ
  pub pr_screen_height : ℤ
  pub pr_proxy_addr : Bytes
  pub pr_start_time : Bytes
  pub pr_end_time : Bytes
  pub pr_reset_pwd_time : Bytes
  pub pr_time_flag : ℤ
  pub pr_exec_app : Bytes
  pub pr_exec_param : Bytes
  pub pr_oper_date : Bytes
  pub pr_proxy_host : Bytes
  pub pr_proxy_port : Bytes
  pub pr_cooperator : Bytes
  pub pr_access_memo : Bytes

-- `JOINTableID`
pub record JoinTableId : Type 0 where
  pub pr_employee_id : Bytes
  pub pr_employeeaccount_id : Bytes
  pub pr_resource_id : Bytes
  pub pr_resaccount_id : Bytes
  pub pr_role_id : Bytes
  pub pr_accessprotocol_id : Bytes

-- ===== src/Database/Readers.antt =====
-- From a row to a record, column by column.
use oscshell.Base.{Option, some, ◌>>=◌}
use oscshell.Base.Text.{Bytes}
use oscshell.Database.Records.{Employee, Resource, JoinTableId}
use oscshell.Database.Rows.{Row, text, text_or, number, number_or, secret}

-- The columns of a row; `old` is what the record held.
unfoldable pub read_employee : (Bytes → Bytes) → Row → Employee → Option Employee
read_employee decrypt row old = do
  pr_id ← text row 0
  pr_user_name ← text row 1
  pr_pinyin ← text_or old.pr_pinyin row 2
  pr_user_type ← number row 3
  pr_uid ← text row 4
  pr_pwd ← secret decrypt row 5
  pr_org_id ← text_or old.pr_org_id row 6
  pr_org_name ← text_or old.pr_org_name row 7
  pr_sex ← number row 8
  pr_email ← text_or old.pr_email row 9
  pr_phone ← text_or old.pr_phone row 10
  pr_rel_uid ← text_or old.pr_rel_uid row 11
  pr_rel_name ← text_or old.pr_rel_name row 12
  pr_desc ← text_or old.pr_desc row 13
  pr_status ← number row 14
  pr_create_time ← text_or old.pr_create_time row 15
  pr_modify_time ← text_or old.pr_modify_time row 16
  pr_auth_type ← number row 17
  pr_login_next_time ← text_or old.pr_login_next_time row 18
  pr_login_fail_count ← number_or old.pr_login_fail_count row 19
  some (record old {
    pr_id = pr_id;
    pr_user_name = pr_user_name;
    pr_pinyin = pr_pinyin;
    pr_user_type = pr_user_type;
    pr_uid = pr_uid;
    pr_pwd = pr_pwd;
    pr_org_id = pr_org_id;
    pr_org_name = pr_org_name;
    pr_sex = pr_sex;
    pr_email = pr_email;
    pr_phone = pr_phone;
    pr_rel_uid = pr_rel_uid;
    pr_rel_name = pr_rel_name;
    pr_desc = pr_desc;
    pr_status = pr_status;
    pr_create_time = pr_create_time;
    pr_modify_time = pr_modify_time;
    pr_auth_type = pr_auth_type;
    pr_login_next_time = pr_login_next_time;
    pr_login_fail_count = pr_login_fail_count;
  })

-- The columns of a row; `old` is what the record held.
unfoldable pub read_resource : Row → Resource → Option Resource
read_resource row old = do
  pr_id ← text_or old.pr_id row 0
  pr_rt_id ← text_or old.pr_rt_id row 1
  pr_name ← text_or old.pr_name row 2
  pr_address ← text_or old.pr_address row 3
  pr_user_name ← text_or old.pr_user_name row 4
  pr_port ← text_or old.pr_port row 6
  pr_status ← number_or old.pr_status row 7
  pr_order ← number_or old.pr_order row 8
  pr_flag ← number_or old.pr_flag row 9
  pr_sso_flag ← number_or old.pr_sso_flag row 10
  pr_audit_flag ← number_or old.pr_audit_flag row 11
  pr_audit_type ← number_or old.pr_audit_type row 12
  pr_access_type ← number_or old.pr_access_type row 13
  pr_desc ← text_or old.pr_desc row 14
  pr_version ← text_or old.pr_version row 15
  pr_domain_name ← text_or old.pr_domain_name row 16
  pr_base_dn ← text_or old.pr_base_dn row 17
  pr_use_sudo ← number_or old.pr_use_sudo row 18
  pr_host_name ← text_or old.pr_host_name row 19
  pr_relation_id ← text_or old.pr_relation_id row 20
  some (record old {
    pr_id = pr_id;
    pr_rt_id = pr_rt_id;
    pr_name = pr_name;
    pr_address = pr_address;
    pr_user_name = pr_user_name;
    pr_port = pr_port;
    pr_status = pr_status;
    pr_order = pr_order;
    pr_flag = pr_flag;
    pr_sso_flag = pr_sso_flag;
    pr_audit_flag = pr_audit_flag;
    pr_audit_type = pr_audit_type;
    pr_access_type = pr_access_type;
    pr_desc = pr_desc;
    pr_version = pr_version;
    pr_domain_name = pr_domain_name;
    pr_base_dn = pr_base_dn;
    pr_use_sudo = pr_use_sudo;
    pr_host_name = pr_host_name;
    pr_relation_id = pr_relation_id;
  })

unfoldable pub read_join_table_id : Row → Option JoinTableId
read_join_table_id row = do
  pr_employee_id ← text row 0
  pr_employeeaccount_id ← text row 1
  pr_resource_id ← text row 2
  pr_resaccount_id ← text row 3
  pr_role_id ← text row 4
  pr_accessprotocol_id ← text row 5
  some (record {
    pr_employee_id = pr_employee_id;
    pr_employeeaccount_id = pr_employeeaccount_id;
    pr_resource_id = pr_resource_id;
    pr_resaccount_id = pr_resaccount_id;
    pr_role_id = pr_role_id;
    pr_accessprotocol_id = pr_accessprotocol_id;
  })

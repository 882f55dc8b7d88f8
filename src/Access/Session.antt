-- ===== src/Access/Session.antt =====
-- `GetConfigForUser` and `GetConfigForID`. A call returns 0 or 1 with what it leaves in the
-- `PROXYINFO` of the session. In `GetConfigForUser` the code of the search by user is the constant 4
-- (its call is commented out), so that only that branch is here. The array of policies is cleared
-- when the session starts.
use oscshell.Base.{ℕ, List, [], ◌∷◌, Option, some, if◌then◌else◌, ◌>>=◌, ◌==◌}
use oscshell.Base.Int.{ℤ, pos}
use oscshell.Base.Text.{Bytes, contains}
use oscshell.Policy.{Policy, LevelCmd}
use oscshell.Database.Records.{Employee, Resource, EmployeeAccount, AuthAccessRes, JoinTableId}
use oscshell.Database.Cleared.{no_employee, no_resource, no_employee_account, no_auth_access_res}
use oscshell.Database.Backend.{Result}
use oscshell.Database.Fetch.{
  get_employee, get_resource_port, get_resource, get_employeeaccount, get_auth_id, get_join_table,
}
use oscshell.Access.{Call, no_rights, scan, is_refused}

-- `PROXYINFO`, as far as the functions here and in Audit use it. `tableId` and `table_count` are one list.
pub record ProxyInfo : Type 0 where
  pub pr_id : Bytes
  pub input_name : Bytes
  pub input_pwd : Bytes
  pub server_ip : Bytes
  pub server_port : ℤ
  pub server_name : Bytes
  pub server_pwd : Bytes
  pub auth : AuthAccessRes
  pub employee : Employee
  pub resource : Resource
  pub employeeaccount : EmployeeAccount
  pub table_id : List JoinTableId
  pub policy : List Policy
  pub levelcmd : List LevelCmd
  pub line_out_buffer : Bytes
  pub cmd : Bytes
  pub precmd : Bytes
  pub loginlog_id : Bytes
  pub level : ℤ
  pub start_in : ℤ

-- The record of the session, and the value returned.
abbrev pub Outcome : Type 0
Outcome = Option (ProxyInfo × ℕ)

-- tableId[0], which is cleared if there is no table.
abbrev pub first_table : List JoinTableId → JoinTableId
first_table [] = record {
  pr_employee_id = [];
  pr_employeeaccount_id = [];
  pr_resource_id = [];
  pr_resaccount_id = [];
  pr_role_id = [];
  pr_accessprotocol_id = [];
}
first_table (t ∷ ts) = t

-- A query that has to return 0, and where its record goes.
unfoldable pub need : {A : Type 0} → Result A → (A → ProxyInfo) → (ProxyInfo → Outcome) → Outcome
need r put continue = do
  (code, a) ← r
  let rest = continue (put a)
  if code == 0 then rest else some (put a, 0)

-- `GetJOINTable` and the loop over its tables.
unfoldable pub with_tables : Call → ProxyInfo → (ProxyInfo → Outcome) → Outcome
with_tables c info continue = do
  (code, ids) ←
      get_join_table c.backend c.timenow info.input_name info.server_ip info.server_name
        c.access_type
  if code == 0
      then (do
        (rights, policies) ← scan c ids no_rights
        let scanned = record info { table_id = ids; policy = policies }
        let rest = continue scanned
        if is_refused rights then some (scanned, 0) else rest)
      else some (info, 0)

-- The fields of `auth` that are copied from the records found.
unfoldable pub with_auth : Call → ProxyInfo → ProxyInfo
with_auth c info = record info {
  auth = record info.auth {
    pr_user_id = info.employee.pr_id;
    pr_uid = info.employee.pr_uid;
    pr_user_name = info.employee.pr_user_name;
    pr_res_id = info.resource.pr_id;
    pr_res_addr = info.resource.pr_address;
    pr_res_name = info.resource.pr_name;
    pr_res_type = info.employeeaccount.pr_res_type;
    pr_res_version = [];
    pr_account_id = info.employeeaccount.pr_account_id;
    pr_account_no = info.employeeaccount.pr_account_no;
    pr_account_type = pos 1;
    pr_account_pwd = info.employeeaccount.pr_account_pwd;
    pr_su_flag = info.resource.pr_use_sudo;
    pr_sso_flag = info.resource.pr_sso_flag;
    pr_audit_type = pos 1;
    pr_audit_flag = pos 1;
    pr_cmd_flag = pos 1;
    pr_client_addr = c.client_ip;
    pr_ap_id = (first_table info.table_id).pr_accessprotocol_id;
    pr_access_type = c.access_type;
    pr_account_no_ex = [];
    pr_account_pwd_ex = [];
    pr_domain_name = [];
    pr_screen_width = pos 0;
    pr_screen_height = pos 0;
    pr_proxy_addr = c.proxy_ip;
    pr_time_flag = pos 0;
    pr_exec_app = [];
    pr_exec_param = [];
  };
}

unfoldable pub with_resource : Call → ProxyInfo → Outcome
with_resource c info =
    let t = first_table info.table_id in
    need (get_resource c.backend t.pr_resource_id info.server_name no_resource)
      (λ r. record info { resource = r })
      (λ found.
        let opened = record found { server_pwd = found.resource.pr_passwd } in
        need (get_employeeaccount c.backend t.pr_employeeaccount_id no_employee_account)
          (λ a. record opened { employeeaccount = a }) (λ complete. some (with_auth c complete, 1)))

unfoldable pub with_password : Call → ProxyInfo → Outcome
with_password c info =
    if contains info.input_pwd info.employee.pr_pwd then with_resource c info else some (info, 0)

unfoldable pub with_employee : Call → ProxyInfo → Outcome
with_employee c info =
    need (get_employee c.backend (first_table info.table_id).pr_employee_id no_employee)
      (λ e. record info { employee = e }) (with_password c)

unfoldable pub get_config_for_user : Call → ProxyInfo → Outcome
get_config_for_user c info =
    with_tables c (record info { auth = no_auth_access_res }) (with_employee c)

-- What `GetConfigForID` copies from the authorisation.
unfoldable pub with_input : ProxyInfo → ProxyInfo
with_input info = record info {
  input_name = info.auth.pr_uid;
  input_pwd = [];
  server_ip = info.auth.pr_res_addr;
  server_port = pos 0;
  server_name = info.auth.pr_account_no;
}

unfoldable pub with_port : Call → ProxyInfo → Outcome
with_port c info =
    need (get_resource_port c.backend info.auth.pr_res_id c.access_type info.server_port)
      (λ p. record info { server_port = p })
      (λ found.
        with_tables c found
          (λ checked. some (record checked { server_pwd = checked.auth.pr_account_pwd }, 1)))

unfoldable pub get_config_for_id : Call → ProxyInfo → Outcome
get_config_for_id c info =
    need (get_auth_id c.backend info.pr_id no_auth_access_res) (λ a. record info { auth = a })
      (λ found.
        let named = with_input found in
        need (get_employee c.backend named.auth.pr_user_id no_employee)
          (λ e. record named { employee = e }) (with_port c))

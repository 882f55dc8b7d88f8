-- ===== src/Access/Sample.antt =====
-- A session, for runs and examples.
use oscshell.Base.{[]}
use oscshell.Base.Int.{pos}
use oscshell.Base.Text.{codes}
use oscshell.Database.Cleared.{no_employee, no_resource, no_employee_account, no_auth_access_res}
use oscshell.Access.Session.{ProxyInfo}

abbrev pub session : ProxyInfo
session = record {
  pr_id = codes "1";
  input_name = codes "ann";
  input_pwd = codes "my secret";
  server_ip = codes "1";
  server_port = pos 22;
  server_name = codes "root";
  server_pwd = [];
  auth = no_auth_access_res;
  employee = no_employee;
  resource = no_resource;
  employeeaccount = no_employee_account;
  table_id = [];
  policy = [];
  levelcmd = [];
  line_out_buffer = [];
  cmd = [];
  precmd = [];
  loginlog_id = [];
  level = pos 0;
  start_in = pos 0;
}

-- ===== src/Audit/Exchange.antt =====
-- The refusal of another user's session: `InsertStopExchangeUserInfo` and `GetStopExchangeUserSwitch`
-- of DBRecord/dbrecord.c. The fields `lastprecmd`, `lineOutLen` and `userlog_id` of the session are
-- left out.
use oscshell.Base.{ℕ, Bool, List, [], ◌∷◌, ◌++◌, Option, none, some, if◌then◌else◌, ◌>>=◌, drop}
use oscshell.Base.Int.{pos, is_zero}
use oscshell.Base.Text.{Bytes, codes, contains, strcpy}
use oscshell.Access.Session.{ProxyInfo}
use oscshell.Config.{without_end}
use oscshell.Audit.{UserActivityLog}
use oscshell.Audit.Statement.{Clock, set_useractivitylog}

unfoldable pub exchange_log : ProxyInfo → Bytes → UserActivityLog
exchange_log info msg = record {
  pr_id = [];
  pr_client_addr = info.auth.pr_client_addr;
  pr_proxy_addr = info.auth.pr_proxy_addr;
  pr_res_id = info.auth.pr_res_id;
  pr_res_name = info.auth.pr_res_name;
  pr_res_addr = info.auth.pr_res_addr;
  pr_command = msg;
  pr_cmd_prefix = codes "prevent exchange user!";
  pr_org_id = [];
  pr_user_id = info.auth.pr_user_id;
  pr_user_name = info.auth.pr_user_name;
  pr_uid = info.auth.pr_uid;
  pr_account_no = info.auth.pr_account_no;
  pr_oper_date = [];
  pr_session_id = info.loginlog_id;
  pr_level = pos 1;
  pr_access_type = info.auth.pr_access_type;
}

-- `InsertStopExchangeUserInfo`: the session, and the statement for the file, if the session is audited.
unfoldable pub insert_stop_exchange_user_info :
    Bool → Clock → ProxyInfo → Option (ProxyInfo × Option Bytes)
insert_stop_exchange_user_info is_oracle c info = do
  msg ← strcpy 100 (codes "username:" ++ info.auth.pr_account_no)
  let recorded = (do
    (sql, id) ← set_useractivitylog is_oracle c (exchange_log info msg)
    some (some sql))
  written ← (if is_zero info.auth.pr_audit_flag then some none else recorded)
  some (record info { cmd = []; precmd = []; line_out_buffer = [] }, written)

-- The loop over the lines; the last line with the keyword counts.
unfoldable pub switch_lines : Bytes → List Bytes → Option Bytes
switch_lines is_stop [] = some is_stop
switch_lines is_stop (line ∷ lines) = do
  s ← without_end line
  switch_lines (if contains s (codes "stopchangeuser:=") then drop 16 s else is_stop) lines

-- `GetStopExchangeUserSwitch`; the array has no size of its own.
unfoldable pub get_stop_exchange_user_switch : Bytes → Option (List Bytes) → Option (ℕ × Bytes)
get_stop_exchange_user_switch is_stop none = some (1, is_stop)
get_stop_exchange_user_switch is_stop (some lines) = do
  found ← switch_lines is_stop lines
  some (0, found)

-- ===== src/Audit.antt =====
-- The record of a command of a session: `InsertUseractivitylog` of DBRecord/dbrecord.c. What
-- `SetUseractivitylog` would insert is returned.
pub mod Levels
pub mod Marks
pub mod Record
pub mod Cut
pub mod Statement
pub mod Sql
pub mod Login
pub mod Logout
pub mod Exchange
pub mod Plain
pub mod Rows
pub mod Broken
pub mod Refused
pub mod Logins
pub mod Session
pub mod OneLogin
mod Tests
mod LoginTests
use oscshell.Base.{
  ℕ, zero, suc, ◌+◌, ◌-◌, ◌*◌, ◌++◌, get_elem?, Bool, true, false, List, [], ◌∷◌, Option, none,
  some, ltb, ◌==◌, if◌then◌else◌, ◌>>=◌, length, take, map,
}
use oscshell.Base.Int.{ℤ, pos, is_zero}
use oscshell.Base.Text.{Bytes, codes, strcpy}
use oscshell.Replace.{Buffer, strings_replace_free}
use oscshell.Policy.{Policy, match_ccl_item, find_level_cmd}
use oscshell.Database.Records.{AuthAccessRes}
use oscshell.Access.Session.{ProxyInfo}

-- `Pr_Useractivitylog`
pub record UserActivityLog : Type 0 where
  pub pr_id : Bytes
  pub pr_client_addr : Bytes
  pub pr_proxy_addr : Bytes
  pub pr_res_id : Bytes
  pub pr_res_name : Bytes
  pub pr_res_addr : Bytes
  pub pr_command : Bytes
  pub pr_cmd_prefix : Bytes
  pub pr_org_id : Bytes
  pub pr_user_id : Bytes
  pub pr_user_name : Bytes
  pub pr_uid : Bytes
  pub pr_account_no : Bytes
  pub pr_oper_date : Bytes
  pub pr_session_id : Bytes
  pub pr_level : ℤ
  pub pr_access_type : ℤ

-- The byte is 0x3f.
pub is_mark : Option ℕ → Bool
is_mark none = false
is_mark (some c) = c == 63

-- `cmd` is an array of pointers, and the text in it is read and written by words of `word` bytes,
-- the lowest byte first. A word whose lowest byte is 0x3f is set to 0x20, and its other bytes to 0,
-- which end the text.
pub mark_word : ℕ → ℕ → Bytes → Bytes
mark_word word i cmd =
    if is_mark (get_elem? cmd (word * i)) then take (word * i) cmd ++ 32 ∷ [] else cmd

-- The loop that looks for 0x3f. The text never grows, so that its length at the start bounds the
-- rounds.
pub mark_loop : ℕ → ℕ → ℕ → Bytes → Bytes
mark_loop zero word i cmd = cmd
mark_loop (suc rounds) word i cmd =
    let rest = mark_loop rounds word (i + 1) (mark_word word i cmd) in
    if ltb i (length cmd) then rest else cmd

-- The text in `cmd`, an array of 10240 pointers of `word` bytes. One round for each byte and one
-- more are enough to replace the quotes.
pub cleaned : ℕ → Bytes → Option Bytes
cleaned word line = do
  sql ← strings_replace_free (suc (length line)) line (codes "'") (b'"' ∷ [])
  cmd ← strcpy (10240 * word) sql.written
  some (mark_loop (length cmd) word 0 cmd)

-- What fits into `pProxyInfo->cmd`, whose size is `cmd_size`; the array was cleared.
pub recorded : ℕ → Bytes → Bytes
recorded cmd_size cmd = if ltb (length cmd) cmd_size then cmd else take (cmd_size - 1) cmd

-- Some policy refuses the command.
pub is_raised : List Policy → Bytes → ℤ → Option Bool
is_raised [] cmd flag = some false
is_raised (p ∷ ps) cmd flag = do
  code ← match_ccl_item (some p) cmd flag
  let rest = is_raised ps cmd flag
  if code == 0 then rest else some true

pub activity : ProxyInfo → ℤ → UserActivityLog
activity info level = record {
  pr_id = [];
  pr_client_addr = info.auth.pr_client_addr;
  pr_proxy_addr = info.auth.pr_proxy_addr;
  pr_res_id = info.auth.pr_res_id;
  pr_res_name = info.auth.pr_res_name;
  pr_res_addr = info.auth.pr_res_addr;
  pr_command = info.cmd;
  pr_cmd_prefix = info.precmd;
  pr_org_id = [];
  pr_user_id = info.auth.pr_user_id;
  pr_user_name = info.auth.pr_user_name;
  pr_uid = info.auth.pr_uid;
  pr_account_no = info.auth.pr_account_no;
  pr_oper_date = [];
  pr_session_id = info.loginlog_id;
  pr_level = level;
  pr_access_type = info.auth.pr_access_type;
}

-- The session and the record, if there is one. `policy` holds `table_count` policies.
pub insert_useractivitylog : ℕ → ℕ → ProxyInfo → Option (ProxyInfo × Option UserActivityLog)
insert_useractivitylog word cmd_size info = do
  cmd ← cleaned word info.line_out_buffer
  raised ← is_raised info.policy cmd info.auth.pr_cmd_flag
  level ← find_level_cmd info.levelcmd (recorded cmd_size cmd)
  let raised_level = if raised then pos 1 else info.level
  let written = record info { cmd = recorded cmd_size cmd; level = raised_level; start_in = pos 1 }
  if is_zero info.auth.pr_audit_flag
      then some (written, none)
      else some (written, some (activity written level))

-- ===== src/Audit/Logout.antt =====
-- The end of a login: `ReflashLoginlog` of DBRecord/DBoperate.c, as it is compiled with `SYSLOG` and
-- `SVW`. `none` is a write past the end of an array, or a use of what is not set.
use oscshell.Base.{ℕ, ◌&&◌, List, [], ◌∷◌, ◌++◌, Option, none, some, if◌then◌else◌, ◌>>=◌}
use oscshell.Base.Int.{ℤ, pos, int_eq}
use oscshell.Base.Text.{Bytes, codes, strcpy}
use oscshell.Database.Rows.{Row, Reply, query_failed, store_failed, rows, text}
use oscshell.Audit.Statement.{Clock, oper_date}
use oscshell.Audit.Login.{AuditDatabase, Sent, statement, select, message}

-- The statement of `ReflashLoginlog`.
unfoldable pub reflash_statement : Clock → Bytes → ℤ → Bytes
reflash_statement c id kind =
    if int_eq kind (pos 1)
    then codes "UPDATE pr_loginlog set pr_onLineTime='"
      ++ (oper_date c ++ (codes "' where pr_id='" ++ (id ++ codes "'")))
    else codes "UPDATE pr_loginlog set pr_loginOutDate='"
      ++ (oper_date c ++ (codes "',pr_status=0 where pr_id='" ++ (id ++ codes "'")))

unfoldable pub login_select : Bytes → Bytes
login_select id =
    codes "select pr_uid,pr_userName,pr_accountNo,pr_resName,pr_resAddr,pr_clientAddr,pr_apId,"
    ++ (codes "pr_loginDate from pr_loginlog where pr_id='" ++ (id ++ codes "'"))

-- The columns with the byte 5 in front of each.
unfoldable pub marked_columns : List Bytes → Bytes
marked_columns [] = []
marked_columns (s ∷ ss) = 5 ∷ (s ++ marked_columns ss)

unfoldable pub logout_message : Clock → Row → Row → Option Bytes
logout_message c row name_row = do
  uid ← text row 0
  user_name ← text row 1
  account_no ← text row 2
  res_name ← text row 3
  res_addr ← text row 4
  client_addr ← text row 5
  name ← text name_row 0
  login_date ← text row 7
  strcpy 2048 (
      codes "login"
      ++ marked_columns (
          uid
          ∷ user_name
          ∷ account_no
          ∷ res_name
          ∷ res_addr
          ∷ client_addr
          ∷ name
          ∷ login_date
          ∷ oper_date c
          ∷ []))

-- The query for the name of the protocol, and the message.
unfoldable pub name_reply : Clock → Row → Reply → Option (List Sent)
name_reply c row query_failed = some []
name_reply c row store_failed = some []
name_reply c row (rows []) = some []
name_reply c row (rows (name_row ∷ more)) = do
  m ← logout_message c row name_row
  some (message m ∷ [])

-- The record of the login that ends. If there is none, a result that was never set is freed.
unfoldable pub login_reply : AuditDatabase → Clock → Reply → Option (List Sent)
login_reply db c query_failed = some []
login_reply db c store_failed = some []
login_reply db c (rows []) = none
login_reply db c (rows (row ∷ more)) = do
  ap_id ← text row 6
  sql ← strcpy 256 (codes "select pr_name from pr_accessprotocol where pr_id =" ++ ap_id)
  sent ← name_reply c row (db.main_reply sql)
  some (select sql ∷ sent)

-- `ReflashLoginlog`, as it is compiled: the value returned, and what is sent.
unfoldable pub reflash_loginlog : AuditDatabase → Clock → Bytes → ℤ → Option (ℕ × List Sent)
reflash_loginlog db c id kind =
    let logout = (do
      sql ← strcpy 1024 (login_select id)
      sent ← login_reply db c (db.reply sql)
      some (select sql ∷ sent)) in
    let mysql = (do
      sql ← strcpy 1024 (reflash_statement c id kind)
      sent ←
          (if db.runs sql && db.connects && db.has_sock
            then (if int_eq kind (pos 1) then some [] else logout)
            else some [])
      some (
          if db.connects && db.has_sock
          then ((if db.runs sql then 0 else 1), statement sql ∷ sent)
          else (0, []))) in
    let other = (do code ← db.other_reflash_loginlog id kind; some (code, [])) in
    if db.is_mysql then mysql else other

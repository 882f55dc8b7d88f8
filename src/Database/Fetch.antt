-- ===== src/Database/Fetch.antt =====
-- The queries for one record: `CheckEmployee`, `GetEmployee`, `GetResPwd`, `GetResourcePort`,
-- `GetResource`, `GetEmployeeaccount`, `GetAuth_id`; and the lists of `GetJOINTable` and `GetLeveCmd`.
use oscshell.Base.{
  ℕ, Bool, ◌||◌, ◌&&◌, List, [], ◌∷◌, Option, some, if◌then◌else◌, ◌>>=◌, length, ◌==◌,
}
use oscshell.Base.Int.{ℤ, pos, int_eq}
use oscshell.Base.Text.{Bytes, contains, strcpy, strupr}
use oscshell.Policy.{LevelCmd}
use oscshell.Database.Records.{Employee, Resource, EmployeeAccount, AuthAccessRes, JoinTableId}
use oscshell.Database.Rows.{Row, Reply, query_failed, store_failed, rows, text, number, secret}
use oscshell.Database.Readers.{read_employee, read_resource, read_join_table_id}
use oscshell.Database.AccountReaders.{read_employee_account, read_auth_access_res}
use oscshell.Database.Backend.{
  Result, Backend, decrypt_data, first_row, each_row, password_of, employee_by_id, account_password,
  protocol_port, protocol_port_502, resource_by_id, employee_account_by_id, auth_by_id, joined_ids,
  joined_ids_502, level_commands,
}

-- One of the separators "@#" of `strtok`.
unfoldable pub is_separator : ℕ → Bool
is_separator c = c == b'@' || c == b'#'

unfoldable pub token_end : Bytes → Bytes
token_end [] = []
token_end (c ∷ s) = if is_separator c then [] else c ∷ token_end s

-- The first token; the empty text stands for NULL.
unfoldable pub first_token : Bytes → Bytes
first_token [] = []
first_token (c ∷ s) = if is_separator c then first_token s else c ∷ token_end s

-- strstr (real_pwd, password) != NULL && strlen (real_pwd) == strlen (password)
unfoldable pub same_password : Bytes → Bytes → Bool
same_password real_pwd password = contains real_pwd password && length real_pwd == length password

unfoldable pub check_reply : Backend → Bytes → Reply → Option ℕ
check_reply b password query_failed = some 2
check_reply b password store_failed = some 3
check_reply b password (rows []) = some 4
check_reply b password (rows (row ∷ more)) = do
  real_pwd ← secret (decrypt_data b) row 0
  some (if same_password real_pwd password then 0 else 1)

unfoldable pub check_employee : Backend → Bytes → Bytes → Option ℕ
check_employee b username password =
    if b.is_mysql
    then (do
      name ← strcpy 1024 (first_token username)
      check_reply b password (b.reply (password_of name)))
    else b.other_check_employee username password

unfoldable pub get_employee : Backend → Bytes → Employee → Result Employee
get_employee b pr_id old =
    if b.is_mysql
    then first_row (b.reply (employee_by_id pr_id)) old
        (λ row. do employee ← read_employee (decrypt_data b) row old; some (0, employee))
    else b.other_get_employee pr_id old

unfoldable pub get_res_pwd : Backend → Bytes → Bytes → Bytes → Result Bytes
get_res_pwd b res_id account_no pwd =
    if b.is_mysql
    then first_row (b.reply (account_password res_id account_no)) pwd
        (λ row. do real_pwd ← secret (decrypt_data b) row 0; some (0, real_pwd))
    else b.other_get_res_pwd res_id account_no pwd

unfoldable pub get_resource_port : Backend → Bytes → ℤ → ℤ → Result ℤ
get_resource_port b pr_res_id pr_code port =
    if b.is_mysql
    then first_row
        (b.reply (
          if int_eq pr_code (pos 502)
          then protocol_port_502 pr_res_id pr_code
          else protocol_port pr_res_id pr_code))
        port (λ row. do found ← number row 0; some (0, found))
    else b.other_get_resource_port pr_res_id pr_code port

-- The password comes from a query of its own, whose code is returned.
unfoldable pub with_password : Backend → Bytes → Resource → Result Resource
with_password b account_no resource = do
  (code, pwd) ← get_res_pwd b resource.pr_id account_no resource.pr_passwd
  some (code, record resource { pr_passwd = pwd })

unfoldable pub get_resource : Backend → Bytes → Bytes → Resource → Result Resource
get_resource b pr_id account_no old =
    if b.is_mysql
    then first_row (b.reply (resource_by_id pr_id)) old
        (λ row. do resource ← read_resource row old; with_password b account_no resource)
    else b.other_get_resource pr_id account_no old

unfoldable pub get_employeeaccount : Backend → Bytes → EmployeeAccount → Result EmployeeAccount
get_employeeaccount b pr_id old =
    if b.is_mysql
    then first_row (b.reply (employee_account_by_id pr_id)) old
        (λ row. do account ← read_employee_account row old; some (0, account))
    else b.other_get_employeeaccount pr_id old

unfoldable pub get_auth_id : Backend → Bytes → AuthAccessRes → Result AuthAccessRes
get_auth_id b pr_id old =
    if b.is_mysql
    then first_row (b.reply (auth_by_id pr_id)) old
        (λ row. do auth ← read_auth_access_res (decrypt_data b) row old; some (0, auth))
    else b.other_get_auth_id pr_id old

unfoldable pub join_reply : Reply → Result (List JoinTableId)
join_reply query_failed = some (2, [])
join_reply store_failed = some (3, [])
join_reply (rows []) = some (4, [])
join_reply (rows (row ∷ more)) = do ids ← each_row read_join_table_id (row ∷ more); some (0, ids)

-- `timenow` is the local time of the call, printed.
unfoldable pub get_join_table :
    Backend → Bytes → Bytes → Bytes → Bytes → ℤ → Result (List JoinTableId)
get_join_table b timenow pr_uid pr_address pr_user_name pr_code =
    if b.is_mysql
    then join_reply (
        b.reply (
          if int_eq pr_code (pos 502)
          then joined_ids_502 pr_uid pr_address pr_user_name pr_code timenow
          else joined_ids pr_uid pr_address pr_user_name pr_code timenow))
    else b.other_get_join_table pr_uid pr_address pr_user_name pr_code

unfoldable pub read_level_cmd : Row → Option LevelCmd
read_level_cmd row = do
  level ← number row 0
  cmd ← text row 1
  some (record { level = level; cmd = strupr cmd })

unfoldable pub level_reply : List LevelCmd → Reply → Result (List LevelCmd)
level_reply old query_failed = some (2, old)
level_reply old store_failed = some (3, old)
level_reply old (rows []) = some (0, old)
level_reply old (rows (row ∷ more)) = do
  levels ← each_row read_level_cmd (row ∷ more)
  some (0, levels)

unfoldable pub get_level_cmd : Backend → Bytes → List LevelCmd → Result (List LevelCmd)
get_level_cmd b pr_res_id old =
    if b.is_mysql
    then level_reply old (b.reply (level_commands pr_res_id))
    else b.other_get_level_cmd pr_res_id old

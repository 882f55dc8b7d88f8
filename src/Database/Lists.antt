-- ===== src/Database/Lists.antt =====
-- The queries for lists of accounts and for protocols: `GetAuth_uid`, `GetResaccountCount`,
-- `GetResaccount`, `GetProtocolProt`, `GetEmployeeaccountCount`, `GetEmployeeaccounts` and
-- `GetPrAccessProtocol` of DBRecord/DBoperate.c. An array of records is a list of its length; `none`
-- is a write past its end, or a read through NULL.
use oscshell.Base.{Bool, List, [], ◌∷◌, Option, none, some, if◌then◌else◌, ◌>>=◌}
use oscshell.Base.Int.{ℤ, pos, int_eq}
use oscshell.Base.Text.{Bytes}
use oscshell.Database.Records.{EmployeeAccount, AuthAccessRes}
use oscshell.Database.Rows.{
  Row, Reply, query_failed, store_failed, rows, text, text_or, number, number_or,
}
use oscshell.Database.AccountReaders.{read_employee_account, read_auth_access_res}
use oscshell.Database.Backend.{
  Result, Backend, decrypt_data, first_row, auth_by_user, auth_by_user_502, account_count,
  accounts_of, port_of_protocol, employee_account_count, employee_accounts_of, protocol_by_code,
}

-- `Pr_Resaccount`
pub record ResAccount : Type 0 where
  pub pr_account_no : Bytes
  pub pr_account_pwd : Bytes

-- `Pr_AccessProtocol`
pub record AccessProtocol : Type 0 where
  pub pr_id : Bytes
  pub pr_name : Bytes
  pub pr_code : ℤ
  pub pr_status : ℤ
  pub pr_order : ℤ
  pub pr_port : Bytes
  pub pr_icon_path : Bytes

-- The functions for other databases: `OGetAuth_uid` and so on.
pub record OtherLists : Type 0 where
  pub other_get_auth_uid : Bytes → Bytes → Bytes → AuthAccessRes → ℤ → Result AuthAccessRes
  pub other_get_resaccount_count : Bytes → Bytes → ℤ → Result ℤ
  pub other_get_resaccount : Bytes → Bytes → List ResAccount → Result (List ResAccount)
  pub other_get_protocol_prot : Bytes → ℤ → Result ℤ
  pub other_get_employeeaccount_count : Bytes → Bytes → ℤ → Result ℤ
  pub other_get_employeeaccounts :
      Bytes → Bytes → List EmployeeAccount → ℤ → Result (List EmployeeAccount)
  pub other_get_pr_access_protocol : ℤ → AccessProtocol → Result AccessProtocol

module _ {ℓ} {A : Type ℓ} where
  -- The loop that writes one element of an array for each row.
  unfoldable pub fill_rows : (Row → A → Option A) → List A → List Row → Option (List A)
  fill_rows read array [] = some array
  fill_rows read [] (row ∷ more) = none
  fill_rows read (old ∷ array) (row ∷ more) = do
    a ← read row old
    rest ← fill_rows read array more
    some (a ∷ rest)

  -- The code and the array; no row is no error.
  unfoldable pub fill_array : (Row → A → Option A) → List A → Reply → Result (List A)
  fill_array read array query_failed = some (2, array)
  fill_array read array store_failed = some (3, array)
  fill_array read array (rows found) = do filled ← fill_rows read array found; some (0, filled)

-- `atoi (row[0])` of the first row.
unfoldable pub first_number : Reply → ℤ → Result ℤ
first_number reply old = first_row reply old (λ row. do found ← number row 0; some (0, found))

unfoldable pub get_auth_uid :
    Backend → OtherLists → Bytes → Bytes → Bytes → AuthAccessRes → ℤ → Result AuthAccessRes
get_auth_uid b other pr_uid pr_res_addr pr_account_no old pr_code =
    if b.is_mysql
    then first_row
        (b.reply (
          if int_eq pr_code (pos 502)
          then auth_by_user_502 pr_uid pr_res_addr pr_account_no pr_code
          else auth_by_user pr_uid pr_res_addr pr_account_no pr_code))
        old (λ row. do auth ← read_auth_access_res (decrypt_data b) row old; some (0, auth))
    else other.other_get_auth_uid pr_uid pr_res_addr pr_account_no old pr_code

unfoldable pub get_resaccount_count : Backend → OtherLists → Bytes → Bytes → ℤ → Result ℤ
get_resaccount_count b other pr_res_id pr_user_id old =
    if b.is_mysql
    then first_number (b.reply (account_count pr_res_id pr_user_id)) old
    else other.other_get_resaccount_count pr_res_id pr_user_id old

unfoldable pub read_resaccount : Row → ResAccount → Option ResAccount
read_resaccount row old = do
  pr_account_no ← text row 0
  pr_account_pwd ← text row 1
  some (record { pr_account_no = pr_account_no; pr_account_pwd = pr_account_pwd })

unfoldable pub get_resaccount :
    Backend → OtherLists → Bytes → Bytes → List ResAccount → Result (List ResAccount)
get_resaccount b other pr_res_id pr_user_id array =
    if b.is_mysql
    then fill_array read_resaccount array (b.reply (accounts_of pr_res_id pr_user_id))
    else other.other_get_resaccount pr_res_id pr_user_id array

unfoldable pub get_protocol_prot : Backend → OtherLists → Bytes → ℤ → Result ℤ
get_protocol_prot b other pr_code old =
    if b.is_mysql
    then first_number (b.reply (port_of_protocol pr_code)) old
    else other.other_get_protocol_prot pr_code old

-- The group is not used.
unfoldable pub get_employeeaccount_count : Backend → OtherLists → Bytes → Bytes → ℤ → Result ℤ
get_employeeaccount_count b other pr_uid pr_rg_id old =
    if b.is_mysql
    then first_number (b.reply (employee_account_count pr_uid)) old
    else other.other_get_employeeaccount_count pr_uid pr_rg_id old

-- Neither the group nor the offset is used.
unfoldable pub get_employeeaccounts :
    Backend → OtherLists → Bytes → Bytes → List EmployeeAccount → ℤ → Result (List EmployeeAccount)
get_employeeaccounts b other pr_uid pr_rg_id array offset =
    if b.is_mysql
    then fill_array read_employee_account array (b.reply (employee_accounts_of pr_uid))
    else other.other_get_employeeaccounts pr_uid pr_rg_id array offset

unfoldable pub read_access_protocol : Row → AccessProtocol → Option AccessProtocol
read_access_protocol row old = do
  pr_id ← text_or old.pr_id row 0
  pr_name ← text_or old.pr_name row 1
  pr_code ← number_or old.pr_code row 2
  pr_status ← number_or old.pr_status row 3
  pr_order ← number_or old.pr_order row 4
  pr_port ← text_or old.pr_port row 5
  pr_icon_path ← text_or old.pr_icon_path row 6
  some (record {
    pr_id = pr_id;
    pr_name = pr_name;
    pr_code = pr_code;
    pr_status = pr_status;
    pr_order = pr_order;
    pr_port = pr_port;
    pr_icon_path = pr_icon_path;
  })

unfoldable pub get_pr_access_protocol :
    Backend → OtherLists → ℤ → AccessProtocol → Result AccessProtocol
get_pr_access_protocol b other pr_code old =
    if b.is_mysql
    then first_row (b.reply (protocol_by_code pr_code)) old
        (λ row. do protocol ← read_access_protocol row old; some (0, protocol))
    else other.other_get_pr_access_protocol pr_code old

-- `GetAccessProtocol` of DBRecord/dbrecord.c; `connected` is what `ConnectMysql` returns.
unfoldable pub get_access_protocol :
    Backend → OtherLists → Bool → ℤ → AccessProtocol → Result AccessProtocol
get_access_protocol b other connected pr_code old =
    if connected then get_pr_access_protocol b other pr_code old else some (1, old)

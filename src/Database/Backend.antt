-- ===== src/Database/Backend.antt =====
-- The database as the queries see it: MySQL by its replies, any other by its own functions, and the
-- decryption of stored passwords. All are parameters of the model.
use oscshell.Base.{
  ℕ, Bool, List, [], ◌∷◌, Option, some, if◌then◌else◌, ◌>>=◌, length, ltb, ◌%◌, ◌==◌,
}
use oscshell.Base.Int.{ℤ}
use oscshell.Base.Text.{Bytes}
use oscshell.Policy.{Policy, LevelCmd}
use oscshell.Database.Records.{Employee, Resource, EmployeeAccount, AuthAccessRes, JoinTableId}
use oscshell.Database.Rows.{Row, Reply, query_failed, store_failed, rows}

-- The SELECT statements, each with the values that `sprintf` puts into it.
pub data Query : Type 0 where
  password_of : Bytes → Query
  employee_by_id : Bytes → Query
  account_password : Bytes → Bytes → Query
  protocol_port : Bytes → ℤ → Query
  -- the statement for code 502, which asks for the codes 201 and 202 too
  protocol_port_502 : Bytes → ℤ → Query
  resource_by_id : Bytes → Query
  employee_account_by_id : Bytes → Query
  auth_by_id : Bytes → Query
  -- user, address, account, code and the time now
  joined_ids : Bytes → Bytes → Bytes → ℤ → Bytes → Query
  joined_ids_502 : Bytes → Bytes → Bytes → ℤ → Bytes → Query
  -- role and resource
  item_of_resource : Bytes → Bytes → Query
  -- resource and role
  item_of_group : Bytes → Bytes → Query
  group_of_resource : Bytes → Query
  parent_of_group : Bytes → Query
  -- group and role
  item_of_parent : Bytes → Bytes → Query
  ncl_items : Bytes → Query
  pcl_items : Bytes → Query
  ccl_items : Bytes → Query
  tcl_items : Bytes → Query
  level_commands : Bytes → Query
  -- user, address, account and code
  auth_by_user : Bytes → Bytes → Bytes → ℤ → Query
  auth_by_user_502 : Bytes → Bytes → Bytes → ℤ → Query
  -- resource and user
  account_count : Bytes → Bytes → Query
  accounts_of : Bytes → Bytes → Query
  port_of_protocol : Bytes → Query
  employee_account_count : Bytes → Query
  employee_accounts_of : Bytes → Query
  protocol_by_code : ℤ → Query

-- What a query function returns: its code, and what it leaves in the record that it got.
abbrev pub Result {ℓ} : Type ℓ → Type ℓ
Result A = Option (ℕ × A)

pub record Backend : Type 0 where
  -- strcmp (dbtype, "MYSQL") == 0
  pub is_mysql : Bool
  pub reply : Query → Reply
  -- `_encrypt`, `_decrypt_key` and the key in `aes_key`
  pub encrypt : Bytes → Bytes
  pub decrypt_key : Bytes → Bytes → Bytes
  pub aes_key : Bytes
  -- the functions for other databases: `OCheckEmployee`, `OGetEmployee` and so on
  pub other_check_employee : Bytes → Bytes → Option ℕ
  pub other_get_employee : Bytes → Employee → Result Employee
  pub other_get_res_pwd : Bytes → Bytes → Bytes → Result Bytes
  pub other_get_resource_port : Bytes → ℤ → ℤ → Result ℤ
  pub other_get_resource : Bytes → Bytes → Resource → Result Resource
  pub other_get_employeeaccount : Bytes → EmployeeAccount → Result EmployeeAccount
  pub other_get_auth_id : Bytes → AuthAccessRes → Result AuthAccessRes
  pub other_get_join_table : Bytes → Bytes → Bytes → ℤ → Result (List JoinTableId)
  pub other_get_policy : JoinTableId → Policy → Bool → Result (Policy × Bool)
  pub other_get_level_cmd : Bytes → List LevelCmd → Result (List LevelCmd)

-- `DecryptData`
unfoldable pub decrypt_data : Backend → Bytes → Bytes
decrypt_data b indata =
    if length indata % 44 == 0
    then b.encrypt indata
    else if ltb 0 (length b.aes_key)
    then b.decrypt_key b.aes_key indata
    else b.encrypt indata

module _ {ℓ} {A : Type ℓ} where
  -- The first row of a reply, or the code 2, 3 or 4 and the record as it was.
  unfoldable pub first_row : Reply → A → (Row → Result A) → Result A
  first_row query_failed old read = some (2, old)
  first_row store_failed old read = some (3, old)
  first_row (rows []) old read = some (4, old)
  first_row (rows (row ∷ more)) old read = read row

  -- The loop over all rows of a reply.
  unfoldable pub each_row : (Row → Option A) → List Row → Option (List A)
  each_row read [] = some []
  each_row read (row ∷ more) = do a ← read row; found ← each_row read more; some (a ∷ found)

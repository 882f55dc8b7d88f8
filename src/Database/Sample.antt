-- ===== src/Database/Sample.antt =====
-- A small database, for runs and examples.
use oscshell.Base.{ℕ, zero, suc, true, [], ◌∷◌, ◌++◌, none, some, if◌then◌else◌}
use oscshell.Base.Text.{codes, str_eq}
use oscshell.Database.Rows.{Row, Reply, rows}
use oscshell.Database.Backend.{
  Query, Backend, password_of, employee_by_id, account_password, protocol_port, protocol_port_502,
  resource_by_id, employee_account_by_id, auth_by_id, joined_ids, joined_ids_502, item_of_resource,
  item_of_group, group_of_resource, parent_of_group, item_of_parent, ncl_items, pcl_items,
  ccl_items, tcl_items, level_commands, auth_by_user, auth_by_user_502, account_count, accounts_of,
  port_of_protocol, employee_account_count, employee_accounts_of, protocol_by_code,
}

abbrev pub ones : ℕ → Row
ones zero = []
ones (suc n) = some (codes "1") ∷ ones n

abbrev pub one_row : Row → Reply
one_row row = rows (row ∷ [])

-- One employee with the password "secret", and one policy, at the resource.
abbrev pub select : Query → Reply
select (password_of name) = one_row (some (codes "secret") ∷ [])
select (employee_by_id id) = one_row (ones 5 ++ some (codes "secret") ∷ ones 14)
select (ncl_items id) = one_row (some (codes "2") ∷ (some (codes "5") ∷ []))
select (pcl_items id) = one_row (some (codes "ssh") ∷ (some (codes "22") ∷ []))
select (ccl_items id) = rows []
select (tcl_items id) = one_row (
    some (codes "0")
    ∷ (some []
        ∷ (some (codes "08:30:00")
            ∷ (some (codes "18:00:00") ∷ (some (codes "0") ∷ (some [] ∷ []))))))
select (auth_by_id id) = one_row (ones 38)
select (resource_by_id id) = one_row (ones 21)
select (employee_account_by_id id) = one_row (ones 24)
select (joined_ids user address account code now) = one_row (ones 6)
select (joined_ids_502 user address account code now) = one_row (ones 6)
select (account_password id account) = one_row (ones 1)
select (protocol_port id code) = one_row (ones 1)
select (protocol_port_502 id code) = one_row (ones 1)
select (item_of_resource role id) = one_row (some (codes "7") ∷ [])
select (item_of_group id role) = rows []
select (group_of_resource id) = rows []
select (parent_of_group id) = rows []
select (item_of_parent id role) = rows []
select (level_commands id) = rows []
select (auth_by_user user address account code) = one_row (ones 38)
select (auth_by_user_502 user address account code) = one_row (ones 38)
select (account_count id user) = one_row (some (codes "2") ∷ [])
select (accounts_of id user) = rows (
    (some (codes "root") ∷ some (codes "r7") ∷ [])
    ∷ (some (codes "ann") ∷ some (codes "a7") ∷ [])
    ∷ [])
select (port_of_protocol code) = one_row (some (codes "22") ∷ [])
select (employee_account_count user) = one_row (some (codes "1") ∷ [])
select (employee_accounts_of user) = one_row (ones 24)
select (protocol_by_code code) = one_row (ones 7)

abbrev pub sample : Backend
sample = record {
  is_mysql = true;
  reply = select;
  encrypt = λ s. s;
  decrypt_key = λ key s. s;
  aes_key = [];
  other_check_employee = λ name password. none;
  other_get_employee = λ id old. none;
  other_get_res_pwd = λ id account old. none;
  other_get_resource_port = λ id code old. none;
  other_get_resource = λ id account old. none;
  other_get_employeeaccount = λ id old. none;
  other_get_auth_id = λ id old. none;
  other_get_join_table = λ user address account code. none;
  other_get_policy = λ table old is_resource. none;
  other_get_level_cmd = λ id old. none;
}

-- Groups: "a" under "b" under the root; "b" has the item "9". The group "c" is its own parent.
abbrev pub group_select : Query → Reply
group_select (parent_of_group id) = one_row (
    some (
      if str_eq id (codes "a")
      then codes "b"
      else if str_eq id (codes "c")
      then codes "c"
      else codes "0000000000")
    ∷ [])
group_select (item_of_parent id role) =
    if str_eq id (codes "b") then one_row (some (codes "9") ∷ []) else rows []
group_select other = rows []

abbrev pub groups : Backend
groups = record sample { reply = group_select }

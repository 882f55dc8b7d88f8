-- ===== src/Access/Tests.antt =====
-- Runs of the access decision, and the theorems at a small database.
use oscshell.Base.{
  arith, false, Option, ℕ, true, List, [], ◌∷◌, none, some, ◌≡◌, ◌≢◌, ◌↔◌, refl, length,
}
use oscshell.Base.Int.{pos, atoi}
use oscshell.Base.Text.{Bytes, codes, contains, strstr}
use oscshell.Policy.{
  Policy, check_items, deny_loop, in_range, serves, match_ncl_item, match_pcl_item, format_time,
  is_open, match_tcl_item,
}
use oscshell.Database.Records.{JoinTableId, Employee, Resource, EmployeeAccount, AuthAccessRes}
use oscshell.Database.Cleared.{no_employee, no_resource, no_employee_account, no_auth_access_res}
use oscshell.Database.Rows.{text, text_or, number, number_or, secret}
use oscshell.Database.Readers.{read_employee, read_resource, read_join_table_id}
use oscshell.Database.AccountReaders.{read_employee_account, read_auth_access_res}
use oscshell.Database.Backend.{decrypt_data, first_row, each_row}
use oscshell.Database.Fetch
use oscshell.Database.Fetch.{
  get_employee, get_res_pwd, get_resource_port, get_resource, get_employeeaccount, get_auth_id,
  join_reply, get_join_table, get_level_cmd, level_reply, read_level_cmd,
}
use oscshell.Database.PolicySearch.{
  find_item, read_ncl_item, read_pcl_item, read_tcl_item, fill, fill_policy, after_search,
  get_policy,
}
use oscshell.Database.Sample.{sample}
use oscshell.Access.{Call, with_policy, after_policy, scan, is_refused}
use oscshell.Access.Session
use oscshell.Access.Session.{
  ProxyInfo, Outcome, first_table, need, with_tables, with_auth, with_resource, with_employee,
  get_config_for_user, with_input, with_port, get_config_for_id,
}
use oscshell.Access.Sample.{session}
use oscshell.Access.Run.{call, info_of, granted_info, config_granted}
use oscshell.Access.Granted.{IsFilled, get_config_for_user_iff}
use oscshell.Access.Uses.{counted}
use oscshell.Access.Allows.{Allows}
use oscshell.Access.Config.{get_config_safe}
use oscshell.Access.Safe.{Passed, get_config_for_user_safe, get_config_for_id_safe}

user_granted :
    get_config_for_user call session ≡ some (info_of (get_config_for_user call session), 1)
unfolding get_config_for_user with_tables get_join_table join_reply each_row read_join_table_id text
    text_or number number_or secret scan get_policy find_item after_search fill_policy fill
    read_ncl_item read_pcl_item read_tcl_item atoi after_policy with_policy match_ncl_item
    match_pcl_item match_tcl_item check_items deny_loop in_range serves is_open format_time
    is_refused with_employee need get_employee first_row read_employee decrypt_data
    Session.with_password strstr with_resource get_resource read_resource Fetch.with_password
    get_res_pwd get_employeeaccount read_employee_account with_auth
user_granted = refl

id_granted : get_config_for_id call session ≡ some (info_of (get_config_for_id call session), 1)
unfolding get_config_for_id get_auth_id read_auth_access_res with_input with_port get_resource_port
    with_tables get_join_table join_reply each_row read_join_table_id text text_or number number_or
    secret scan get_policy find_item after_search fill_policy fill read_ncl_item read_pcl_item
    read_tcl_item atoi after_policy with_policy match_ncl_item match_pcl_item match_tcl_item
    check_items deny_loop in_range serves is_open format_time is_refused need get_employee first_row
    read_employee decrypt_data
id_granted = refl

get_config_for_user_safe_example :
    (ids : List JoinTableId) × (employee : Employee) × (get_join_table sample
        (codes "2016-07-14 09:05:00")
        (codes "ann")
        (codes "1")
        (codes "root")
        (pos 22)
      ≡ some (0, ids))
    × (get_employee sample (first_table ids).pr_employee_id no_employee ≡ some (0, employee))
    × (contains (codes "my secret") employee.pr_pwd ≡ true)
    × Passed call ids
get_config_for_user_safe_example =
    get_config_for_user_safe call session (info_of (get_config_for_user call session)) user_granted

get_config_for_id_safe_example :
    (auth : AuthAccessRes) × (ids : List JoinTableId) × (get_auth_id sample
        (codes "1")
        no_auth_access_res
      ≡ some (0, auth))
    × (get_join_table sample
          (codes "2016-07-14 09:05:00")
          auth.pr_uid
          auth.pr_res_addr
          auth.pr_account_no
          (pos 22)
        ≡ some (0, ids))
    × Passed call ids
get_config_for_id_safe_example =
    get_config_for_id_safe call session (info_of (get_config_for_id call session)) id_granted

abbrev employee_of : Option (ℕ × Employee) → Employee
employee_of none = no_employee
employee_of (some (code, e)) = e

abbrev resource_of : Option (ℕ × Resource) → Resource
resource_of none = no_resource
resource_of (some (code, r)) = r

abbrev account_of : Option (ℕ × EmployeeAccount) → EmployeeAccount
account_of none = no_employee_account
account_of (some (code, a)) = a

abbrev policies_of : Option (List Policy) → List Policy
policies_of none = []
policies_of (some ps) = ps

abbrev one : Bytes
one = codes "1"

abbrev ids : List JoinTableId
ids =
    record {
      pr_employee_id = one;
      pr_employeeaccount_id = one;
      pr_resource_id = one;
      pr_resaccount_id = one;
      pr_role_id = one;
      pr_accessprotocol_id = one;
    }
    ∷ []

abbrev employee : Employee
employee = employee_of (get_employee sample one no_employee)

abbrev resource : Resource
resource = resource_of (get_resource sample one (codes "root") no_resource)

abbrev account : EmployeeAccount
account = account_of (get_employeeaccount sample one no_employee_account)

joins :
    get_join_table sample (codes "2016-07-14 09:05:00") (codes "ann") one (codes "root") (pos 22)
    ≡ some (0, ids)
unfolding get_join_table join_reply each_row read_join_table_id text
joins = refl

-- The same call at night, when the policy is closed.
abbrev night : Call
night = record call { now = record { hour = 23; minute = 0; second = 0 } }

-- The policy counts by day and by night.
counts :
    (counted call ids false ≡ some (policies_of (counted call ids false)))
    × (counted night ids false ≡ some (policies_of (counted night ids false)))
    × (length (policies_of (counted night ids false)) ≡ 1)
unfolding counted get_policy find_item after_search fill_policy fill each_row text number
    read_ncl_item read_pcl_item read_tcl_item atoi
counts = (refl, refl, refl)

fetches :
    (get_employee sample one no_employee ≡ some (0, employee))
    × (contains (codes "my secret") employee.pr_pwd ≡ true)
    × (get_resource sample one (codes "root") no_resource ≡ some (0, resource))
    × (get_employeeaccount sample one no_employee_account ≡ some (0, account))
unfolding get_employee get_resource get_employeeaccount get_res_pwd Fetch.with_password first_row
    read_employee read_resource read_employee_account text text_or number number_or secret
    decrypt_data atoi strstr
fetches = (refl, refl, refl, refl)

night_refused :
    get_config_for_user night session ≡ some (info_of (get_config_for_user night session), 0)
unfolding get_config_for_user with_tables get_join_table join_reply each_row read_join_table_id text
    text_or number number_or secret scan get_policy find_item after_search fill_policy fill
    read_ncl_item read_pcl_item read_tcl_item atoi after_policy with_policy match_ncl_item
    match_pcl_item match_tcl_item check_items deny_loop in_range serves is_open format_time
    is_refused
night_refused = refl

get_config_for_user_iff_example :
    (out : ProxyInfo) × (code : ℕ) × (get_config_for_user night session ≡ some (out, code))
    × ((code ≡ 1) ↔ (
        Allows night (policies_of (counted night ids false))
        × (contains (codes "my secret") employee.pr_pwd ≡ true)))
    × (code ≡ 1 → IsFilled out employee resource account)
    × (code ≢ 1 → (code ≡ 0) × (out.server_pwd ≡ []))
get_config_for_user_iff_example =
    get_config_for_user_iff night session ids (policies_of (counted night ids false)) employee
      resource account joins counts.1 fetches.0 fetches.2 fetches.3

get_config_safe_example :
    (ids : List JoinTableId) × (employee : Employee) × (get_join_table sample
        (codes "2016-07-14 09:05:00")
        (codes "ann")
        (codes "1")
        (codes "root")
        (pos 22)
      ≡ some (0, ids))
    × (get_employee sample (first_table ids).pr_employee_id no_employee ≡ some (0, employee))
    × (contains (codes "my secret") employee.pr_pwd ≡ true)
    × Passed call ids
get_config_safe_example =
    get_config_safe true call (codes "ann") (codes "my secret") (codes "1") (codes "22")
      (codes "root") session granted_info (omega arith) (omega arith) (omega arith) (omega arith)
      (omega arith) config_granted

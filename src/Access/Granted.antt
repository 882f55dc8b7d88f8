-- ===== src/Access/Granted.antt =====
-- When `GetConfigForUser` grants a session, and what it fills in.
use oscshell.Base.{ℕ, true, false, List, some, ◌≡◌, ◌≢◌, ◌↔◌, inl, inr, refl, arith, Bool-cases}
use oscshell.Base.Text.{contains}
use oscshell.Policy.{Policy}
use oscshell.Database.Records.{Employee, Resource, EmployeeAccount, JoinTableId}
use oscshell.Database.Cleared.{no_employee, no_resource, no_employee_account, no_auth_access_res}
use oscshell.Database.Fetch.{get_employee, get_resource, get_employeeaccount, get_join_table}
use oscshell.Access.{Call, is_refused}
use oscshell.Access.Uses.{counted}
use oscshell.Access.Allows.{Allows, scan-Allows}
use oscshell.Access.Session.{
  ProxyInfo, first_table, need, with_tables, with_auth, with_resource, with_password, with_employee,
  get_config_for_user,
}

-- What a session that is granted has got from the records found.
pub record IsFilled (out : ProxyInfo) (employee : Employee) (resource : Resource)
    (account : EmployeeAccount) : Type 0 where
  pub password : out.server_pwd ≡ resource.pr_passwd
  pub user : out.auth.pr_user_id ≡ employee.pr_id
  pub res : out.auth.pr_res_id ≡ resource.pr_id
  pub account_id : out.auth.pr_account_id ≡ account.pr_account_id

-- If the queries of `GetConfigForUser` succeed and the policies that count for the tables are found,
-- the session is granted exactly if these policies are none, or one of them allows the address, one
-- the protocol and one the time, and the stored password occurs in the given one. A session that is
-- granted has the resource's password, and the ids of the employee, the resource and the account that
-- were found; otherwise 0 is returned and the server's password is as it was.
pub get_config_for_user_iff :
    (c : Call) (info : ProxyInfo) (ids : List JoinTableId) (used : List Policy)
    (employee : Employee) (resource : Resource) (account : EmployeeAccount)
    → get_join_table c.backend c.timenow info.input_name info.server_ip info.server_name
        c.access_type
      ≡ some (0, ids)
    → counted c ids false ≡ some used
    → get_employee c.backend (first_table ids).pr_employee_id no_employee ≡ some (0, employee)
    → get_resource c.backend (first_table ids).pr_resource_id info.server_name no_resource
      ≡ some (0, resource)
    → get_employeeaccount c.backend (first_table ids).pr_employeeaccount_id no_employee_account
      ≡ some (0, account)
    → (out : ProxyInfo) × (code : ℕ) × (get_config_for_user c info ≡ some (out, code))
      × ((code ≡ 1) ↔ (Allows c used × (contains info.input_pwd employee.pr_pwd ≡ true)))
      × (code ≡ 1 → IsFilled out employee resource account)
      × (code ≢ 1 → (code ≡ 0) × (out.server_pwd ≡ info.server_pwd))
unfolding get_config_for_user with_tables need with_employee with_password with_resource with_auth
get_config_for_user_iff c info ids used employee resource account j u e r a =
    let (rights, policies, s, decides) = scan-Allows c ids used u in
    let scanned : ProxyInfo = record info {
      auth = no_auth_access_res;
      table_id = ids;
      policy = policies;
    } in
    let known : ProxyInfo = record scanned { employee = employee } in
    let complete : ProxyInfo = record known {
      resource = resource;
      server_pwd = resource.pr_passwd;
      employeeaccount = account;
    } in
    elim (Bool-cases (is_refused rights)) [
      | inl g ↦ (
        scanned,
        0,
        rw j (rw s (rw g)),
        (λ one. absurd (omega arith), λ both. absurd (cc (decides.1 both.0))),
        λ one. absurd (omega arith),
        λ not_one. (refl, refl),
      )
      | inr g ↦ elim (Bool-cases (contains info.input_pwd employee.pr_pwd)) [
        | inl p ↦ (
          with_auth c complete,
          1,
          rw j (rw s (rw g (rw e (rw p (rw r (rw a)))))),
          (λ one. (decides.0 g, p), λ both. refl),
          λ one. record { password = refl; user = refl; res = refl; account_id = refl },
          λ not_one. absurd (not_one refl),
        )
        | inr p ↦ (
          known,
          0,
          rw j (rw s (rw g (rw e (rw p)))),
          (λ one. absurd (omega arith), λ both. absurd (cc (both.1))),
          λ one. absurd (omega arith),
          λ not_one. (refl, refl),
        )
      ]
    ]

-- ===== src/Access.antt =====
-- The access decision: `GetConfigForUser` and `GetConfigForID` of DBRecord/DBoperate.c, and
-- `GetConfig` of DBRecord/dbrecord.c that calls them.
pub mod Session
pub mod Uses
pub mod Used
pub mod Allows
pub mod Safe
pub mod Granted
pub mod Config
pub mod Sample
pub mod Run
mod Tests
use oscshell.Base.{
  ℕ, zero, suc, Bool, true, false, ◌||◌, ◌&&◌, not, List, [], ◌∷◌, Option, none, some,
  if◌then◌else◌, ◌>>=◌, map, ◌==◌, length,
}
use oscshell.Base.Int.{ℤ, pos, int_eq, atoi}
use oscshell.Base.Text.{Bytes, contains}
use oscshell.Policy.{Policy, DayTime, match_ncl_item, match_pcl_item, match_tcl_item, LevelCmd}
use oscshell.Database.Records.{Employee, Resource, EmployeeAccount, AuthAccessRes, JoinTableId}
use oscshell.Database.Cleared.{no_employee, no_resource, no_employee_account, no_auth_access_res}
use oscshell.Database.Backend.{Result, Backend}
use oscshell.Database.Fetch.{
  get_employee, get_resource_port, get_resource, get_employeeaccount, get_auth_id, get_join_table,
}
use oscshell.Database.PolicySearch.{get_policy}

-- memset (…, 0, sizeof (Policy))
abbrev pub no_policy : Policy
no_policy = record { pr_prolicyroleitem_id = []; ncl = []; pcl = []; ccl = []; tcl = [] }

-- What a call is made with: the database, the rounds of the search for a policy, `inet_addr`, the
-- local time and the address of the client.
pub record Call : Type 0 where
  pub backend : Backend
  pub rounds : ℕ
  pub inet : Bytes → ℕ
  pub now : DayTime
  pub timenow : Bytes
  pub proxy_ip : Bytes
  pub client_ip : Bytes
  pub access_type : ℤ

-- The variables of the loop over the tables.
pub record Rights : Type 0 where
  pub nclright : Bool
  pub pclright : Bool
  pub tclright : Bool
  pub find_res : Bool
  pub find_policy : Bool

abbrev pub no_rights : Rights
no_rights = record {
  nclright = false;
  pclright = false;
  tclright = false;
  find_res = false;
  find_policy = false;
}

-- What the three tests add for a policy that was found.
pub with_policy : Call → Policy → Bool → Rights → Rights
with_policy c p is_resource r = record {
  nclright = match_ncl_item c.inet (some p) c.client_ip == 0 || r.nclright;
  pclright = match_pcl_item (some p) c.access_type == 0 || r.pclright;
  tclright = match_tcl_item (some p) c.now == 0 || r.tclright;
  find_res = is_resource || r.find_res;
  find_policy = true;
}

-- The variables after one round, and whether the loop goes on.
pub after_policy : Call → ℕ → Policy → Bool → Rights → Rights × Bool
after_policy c code p is_resource r =
    if not (code == 0)
    then (r, true)
    else if not is_resource && r.find_res
    then (record r { find_policy = true }, false)
    else (with_policy c p is_resource r, true)

-- The loop, and the policies that it leaves.
pub scan : Call → List JoinTableId → Rights → Option (Rights × List Policy)
scan c [] r = some (r, [])
scan c (t ∷ ts) r = do
  (code, (p, is_resource)) ← get_policy c.backend c.rounds t no_policy r.find_res
  let (next, goes_on) = after_policy c code p is_resource r
  let rest = scan c ts next
  if goes_on
      then (do (end, ps) ← rest; some (end, p ∷ ps))
      else some (next, p ∷ map (λ _. no_policy) ts)

-- (nclright == 0 || pclright == 0 || tclright == 0) && findPolicy == 1
pub is_refused : Rights → Bool
is_refused r = (not r.nclright || not r.pclright || not r.tclright) && r.find_policy

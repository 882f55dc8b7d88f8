-- ===== src/Access/Safe.antt =====
-- What a granted session has passed.
use oscshell.Base.{
  ℕ, true, false, List, none, some, ◌==◌, ==_iff, ◌≡◌, ◌≢◌, inl, inr, refl, ap, ◌∙◌, arith,
  Bool-cases, Option-cases,
}
use oscshell.Base.Text.{contains}
use oscshell.Policy.{Policy}
use oscshell.Database.Records.{JoinTableId, Employee, AuthAccessRes}
use oscshell.Database.Cleared.{no_employee, no_auth_access_res}
use oscshell.Database.Backend.{Result}
use oscshell.Database.Fetch.{get_employee, get_join_table, get_auth_id}
use oscshell.Access.{Call, Rights, no_rights, scan, is_refused}
use oscshell.Access.Uses.{counted}
use oscshell.Access.Allows.{Allows, counted-scan}
use oscshell.Access.Session.{
  ProxyInfo, Outcome, first_table, need, with_tables, with_employee, with_password,
  get_config_for_user, with_input, with_port, get_config_for_id,
}

abbrev code_of : Outcome → ℕ
code_of none = 0
code_of (some (info, code)) = code

not_granted : (o : Outcome) (info : ProxyInfo) → code_of o ≡ 0 → o ≢ some (info, 1)
not_granted o info e h = let one : code_of o ≡ 1 = ap code_of h in absurd (omega arith)

-- A call of `need` that comes to 1 has got 0 from its query.
record Passes {A : Type 0} (r : Result A) (put : A → ProxyInfo) (continue : ProxyInfo → Outcome)
    (info : ProxyInfo) : Type 0 where
  value : A
  gets : r ≡ some (0, value)
  continues : continue (put value) ≡ some (info, 1)

Passes-need :
    {A : Type 0} (r : Result A) (put : A → ProxyInfo) (continue : ProxyInfo → Outcome)
    (info : ProxyInfo)
    → need r put continue ≡ some (info, 1)
    → Passes r put continue info
unfolding need
Passes-need none put continue info h = absurd (not_granted _ _ refl h)
Passes-need (some (code, a)) put continue info h = elim (Bool-cases (code == 0)) [
  | inl e ↦ record {
    value = a;
    gets = ap (λ (n : ℕ). some (n, a)) ((==_iff code 0).0 e);
    continues = rw e at h;
  }
  | inr e ↦ absurd (not_granted _ _ refl (rw e at h))
]

-- A call of `with_tables` that comes to 1 has found tables, and their policies give the rights.
record Checks (c : Call) (info : ProxyInfo) (continue : ProxyInfo → Outcome) (out : ProxyInfo)
    : Type 0 where
  ids : List JoinTableId
  rights : Rights
  policies : List Policy
  joins :
      get_join_table c.backend c.timenow info.input_name info.server_ip info.server_name
        c.access_type
      ≡ some (0, ids)
  scans : scan c ids no_rights ≡ some (rights, policies)
  passes : is_refused rights ≡ false
  continues : continue (record info { table_id = ids; policy = policies }) ≡ some (out, 1)

Checks-with_tables :
    (c : Call) (info : ProxyInfo) (continue : ProxyInfo → Outcome) (out : ProxyInfo)
    → with_tables c info continue ≡ some (out, 1)
    → Checks c info continue out
unfolding with_tables
Checks-with_tables c info continue out h =
    elim (Option-cases (
      get_join_table c.backend c.timenow info.input_name info.server_ip info.server_name
        c.access_type)) [
          | inl e ↦ absurd (not_granted _ _ refl (rw e at h))
          | inr ((code, ids), e) ↦ elim (Bool-cases (code == 0)) [
            | inr z ↦ absurd (not_granted _ _ refl (rw z at (rw e at h)))
            | inl z ↦ elim (Option-cases (scan c ids no_rights)) [
              | inl f ↦ absurd (not_granted _ _ refl (rw f at (rw z at (rw e at h))))
              | inr ((rights, policies), f) ↦ elim (Bool-cases (is_refused rights)) [
                | inl g ↦ absurd (not_granted _ _ refl (rw g at (rw f at (rw z at (rw e at h)))))
                | inr g ↦ record {
                  ids = ids;
                  rights = rights;
                  policies = policies;
                  joins = e ∙ ap (λ (n : ℕ). some (n, ids)) ((==_iff code 0).0 z);
                  scans = f;
                  passes = g;
                  continues = rw g at (rw f at (rw z at (rw e at h)));
                }
              ]
            ]
          ]
        ]

-- The policies that count for the tables are found, and there is none, or one of them allows the
-- address, one the protocol and one the time.
pub record Passed (c : Call) (ids : List JoinTableId) : Type 0 where
  pub used : List Policy
  pub finds : counted c ids false ≡ some used
  pub allows : Allows c used

Passed-Checks :
    (c : Call) (info : ProxyInfo) (continue : ProxyInfo → Outcome) (out : ProxyInfo)
    (k : Checks c info continue out)
    → Passed c k.ids
Passed-Checks c info continue out k =
    let (used, e, decides) = counted-scan c k.ids k.rights k.policies k.scans in
    record { used = used; finds = e; allows = decides.0 k.passes }

passes_password :
    (c : Call) (info out : ProxyInfo)
    → with_password c info ≡ some (out, 1)
    → contains info.input_pwd info.employee.pr_pwd ≡ true
unfolding with_password
passes_password c info out h = elim (Bool-cases (contains info.input_pwd info.employee.pr_pwd)) [
  | inl e ↦ e
  | inr e ↦ absurd (not_granted _ _ refl (rw e at h))
]

-- If `GetConfigForUser` grants the session, the database has tables for the user, the server and the
-- account; the policies that count for these tables, as the database gives them one after the other,
-- are none, or one of them allows the address, one the protocol and one the time; and the stored
-- password of the first table's employee occurs in the given one.
pub get_config_for_user_safe :
    (c : Call) (info out : ProxyInfo)
    → get_config_for_user c info ≡ some (out, 1)
    → (ids : List JoinTableId) × (employee : Employee) × (get_join_table c.backend c.timenow
          info.input_name info.server_ip info.server_name c.access_type
        ≡ some (0, ids))
      × (get_employee c.backend (first_table ids).pr_employee_id no_employee ≡ some (0, employee))
      × (contains info.input_pwd employee.pr_pwd ≡ true)
      × Passed c ids
unfolding get_config_for_user with_employee
get_config_for_user_safe c info out h =
    let k =
      Checks-with_tables c (record info { auth = no_auth_access_res }) (with_employee c) out h in
    let e = Passes-need _ _ _ _ k.continues in
    (
      k.ids,
      e.value,
      k.joins,
      e.gets,
      passes_password c _ out e.continues,
      Passed-Checks c (record info { auth = no_auth_access_res }) (with_employee c) out k,
    )

-- If `GetConfigForID` grants the session, the authorisation that the id names is stored, the
-- database has tables for its user, server and account, and the policies that count for these tables,
-- as the database gives them one after the other, are none, or one of them allows the address, one
-- the protocol and one the time.
pub get_config_for_id_safe :
    (c : Call) (info out : ProxyInfo)
    → get_config_for_id c info ≡ some (out, 1)
    → (auth : AuthAccessRes) × (ids : List JoinTableId) × (get_auth_id c.backend info.pr_id
          no_auth_access_res
        ≡ some (0, auth))
      × (get_join_table c.backend c.timenow auth.pr_uid auth.pr_res_addr auth.pr_account_no
            c.access_type
          ≡ some (0, ids))
      × Passed c ids
unfolding get_config_for_id with_port with_input
get_config_for_id_safe c info out h =
    let a = Passes-need _ _ _ _ h in
    let e = Passes-need _ _ _ _ a.continues in
    let p = Passes-need _ _ _ _ e.continues in
    let k = Checks-with_tables c _ _ out p.continues in
    (a.value, k.ids, a.gets, k.joins, Passed-Checks c _ _ out k)

-- ===== src/Access/Run.antt =====
-- A call that is granted, for examples.
use Prim.Native.Nat.{◌^◌}
use oscshell.Base.{ℕ, true, [], ◌∷◌, none, some, ◌≡◌, refl}
use oscshell.Base.Int.{pos, atoi}
use oscshell.Base.Text.{Bytes, codes, strstr, tokens, tokens_behind}
use oscshell.Policy.{
  check_items, deny_loop, in_range, serves, match_ncl_item, match_pcl_item, format_time, is_open,
  match_tcl_item,
}
use oscshell.Database.Rows.{text, text_or, number, number_or, secret}
use oscshell.Database.Readers.{read_employee, read_resource, read_join_table_id}
use oscshell.Database.AccountReaders.{read_employee_account}
use oscshell.Database.Backend.{decrypt_data, first_row, each_row}
use oscshell.Database.Fetch
use oscshell.Database.Fetch.{
  get_employee, get_res_pwd, get_resource_port, get_resource, get_employeeaccount, get_auth_id,
  join_reply, get_join_table, get_level_cmd, level_reply, read_level_cmd,
}
use oscshell.Database.PolicySearch.{
  find_item, read_ncl_item, read_pcl_item, read_tcl_item, fill, fill_policy, after_search,
  get_policy,
}
use oscshell.Database.Sample.{sample}
use oscshell.Access.{Call, with_policy, after_policy, scan, is_refused}
use oscshell.Access.Session
use oscshell.Access.Session.{
  ProxyInfo, Outcome, first_table, need, with_tables, with_auth, with_resource, with_employee,
  get_config_for_user, with_input, with_port, get_config_for_id,
}
use oscshell.Access.Sample.{session}
use oscshell.Access.Config.{params_fit, with_params, with_levels, get_config, user_name}

abbrev one_digit : Bytes → ℕ
one_digit [] = 2 ^ 32
one_digit (c ∷ s) = c

abbrev pub call : Call
call = record {
  backend = sample;
  rounds = 0;
  inet = one_digit;
  now = record { hour = 9; minute = 5; second = 0 };
  timenow = codes "2016-07-14 09:05:00";
  proxy_ip = codes "1";
  client_ip = codes "4";
  access_type = pos 22;
}

abbrev pub info_of : Outcome → ProxyInfo
info_of none = session
info_of (some (info, code)) = info

abbrev pub asked : Bytes
asked = user_name (codes "ann") (codes "my secret") (codes "1") (codes "22") (codes "root")

abbrev pub granted_info : ProxyInfo
granted_info = info_of (get_config true call (some asked) session)

pub config_granted : get_config true call (some asked) session ≡ some (granted_info, 1)
unfolding get_config with_params params_fit tokens tokens_behind with_levels get_level_cmd
    level_reply read_level_cmd get_config_for_user with_tables get_join_table join_reply each_row
    read_join_table_id text text_or number number_or secret scan get_policy find_item after_search
    fill_policy fill read_ncl_item read_pcl_item read_tcl_item atoi after_policy with_policy
    match_ncl_item match_pcl_item match_tcl_item check_items deny_loop in_range serves is_open
    format_time is_refused with_employee need get_employee first_row read_employee decrypt_data
    Session.with_password strstr with_resource get_resource read_resource Fetch.with_password
    get_res_pwd get_employeeaccount read_employee_account with_auth
config_granted = refl

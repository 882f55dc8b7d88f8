-- ===== src/Access/Config.antt =====
-- `GetConfig` of DBRecord/dbrecord.c, up to the record of the login. `connected` says whether
-- `ConnectMysql` succeeds; the field `type`, which nothing here reads, is left out.
use oscshell.Base.{
  ℕ, zero, suc, Bool, true, false, ◌&&◌, List, [], ◌∷◌, ◌++◌, Option, none, some, ◌<◌,
  if◌then◌else◌, ◌>>=◌, length, ltb, ◌==◌, ◌≡◌, sym, ap, ◌∙◌, arith, append_assoc, append-nil,
  bind-some, Bool-cases, inl, inr,
}
use oscshell.Base.Int.{atoi}
use oscshell.Base.Text.{Bytes, Lacks, contains, tokens, tokens_behind}
use oscshell.Database.Records.{Employee, JoinTableId}
use oscshell.Database.Cleared.{no_employee}
use oscshell.Database.Fetch.{get_employee, get_join_table, get_level_cmd}
use oscshell.Access.{Call}
use oscshell.Access.Session.{
  ProxyInfo, Outcome, first_table, get_config_for_user, get_config_for_id,
}
use oscshell.Access.Safe.{Passed, get_config_for_user_safe}

-- DIR_MAXDEPTH + 5
abbrev pub param_size : ℕ
param_size = 37

-- The first `n` parameters fit their arrays; those behind are not copied.
unfoldable pub params_fit : ℕ → List Bytes → Bool
params_fit zero ps = true
params_fit (suc n) [] = true
params_fit (suc n) (p ∷ ps) = ltb (length p) param_size && params_fit n ps

unfoldable pub with_params : Call → List Bytes → ProxyInfo → Outcome
with_params c (user ∷ password ∷ ip ∷ port ∷ account ∷ []) info =
    get_config_for_user c (record info {
      input_name = user;
      input_pwd = password;
      server_ip = ip;
      server_port = atoi port;
      server_name = account;
    })
with_params c (id ∷ []) info = get_config_for_id c (record info { pr_id = id })
with_params c _ info = some (info, 0)

-- `GetLeveCmd` after a success.
unfoldable pub with_levels : Call → ProxyInfo → ℕ → Outcome
with_levels c info zero = some (info, 0)
with_levels c info (suc n) = do
  (code, levels) ← get_level_cmd c.backend info.auth.pr_res_id info.levelcmd
  some (record info { levelcmd = levels }, suc n)

unfoldable pub get_config : Bool → Call → Option Bytes → ProxyInfo → Outcome
get_config connected c none info = some (info, 0)
get_config connected c (some username) info =
    let rest = (do
      (found, code) ← with_params c (tokens b'#' username) info
      with_levels c found code) in
    if params_fit 6 (tokens b'#' username)
    then (if connected then rest else some (info, 0))
    else none

tokens_behind-word :
    (sep : ℕ) (cur p s : Bytes)
    → Lacks sep p
    → tokens_behind sep cur (p ++ s) ≡ tokens_behind sep (cur ++ p) s
unfolding tokens_behind
tokens_behind-word sep cur [] s h = ap (λ (x : Bytes). tokens_behind sep x s) (sym (append-nil cur))
tokens_behind-word sep [] (c ∷ p) s h =
    let e : (c == sep) ≡ false = ground (arith, h.0) in
    rw (e, tokens_behind) (tokens_behind-word sep (c ∷ []) p s h.1)
tokens_behind-word sep (d ∷ cur) (c ∷ p) s h =
    let e : (c == sep) ≡ false = ground (arith, h.0) in
    rw (e, tokens_behind)
      (tokens_behind-word sep (d ∷ (cur ++ c ∷ [])) p s h.1
        ∙ ap (λ (x : Bytes). tokens_behind sep (d ∷ x) s) (append_assoc cur (c ∷ []) p))

-- A parameter: not empty, and without the separator.
abbrev pub IsParam : Bytes → Type 0
IsParam p = (0 < length p) × Lacks b'#' p

tokens-param : (p s : Bytes) → IsParam p → tokens b'#' (p ++ (b'#' ∷ s)) ≡ p ∷ tokens b'#' s
unfolding tokens tokens_behind
tokens-param [] s h = absurd (omega (arith, h.0))
tokens-param (c ∷ p) s h = tokens_behind-word b'#' [] (c ∷ p) (b'#' ∷ s) h.1

tokens-last : (p : Bytes) → IsParam p → tokens b'#' p ≡ p ∷ []
unfolding tokens tokens_behind
tokens-last [] h = absurd (omega (arith, h.0))
tokens-last (c ∷ p) h =
    ap (tokens_behind b'#' []) (sym (append-nil (c ∷ p)))
    ∙ tokens_behind-word b'#' [] (c ∷ p) [] h.1

-- The name by which a user asks for an account on a server.
abbrev pub user_name : Bytes → Bytes → Bytes → Bytes → Bytes → Bytes
user_name user password ip port account =
    user ++ (b'#' ∷ (password ++ (b'#' ∷ (ip ++ (b'#' ∷ (port ++ (b'#' ∷ account)))))))

tokens-user_name :
    (user password ip port account : Bytes)
    → IsParam user
    → IsParam password
    → IsParam ip
    → IsParam port
    → IsParam account
    → tokens b'#' (user_name user password ip port account)
      ≡ user ∷ password ∷ ip ∷ port ∷ account ∷ []
tokens-user_name user password ip port account u w i p a =
    tokens-param user _ u
    ∙ ap (◌∷◌ user) (
        tokens-param password _ w
        ∙ ap (◌∷◌ password) (
            tokens-param ip _ i
            ∙ ap (◌∷◌ ip) (tokens-param port _ p ∙ ap (◌∷◌ port) (tokens-last account a))))

abbrev code_of : Outcome → ℕ
code_of none = 2
code_of (some (info, code)) = code

with_levels-granted :
    (c : Call) (info out : ProxyInfo) (code : ℕ)
    → with_levels c info code ≡ some (out, 1)
    → code ≡ 1
unfolding with_levels
with_levels-granted c info out zero h = ap code_of h
with_levels-granted c info out (suc n) h =
    let (x, e, same) =
      bind-some (get_level_cmd c.backend info.auth.pr_res_id info.levelcmd) _ (out, 1) h in
    ap code_of same

-- A grant comes from the function that the parameters choose.
get_config-granted :
    (connected : Bool) (c : Call) (username : Bytes) (info out : ProxyInfo)
    → get_config connected c (some username) info ≡ some (out, 1)
    → (found : ProxyInfo) × (with_params c (tokens b'#' username) info ≡ some (found, 1))
unfolding get_config
get_config-granted connected c username info out h =
    elim (Bool-cases (params_fit 6 (tokens b'#' username))) [
      | inr e ↦
          let wrong : none ≡ some (out, 1) = rw e at h in absurd (omega (arith, ap code_of wrong))
      | inl e ↦ elim (Bool-cases connected) [
        | inr f ↦
            let wrong : some (info, 0) ≡ some (out, 1) = rw f at (rw e at h) in
            absurd (omega (arith, ap code_of wrong))
        | inl f ↦
            let runs = rw f at (rw e at h) in
            let ((found, code), g, levels) =
              bind-some (with_params c (tokens b'#' username) info) _ (out, 1) runs in
            let one = with_levels-granted c found out code levels in
            (found, g ∙ ap (λ (n : ℕ). some (found, n)) one)
      ]
    ]

-- If `GetConfig` grants a session for a name with user, password, address, port and account, none of
-- them empty and none with the separator, then the database has tables for this user on this server
-- with this account; the policies that count for these tables, as the database gives them one after
-- the other, are none, or one of them allows the address, one the protocol and one the time; and the
-- stored password of the first table's employee occurs in the given one.
pub get_config_safe :
    (connected : Bool) (c : Call) (user password ip port account : Bytes) (info out : ProxyInfo)
    → IsParam user
    → IsParam password
    → IsParam ip
    → IsParam port
    → IsParam account
    → get_config connected c (some (user_name user password ip port account)) info ≡ some (out, 1)
    → (ids : List JoinTableId) × (employee : Employee) × (get_join_table c.backend c.timenow user ip
          account c.access_type
        ≡ some (0, ids))
      × (get_employee c.backend (first_table ids).pr_employee_id no_employee ≡ some (0, employee))
      × (contains password employee.pr_pwd ≡ true)
      × Passed c ids
unfolding with_params
get_config_safe connected c user password ip port account info out u w i p a h =
    let given = record info {
      input_name = user;
      input_pwd = password;
      server_ip = ip;
      server_port = atoi port;
      server_name = account;
    } in
    let (found, grants) =
      get_config-granted connected c (user_name user password ip port account) info out h in
    let params = tokens-user_name user password ip port account u w i p a in
    get_config_for_user_safe c given found
      (ap (λ (ps : List Bytes). with_params c ps info) (sym params) ∙ grants)

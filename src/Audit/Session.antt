-- ===== src/Audit/Session.antt =====
-- The end of `GetConfig` of DBRecord/dbrecord.c: the login of a granted session is logged once in a
-- process; later sessions get the id of the first.
use oscshell.Base.{ℕ, zero, suc, Bool, true, List, [], ◌∷◌, Option, some, if◌then◌else◌, ◌>>=◌}
use oscshell.Base.Int.{ℤ}
use oscshell.Base.Text.{Bytes}
use oscshell.Access.{Call}
use oscshell.Access.Session.{ProxyInfo}
use oscshell.Access.Config.{get_config}
use oscshell.Audit.Statement.{Clock}
use oscshell.Audit.Login.{AuditDatabase, Sent, create_loginlog}

-- The variables `isLoginlog` and `loginlog_id` of the process.
pub record Process : Type 0 where
  pub is_loginlog : Bool
  pub loginlog_id : Bytes

-- A call that has been answered: the process, the session, the value returned, and what is sent.
pub record Answer : Type 0 where
  pub process : Process
  pub info : ProxyInfo
  pub code : ℕ
  pub sent : List Sent

unfoldable pub with_login : AuditDatabase → Clock → ℤ → Process → ProxyInfo → ℕ → Option Answer
with_login db now client_port p info zero =
    some (record { process = p; info = info; code = 0; sent = [] })
with_login db now client_port p info (suc n) =
    let first = (do
      (logged, sent) ← create_loginlog db now client_port info
      some (record {
        process = record { is_loginlog = true; loginlog_id = logged.loginlog_id };
        info = logged;
        code = suc n;
        sent = sent;
      })) in
    if p.is_loginlog
    then some (record {
      process = p;
      info = record info { loginlog_id = p.loginlog_id };
      code = suc n;
      sent = [];
    })
    else first

-- One call of `GetConfig`, as the program makes it.
pub record LoginCall : Type 0 where
  pub connected : Bool
  pub call : Call
  pub username : Option Bytes
  pub info : ProxyInfo
  pub now : Clock
  pub client_port : ℤ

-- `GetConfig`
unfoldable pub get_config_logged : AuditDatabase → Process → LoginCall → Option Answer
get_config_logged db p r = do
  (found, code) ← get_config r.connected r.call r.username r.info
  with_login db r.now r.client_port p found code

-- The calls of one process, one after the other.
unfoldable pub answers : AuditDatabase → Process → List LoginCall → Option (List Answer)
answers db p [] = some []
answers db p (r ∷ rs) = do
  a ← get_config_logged db p r
  rest ← answers db a.process rs
  some (a ∷ rest)

-- ===== src/Audit/OneLogin.antt =====
-- One login for all sessions of a process.
use mathlib.Core.Option.{some-injective}
use mathlib.Core.Path.{subst}
use oscshell.Base.{
  ℕ, zero, suc, ◌≤◌, ◌&&◌, true, false, List, [], ◌∷◌, some, map, All, flatten, if◌then◌else◌,
  length, Bool-cases, bind-some, append-nil, ◌⊎◌, inl, inr, ◌≡◌, refl, sym, ap, ◌∙◌, arith,
}
use oscshell.Base.Int.{ℤ}
use oscshell.Base.Text.{Bytes, strcpy}
use oscshell.Access.Session.{ProxyInfo}
use oscshell.Access.Config.{get_config}
use oscshell.Audit.Statement.{Clock, row_id}
use oscshell.Audit.Login.{
  LoginLog, AuditDatabase, Sent, statement, login_log, login_statement, set_loginlog,
  create_loginlog,
}
use oscshell.Audit.Session.{Process, Answer, LoginCall, with_login, get_config_logged, answers}

-- The session is refused, or has this login.
abbrev pub HasLogin : Bytes → Answer → Type 0
HasLogin id a = (a.code ≡ 0) ⊎ (a.info.loginlog_id ≡ id)

abbrev pub sent_by : List Answer → List Sent
sent_by made = flatten (map (λ a. a.sent) made)

-- What an answer is in a process that has logged a login.
record Follows (p : Process) (a : Answer) : Type 0 where
  process : a.process ≡ p
  login : HasLogin p.loginlog_id a
  sent : a.sent ≡ []

Follows-with_login :
    (db : AuditDatabase) (now : Clock) (client_port : ℤ) (p : Process) (info : ProxyInfo) (code : ℕ)
    (a : Answer)
    → p.is_loginlog ≡ true
    → with_login db now client_port p info code ≡ some a
    → Follows p a
unfolding with_login
Follows-with_login db now client_port p info zero a logged e =
    subst (Follows p) (some-injective _ a e)
      (record { process = refl; login = inl refl; sent = refl })
Follows-with_login db now client_port p info (suc n) a logged e =
    let known : Answer = record {
      process = p;
      info = record info { loginlog_id = p.loginlog_id };
      code = suc n;
      sent = [];
    } in
    let same : with_login db now client_port p info (suc n) ≡ some known = rw logged refl in
    subst (Follows p) (some-injective known a (sym same ∙ e))
      (record { process = refl; login = inr refl; sent = refl })

-- The answers in a process that has logged a login.
answers-logged :
    (db : AuditDatabase) (p : Process) (rs : List LoginCall) (made : List Answer)
    → p.is_loginlog ≡ true
    → answers db p rs ≡ some made
    → All (HasLogin p.loginlog_id) made × (sent_by made ≡ [])
unfolding answers get_config_logged
answers-logged db p [] made logged e =
    subst (λ (m : List Answer). All (HasLogin p.loginlog_id) m × (sent_by m ≡ []))
      (some-injective [] made e) (tt, refl)
answers-logged db p (r ∷ rs) made logged e =
    let (a, one, more) = bind-some (get_config_logged db p r) _ made e in
    let (rest, others, whole) = bind-some (answers db a.process rs) _ made more in
    let (found, granted, ends) =
      bind-some (get_config r.connected r.call r.username r.info) _ a one in
    let f = Follows-with_login db r.now r.client_port p found.0 found.1 a logged ends in
    let (all, none_sent) =
      answers-logged db p rs rest logged
        (subst (λ (q : Process). answers db q rs ≡ some rest) f.process others) in
    subst (λ (m : List Answer). All (HasLogin p.loginlog_id) m × (sent_by m ≡ []))
      (some-injective (a ∷ rest) made whole) ((f.login, all), rw f.sent none_sent)

-- `SetLoginlog` sends one statement at most.
length-set_loginlog :
    (db : AuditDatabase) (c : Clock) (log : LoginLog) (out : ℕ × Bytes × List Sent)
    → set_loginlog db c log ≡ some out
    → length out.2 ≤ 1
unfolding set_loginlog
length-set_loginlog db c log out e = elim (Bool-cases db.is_mysql) [
  | inl m ↦
      let (sql, fits, ends) = bind-some (strcpy 1024 (login_statement c log)) _ out (rw m at e) in
      sends sql (some-injective _ out ends)
  | inr m ↦
      let (found, answered, ends) = bind-some (db.other_set_loginlog log) _ out (rw m at e) in
      let same : 0 ≡ length out.2 =
        ap (λ (o : ℕ × Bytes × List Sent). length o.2) (some-injective _ out ends) in
      omega (arith, same)
]
  where
    sends :
        (sql : Bytes)
        → (if db.connects && db.has_sock
            then ((if db.runs sql then 0 else 1), row_id c, statement sql ∷ [])
            else (0, row_id c, []))
          ≡ out
        → length out.2 ≤ 1
    sends sql same = elim (Bool-cases (db.connects && db.has_sock)) [
      | inl on ↦ omega (arith, ap (λ (o : ℕ × Bytes × List Sent). length o.2) (rw on at same))
      | inr off ↦ omega (arith, ap (λ (o : ℕ × Bytes × List Sent). length o.2) (rw off at same))
    ]

length-create_loginlog :
    (db : AuditDatabase) (c : Clock) (client_port : ℤ) (info : ProxyInfo)
    (out : ProxyInfo × List Sent)
    → create_loginlog db c client_port info ≡ some out
    → length out.1 ≤ 1
unfolding create_loginlog
length-create_loginlog db c client_port info out e =
    let (found, set, ends) = bind-some (set_loginlog db c (login_log client_port info)) _ out e in
    let n = length-set_loginlog db c (login_log client_port info) found set in
    let same : length found.2 ≡ length out.1 =
      ap (λ (o : ProxyInfo × List Sent). length o.1) (some-injective _ out ends) in
    omega (arith, n, same)

-- What the calls of a process are together.
abbrev OneLogin : List Answer → Type 0
OneLogin made = (id : Bytes) × All (HasLogin id) made × (length (sent_by made) ≤ 1)

-- In a process that has logged no login, however many sessions are asked for, whoever asks: the
-- sessions that are granted all have the same id of a login, and one login at most is sent to the
-- audit.
pub answers_one_login :
    (db : AuditDatabase) (p : Process) (rs : List LoginCall) (made : List Answer)
    → p.is_loginlog ≡ false
    → answers db p rs ≡ some made
    → (id : Bytes) × All (HasLogin id) made × (length (sent_by made) ≤ 1)
unfolding answers get_config_logged with_login
answers_one_login db p [] made fresh e =
    subst OneLogin (some-injective [] made e) ([], tt, omega arith)
answers_one_login db p (r ∷ rs) made fresh e =
    let (a, one, more) = bind-some (get_config_logged db p r) _ made e in
    let (rest, others, whole) = bind-some (answers db a.process rs) _ made more in
    let (found, granted, ends) =
      bind-some (get_config r.connected r.call r.username r.info) _ a one in
    subst OneLogin (some-injective (a ∷ rest) made whole)
      (first (λ m. answers_one_login db p rs m fresh) found.0 found.1 a rest ends others)
  where
    first :
        ((m : List Answer) → answers db p rs ≡ some m → OneLogin m)
        → (info : ProxyInfo) (code : ℕ) (a : Answer) (rest : List Answer)
        → with_login db r.now r.client_port p info code ≡ some a
        → answers db a.process rs ≡ some rest
        → OneLogin (a ∷ rest)
    first again info zero a rest ends others =
        subst (λ (x : Answer). answers db x.process rs ≡ some rest → OneLogin (x ∷ rest))
          (some-injective _ a ends)
          (λ more. let (id, all, few) = again rest more in (id, (inl refl, all), few)) others
    first again info (suc n) a rest ends others =
        let (logged, creates, made) =
          bind-some (create_loginlog db r.now r.client_port info) _ a (rw fresh at ends) in
        let few = length-create_loginlog db r.now r.client_port info logged creates in
        subst (λ (x : Answer). answers db x.process rs ≡ some rest → OneLogin (x ∷ rest))
          (some-injective _ a made)
          (λ more.
            let (all, none_sent) =
              answers-logged db (record { is_loginlog = true; loginlog_id = logged.0.loginlog_id })
                rs rest refl more in
            (logged.0.loginlog_id, (inr refl, all), rw none_sent (rw (append-nil logged.1) few)))
          others

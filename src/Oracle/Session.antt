-- ===== src/Oracle/Session.antt =====
-- A session of the Oracle proxy: `DBOracleOperate` and `DBOracleReslut` of
-- OracleProxy/oraclefilter.c, and `InsertUseractivityoutlog` and `findSQL` of DBRecord/dbrecord.c. The
-- records that the database gets are kept in a list, the newest first.
use oscshell.Base.{
  ℕ, zero, suc, Bool, true, ◌||◌, List, [], ◌∷◌, ◌++◌, Option, none, some, map, if◌then◌else◌,
  ◌>>=◌, take, drop, length, ltb, leb, ◌==◌,
}
use oscshell.Base.Int.{ℤ, pos, negsuc, is_zero}
use oscshell.Base.Text.{Bytes, strcpy}
use oscshell.Access.Session.{ProxyInfo}
use oscshell.Audit.{UserActivityLog, insert_useractivitylog}
use oscshell.Audit.Statement.{UserActivityOutLog}

pub data Log : Type 0 where
  command : UserActivityLog → Log
  output : UserActivityOutLog → Log

-- What the code gets from its surroundings: the size of a pointer, the sizes of two arrays of
-- `PROXYINFO`, and the id that `SetUseractivitylog` makes of the time and `rand` for a record, by
-- the number of records before it.
pub record Machine : Type 0 where
  pub word : ℕ
  pub cmd_size : ℕ
  pub line_size : ℕ
  pub new_id : ℕ → Bytes

-- `userlog_id` and `line_out_len` belong to `PROXYINFO` as well.
pub record State : Type 0 where
  pub info : ProxyInfo
  pub userlog_id : Bytes
  pub line_out_len : ℕ
  pub sql_reslut : Bytes
  pub isquery : Bool
  pub n_glob_max_col_num : ℕ
  pub oracle_flag : Bool
  pub logs : List Log

-- A carriage return or a line feed becomes a space.
unfoldable pub one_line : Bytes → Bytes
one_line s = map (λ c. if c == b'\r' || c == b'\n' then b' ' else c) s

unfoldable pub log_command : Machine → State → ProxyInfo → Option UserActivityLog → State
log_command m st info none = record st { info = info }
log_command m st info (some log) = record st {
  info = info;
  userlog_id = m.new_id (length st.logs);
  logs = command log ∷ st.logs;
}

-- `DBOracleOperate`
unfoldable pub db_oracle_operate : Machine → Bytes → State → Option State
db_oracle_operate m sql st = do
  line ← strcpy m.line_size (one_line sql)
  (info, log) ← insert_useractivitylog m.word m.cmd_size (record st.info { line_out_buffer = line })
  some (log_command m (record st { isquery = true }) info log)

-- `InsertUseractivityoutlog`
unfoldable pub insert_useractivityoutlog : State → State
insert_useractivityoutlog st =
    let desc =
      if leb 4096 st.line_out_len
      then take 4095 st.info.line_out_buffer
      else st.info.line_out_buffer in
    let log : UserActivityOutLog = record {
      pr_id = [];
      pr_ual_id = st.userlog_id;
      pr_desc = desc;
      pr_oper_date = [];
      pr_session_id = st.info.loginlog_id;
    } in
    record st {
      info = record st.info { line_out_buffer = [] };
      line_out_len = 0;
      logs = if is_zero st.info.auth.pr_audit_flag then st.logs else output log ∷ st.logs;
    }

-- `DBOracleReslut`
unfoldable pub db_oracle_reslut : Machine → Bytes → State → Option State
db_oracle_reslut m text st = do
  line ← strcpy m.line_size (one_line text)
  let sent = record st { info = record st.info { line_out_buffer = line } }
  some (record (insert_useractivityoutlog sent) { sql_reslut = [] })

-- The loop of `findSQL` from `i` on, in `n` bytes, with `isfind` so far. The comparison with the rest
-- of `sql` has no effect, and is left out.
unfoldable pub find_loop : ℕ → ℕ → ℕ → Bytes → Option ℕ → Option (Option ℕ)
find_loop zero first i buf isfind = some isfind
find_loop (suc n) first i [] isfind = none
find_loop (suc n) first i (c ∷ s) isfind =
    let past = find_loop n first (suc i) s (if c == first then some i else isfind) in
    if c == first then (if ltb 5 i then some (some i) else past) else past

-- sql[0]
unfoldable pub first_byte : Bytes → ℕ
first_byte [] = 0
first_byte (c ∷ s) = c

unfoldable pub overwrite : Bytes → Option ℕ → Bytes
overwrite buf none = buf
overwrite buf (some i) = take i buf ++ (b'%' ∷ drop (suc i) buf)

unfoldable pub bytes_of : ℤ → ℕ
bytes_of (pos n) = n
bytes_of (negsuc n) = 0

-- `findSQL`: the packet afterwards, and the place.
unfoldable pub find_sql : Bytes → ℤ → Bytes → Option (Bytes × Option ℕ)
find_sql buf len sql = do
  isfind ← find_loop (bytes_of len) (first_byte sql) 0 buf none
  some (overwrite buf isfind, isfind)

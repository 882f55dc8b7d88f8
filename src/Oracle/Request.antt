-- ===== src/Oracle/Request.antt =====
-- `DecodeTnsData` of OracleProxy/oraclefilter.c for the requests of a client, with the decoders that
-- it calls for them. The packet may change, so that it is a result too. `GetStopExchangeUserSwitch`,
-- whose answer only decides what is logged, and `UserLogout`, which does nothing, are left out.
use oscshell.Base.{
  ℕ, zero, suc, ◌+◌, ◌-◌, ◌&&◌, ◌||◌, [], ◌∷◌, ◌++◌, Option, none, some, if◌then◌else◌, ◌>>=◌, take,
  drop, length, get_elem?, ltb, leb, ◌==◌,
}
use oscshell.Base.Int.{ℤ, pos, negsuc, int_eq}
use oscshell.Base.Text.{Bytes, c_string}
use oscshell.Oracle.Places.{Client}
use oscshell.Oracle.Query.{Query, query_of, int_minus}
use oscshell.Oracle.Session.{
  Machine, State, one_line, db_oracle_operate, db_oracle_reslut, find_sql,
}

-- The rows that wait in `sql_reslut` are recorded.
unfoldable pub flush : Machine → State → Option State
flush m st =
    let recorded = db_oracle_reslut m st.sql_reslut st in
    if ltb 0 (length st.sql_reslut) then recorded else some st

-- The string that `DBOracleOperate` gets.
unfoldable pub query_text : Query → Bytes
query_text q =
    if ltb q.query_str_len 4096 then c_string q.query_str else c_string (take 4096 q.query_str)

-- A statement that raised the level is made invalid in the packet.
unfoldable pub spoil : Query → Bytes → ℕ → State → Option (State × Bytes)
spoil q buf query_len st = do
  let lowered = record st { info = record st.info { level = pos 0 } }
  let replaced = do
    (packet, place) ←
        find_sql (drop q.place buf) (int_minus query_len q.place) (one_line (query_text q))
    some (lowered, take q.place buf ++ packet)
  if int_eq st.info.level (pos 1) then replaced else some (st, buf)

-- `DecodeTnsData035e`
unfoldable pub decode_tns_data035e : Machine → Client → Bytes → ℕ → State → Option (State × Bytes)
decode_tns_data035e m client buf query_len st = do
  q ← query_of client st.oracle_flag buf query_len
  let found = record st { oracle_flag = q.oracle_flag; n_glob_max_col_num = 0 }
  let audited = do
    flushed ← flush m found
    operated ← db_oracle_operate m (query_text q) flushed
    spoil q buf query_len operated
  if leb q.query_str_len 1 then some (found, buf) else audited

-- `DecodeTnsData0376`, which only logs. The length of the name is a signed `char`, and a negative one
-- copies far more bytes than the array `pszName` has.
unfoldable pub decode_tns_data0376 : Bytes → ℕ → State → Option State
decode_tns_data0376 buf query_len st = do
  let copy_name = do
    name_len ← get_elem? buf 17
    if ltb name_len 128 && leb (18 + name_len) (length buf) then some st else none
  if ltb query_len 29 then some st else copy_name

pub data Outcome : Type 0 where
  decoded : State → Bytes → Outcome
  fault : Outcome
  out_of_rounds : Outcome

unfoldable pub to_outcome : Option (State × Bytes) → Outcome
to_outcome none = fault
to_outcome (some (st, buf)) = decoded st buf

-- The bytes in front of the ones that were decoded.
unfoldable pub behind : Bytes → Outcome → Outcome
behind front (decoded st buf) = decoded st (front ++ buf)
behind front fault = fault
behind front out_of_rounds = out_of_rounds

unfoldable pub and_then : Outcome → (State → Bytes → Outcome) → Outcome
and_then (decoded st buf) f = f st buf
and_then fault f = fault
and_then out_of_rounds f = out_of_rounds

-- What a command and its subcommand ask for. `skip` has the size of its structure.
pub data Request : Type 0 where
  nested : Request
  statement : Request
  close : Request
  login : Request
  piggyback : Request
  skip : ℕ → Request
  other : Request

unfoldable pub request_of : ℕ → ℕ → Request
request_of command sub_command =
    if command == 0x03
    then (if sub_command == 0x02
        then nested
        else (if sub_command == 0x03 || (sub_command == 0x47 || sub_command == 0x5e)
            then statement
            else (if sub_command == 0x09
                then close
                else (if sub_command == 0x76
                    then login
                    else (if sub_command == 0x3b then skip 17 else other)))))
    else (if command == 0x11
        then (if sub_command == 0x69
            then piggyback
            else (if sub_command == 0x6b || sub_command == 0x78 then skip 13 else other))
        else other)

-- The last place of 0x03 0x5e in `n` places from `i` on, if there is one.
unfoldable pub last_035e : ℕ → ℕ → Bytes → Option ℕ → Option (Option ℕ)
last_035e zero i buf found = some found
last_035e (suc n) i [] found = none
last_035e (suc n) i (c ∷ []) found = if c == 0x03 then none else last_035e n (suc i) [] found
last_035e (suc n) i (c ∷ d ∷ s) found =
    last_035e n (suc i) (d ∷ s) (if c == 0x03 && d == 0x5e then some i else found)

-- The next command, `size` bytes further on, if bytes are left.
unfoldable pub next_command : (Bytes → ℤ → State → Outcome) → ℕ → ℕ → State → Bytes → Outcome
next_command again n size st buf =
    let rest = behind (take size buf) (again (drop size buf) (pos (n - size)) st) in
    if ltb size n then rest else decoded st buf

unfoldable pub size_or : ℕ → Option ℕ → ℕ
size_or size none = size
size_or size (some i) = i

unfoldable pub after_mark :
    (Bytes → ℤ → State → Outcome) → ℕ → State → Bytes → Option (Option ℕ) → Outcome
after_mark again n st buf none = fault
after_mark again n st buf (some found) = next_command again n (size_or 13 found) st buf

unfoldable pub after_flush : (Bytes → ℤ → State → Outcome) → ℕ → Bytes → Option State → Outcome
after_flush again n buf none = fault
after_flush again n buf (some st) = next_command again n 1 st buf

unfoldable pub after_login : Bytes → Option State → Outcome
after_login buf none = fault
after_login buf (some st) = decoded st buf

-- A request of `n` bytes behind its command. With `n` = 0 the bound of the search for 0x03 0x5e
-- wraps around, and it reads on behind the packet.
unfoldable pub handle :
    (Bytes → ℤ → State → Outcome) → Machine → Client → Request → ℕ → State → Bytes → Outcome
handle again m client nested n st buf =
    and_then (behind (take 9 buf) (again (drop 9 buf) (int_minus n 9) st)) (next_command again n 0)
handle again m client statement n st buf = to_outcome (decode_tns_data035e m client buf n st)
handle again m client close n st buf = after_flush again n buf (flush m st)
handle again m client login n st buf = after_login buf (decode_tns_data0376 buf n st)
handle again m client piggyback zero st buf = fault
handle again m client piggyback (suc n) st buf =
    after_mark again (suc n) st buf (last_035e n 0 buf none)
handle again m client (skip size) n st buf = next_command again n size st buf
handle again m client other n st buf = decoded st buf

-- `DecodeTnsData` with `isclient`, for a length given.
unfoldable pub decode_tns_data : ℕ → Machine → Client → Bytes → ℤ → State → Outcome
decode_tns_data zero m client buf len st = out_of_rounds
decode_tns_data (suc rounds) m client buf (negsuc len) st = decoded st buf
decode_tns_data (suc rounds) m client [] (pos len) st = if ltb len 2 then decoded st [] else fault
decode_tns_data (suc rounds) m client (command ∷ []) (pos len) st =
    if ltb len 2 then decoded st (command ∷ []) else fault
decode_tns_data (suc rounds) m client (command ∷ sub_command ∷ buf) (pos len) st =
    let rest = behind (command ∷ sub_command ∷ []) (
      handle (decode_tns_data rounds m client) m client (request_of command sub_command) (len - 2)
        st buf) in
    if ltb len 2 then decoded st (command ∷ sub_command ∷ buf) else rest

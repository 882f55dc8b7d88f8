-- ===== src/Policy.antt =====
-- The access policy of one role item and its four tests: `MatchNclItem`, `MatchPclItem`,
-- `MatchCclItem`, `MatchTclItem` and `FindLevelCmd` of DBRecord/DBoperate.c. The record types stand
-- in a header outside the repository; their fields are those that the code names. A list and its
-- `...Len` field are one list. A test returns 0 to allow, as in the source.
pub mod Items
pub mod Network
pub mod Time
pub mod Rules
pub mod Commands
pub mod Levels
mod Tests
use oscshell.Base.{
  ℕ, zero, suc, ◌+◌, ◌-◌, ◌/◌, ◌%◌, Bool, true, false, ◌&&◌, ◌||◌, List, [], ◌∷◌, ◌++◌, Option,
  none, some, ltb, leb, ◌==◌, if◌then◌else◌, ◌>>=◌, length, is_some,
}
use oscshell.Base.Int.{ℤ, pos, int_eq}
use oscshell.Base.Text.{Bytes, codes, contains, strstr, strupr, strcpy, str_le, tokens}
use oscshell.Split.{find_db_table}

-- A range of client addresses.
pub record NclItem : Type 0 where
  pub pr_start_ip : Bytes
  pub pr_end_ip : Bytes

-- An access protocol.
pub record PclItem : Type 0 where
  pub pr_name : Bytes
  pub pr_code : ℤ

-- A command and the tables that it is about.
pub record CclItem : Type 0 where
  pub pr_command : Bytes
  pub pr_type : ℤ
  pub pr_table : Bytes

-- A time window.
pub record TclItem : Type 0 where
  pub pr_cycle_flag : ℤ
  pub pr_cycle_limit : Bytes
  pub pr_stat_time : Bytes
  pub pr_end_time : Bytes
  pub pr_time_flag : ℤ
  pub pr_start_date : Bytes

pub record Policy : Type 0 where
  pub pr_prolicyroleitem_id : Bytes
  pub ncl : List NclItem
  pub pcl : List PclItem
  pub ccl : List CclItem
  pub tcl : List TclItem

module _ {ℓ} {A : Type ℓ} where
  -- The loop of the tests: the first item that passes allows.
  unfoldable pub deny_loop : (A → Bool) → List A → ℕ
  deny_loop passes [] = 1
  deny_loop passes (i ∷ is) = if passes i then 0 else deny_loop passes is

  unfoldable pub check_items : (A → Bool) → List A → ℕ
  check_items passes items = if length items == 0 then 0 else deny_loop passes items

-- `inet` is `ntohl (inet_addr (…))`.
unfoldable pub in_range : (Bytes → ℕ) → Bytes → NclItem → Bool
in_range inet ip i = leb (inet i.pr_start_ip) (inet ip) && leb (inet ip) (inet i.pr_end_ip)

unfoldable pub match_ncl_item : (Bytes → ℕ) → Option Policy → Bytes → ℕ
match_ncl_item inet none ip = 0
match_ncl_item inet (some p) ip = check_items (in_range inet ip) p.ncl

unfoldable pub serves : ℤ → PclItem → Bool
serves code i =
    if int_eq code (pos 502)
    then int_eq i.pr_code code || int_eq i.pr_code (pos 201) || int_eq i.pr_code (pos 202)
    else int_eq i.pr_code code

unfoldable pub match_pcl_item : Option Policy → ℤ → ℕ
match_pcl_item none code = 0
match_pcl_item (some p) code = check_items (serves code) p.pcl

-- The fields of `struct tm` that the test reads; each is below 100.
pub record DayTime : Type 0 where
  pub hour : ℕ
  pub minute : ℕ
  pub second : ℕ

two_digits : ℕ → Bytes
two_digits n = (b'0' + n / 10) ∷ (b'0' + n % 10) ∷ []

-- sprintf ("%02d:%02d:%02d")
unfoldable pub format_time : DayTime → Bytes
unfolding two_digits
format_time t = two_digits t.hour ++ (b':' ∷ (two_digits t.minute ++ (b':' ∷ two_digits t.second)))

unfoldable pub is_open : Bytes → TclItem → Bool
is_open now i = str_le i.pr_stat_time now && str_le now i.pr_end_time

-- `now` is the local time of the call.
unfoldable pub match_tcl_item : Option Policy → DayTime → ℕ
match_tcl_item none now = 0
match_tcl_item (some p) now = check_items (is_open (format_time now)) p.tcl

pub any_table : Bytes → Bytes → List Bytes → Option Bool
any_table mycmd command [] = some false
any_table mycmd command (t ∷ ts) = do
  found ← find_db_table mycmd command t
  let rest = any_table mycmd command ts
  if found then some true else rest

-- One round of the loop; `none` is a write past the end of `tname`.
pub ccl_hit : Bytes → CclItem → Option Bool
ccl_hit mycmd i = do
  tname ← strcpy 1024 i.pr_table
  if length tname == 0
      then some (contains mycmd i.pr_command)
      else any_table mycmd i.pr_command (tokens b',' tname)

pub ccl_loop : Bytes → ℕ → List CclItem → Option ℕ
ccl_loop mycmd rtn [] = some rtn
ccl_loop mycmd rtn (i ∷ is) = do
  hit ← ccl_hit mycmd i
  let rest = ccl_loop mycmd rtn is
  if hit then some (if rtn == 0 then 1 else 0) else rest

-- `none` is a write past the end of `mycmd` or `tname`.
pub match_ccl_item : Option Policy → Bytes → ℤ → Option ℕ
match_ccl_item none cmd type = some 0
match_ccl_item (some p) cmd type = if length p.ccl == 0 then some 0 else (do
  mycmd ← strcpy 10240 cmd
  ccl_loop (strupr mycmd) (if int_eq type (pos 2) then 1 else 0) p.ccl)

pub record LevelCmd : Type 0 where
  pub level : ℤ
  pub cmd : Bytes

pub level_loop : Bytes → List LevelCmd → ℤ
level_loop mycmd [] = pos 0
level_loop mycmd (l ∷ ls) = if contains mycmd l.cmd then l.level else level_loop mycmd ls

-- `none` is a write past the end of `mycmd`.
pub find_level_cmd : List LevelCmd → Bytes → Option ℤ
find_level_cmd levels cmd = do mycmd ← strcpy 512 cmd; some (level_loop (strupr mycmd) levels)

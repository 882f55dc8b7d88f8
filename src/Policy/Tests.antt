-- ===== src/Policy/Tests.antt =====
-- Runs of the policy tests, and the theorems at a concrete policy.
use Prim.Native.Nat.{◌^◌}
use oscshell.Base.{
  ℕ, Bool, true, false, [], ◌∷◌, some, if◌then◌else◌, Any, ◌≡◌, ◌↔◌, ◌⊎◌, refl, arith,
}
use oscshell.Base.Int.{pos}
use oscshell.Base.Text.{Bytes, codes, contains, strstr, strupr, tokens}
use oscshell.Split.{strsplit, split_loop, next_separator, round_pieces, find_db_table, find_pair}
use oscshell.Policy.{
  CclItem, TclItem, Policy, check_items, deny_loop, in_range, match_ncl_item, DayTime, format_time,
  is_open, match_tcl_item, any_table, ccl_hit, ccl_loop, match_ccl_item, LevelCmd,
}
use oscshell.Policy.Time.{IsWindow, Opens, match_tcl_item_iff}
use oscshell.Policy.Rules.{Applies}
use oscshell.Policy.Commands.{match_ccl_item_iff}

-- An address of one digit.
abbrev one_digit : Bytes → ℕ
one_digit [] = 2 ^ 32
one_digit (c ∷ s) = c

abbrev at : ℕ → ℕ → DayTime
at h m = record { hour = h; minute = m; second = 0 }

abbrev office_hours : TclItem
office_hours = record {
  pr_cycle_flag = pos 0;
  pr_cycle_limit = [];
  pr_stat_time = format_time (at 8 30);
  pr_end_time = format_time (at 18 0);
  pr_time_flag = pos 0;
  pr_start_date = [];
}

abbrev drop_rule : CclItem
drop_rule = record { pr_command = codes "DROP"; pr_type = pos 1; pr_table = [] }

abbrev delete_rule : CclItem
delete_rule = record { pr_command = codes "DELETE"; pr_type = pos 1; pr_table = codes "T1,T2" }

abbrev office : Policy
office = record {
  pr_prolicyroleitem_id = codes "7";
  ncl = record { pr_start_ip = codes "2"; pr_end_ip = codes "5" } ∷ [];
  pcl = record { pr_name = codes "oracle"; pr_code = pos 201 } ∷ [];
  ccl = drop_rule ∷ delete_rule ∷ [];
  tcl = office_hours ∷ [];
}

address :
    (match_ncl_item one_digit (some office) (codes "4") ≡ 0)
    × (match_ncl_item one_digit (some office) (codes "6") ≡ 1)
unfolding match_ncl_item check_items deny_loop in_range
address = (refl, refl)

time : (match_tcl_item (some office) (at 9 5) ≡ 0) × (match_tcl_item (some office) (at 18 1) ≡ 1)
unfolding match_tcl_item check_items deny_loop is_open format_time
time = (refl, refl)

command : match_ccl_item (some office) (codes "delete from t2") (pos 1) ≡ some 1
unfolding match_ccl_item ccl_loop ccl_hit any_table tokens strupr strstr find_db_table strsplit
    split_loop next_separator round_pieces find_pair
command = refl

office_hours-IsWindow : IsWindow office_hours
office_hours-IsWindow = record {
  start = at 8 30;
  stop = at 18 0;
  start_valid = omega arith;
  stop_valid = omega arith;
  start_text = refl;
  stop_text = refl;
}

match_tcl_item_iff_example :
    (match_tcl_item (some office) (at 9 5) ≡ 0)
    ↔ ((office.tcl ≡ []) ⊎ Any (Opens (at 9 5)) office.tcl)
match_tcl_item_iff_example =
    match_tcl_item_iff office (at 9 5) (omega arith) (office_hours-IsWindow, tt)

abbrev delete_command : Bytes
delete_command = codes "delete from t2"

match_ccl_item_iff_example :
    (hit : Bool) × (match_ccl_item (some office) delete_command (pos 1)
      ≡ some (if hit then 1 else 0))
    × (match_ccl_item (some office) delete_command (pos 2) ≡ some (if hit then 0 else 1))
    × ((hit ≡ true) ↔ Any (Applies (strupr delete_command)) office.ccl)
match_ccl_item_iff_example =
    match_ccl_item_iff office delete_command (cc) (omega arith) (omega arith)

same_upper : strupr delete_command ≡ strupr (codes "Delete From T2")
unfolding strupr
same_upper = refl

abbrev low : LevelCmd
low = record { level = pos 1; cmd = codes "SELECT" }

abbrev high : LevelCmd
high = record { level = pos 3; cmd = codes "DELETE" }

level_hits :
    (contains (strupr delete_command) (codes "SELECT") ≡ false)
    × (contains (strupr delete_command) (codes "DELETE") ≡ true)
unfolding strupr strstr
level_hits = (refl, refl)

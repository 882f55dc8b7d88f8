-- ===== src/Database/PolicySearch.antt =====
-- `GetPolicy`: the search for the role item that holds a resource's policy, up through the parents
-- of its group, and the lists of that item.
use oscshell.Base.{
  ℕ, zero, suc, Bool, true, false, ◌||◌, List, [], ◌∷◌, Option, none, some, if◌then◌else◌, ◌>>=◌,
}
use oscshell.Base.Text.{Bytes, codes, str_eq, strcpy, strupr}
use oscshell.Policy.{NclItem, PclItem, CclItem, TclItem, Policy}
use oscshell.Database.Records.{JoinTableId}
use oscshell.Database.Rows.{Row, Reply, query_failed, store_failed, rows, text, number}
use oscshell.Database.Backend.{
  Result, Backend, each_row, item_of_resource, item_of_group, group_of_resource, parent_of_group,
  item_of_parent, ncl_items, pcl_items, ccl_items, tcl_items,
}

-- A code that is returned, or the item's id.
pub data Found : Type 0 where
  failed : ℕ → Found
  item : Bytes → Found

-- The item in the first row, or what is to be done if there is none.
unfoldable pub item_or : Reply → Option Found → Option Found
item_or query_failed otherwise = some (failed 2)
item_or store_failed otherwise = some (failed 3)
item_or (rows []) otherwise = otherwise
item_or (rows (row ∷ more)) otherwise = do id ← text row 0; some (item id)

-- The group in the first row, which has to fit `groupid`.
unfoldable pub group_then : Reply → (Bytes → Option Found) → Option Found
group_then query_failed continue = some (failed 2)
group_then store_failed continue = some (failed 3)
group_then (rows []) continue = some (failed 5)
group_then (rows (row ∷ more)) continue = do
  id ← text row 0
  groupid ← strcpy 32 id
  continue groupid

abbrev pub top_group : Bytes
top_group = codes "1000000000"

abbrev pub no_group : Bytes
no_group = codes "0000000000"

unfoldable pub role_at : Bytes → Bytes → Bytes
role_at groupid role = if str_eq groupid top_group then codes "0" else role

-- From `requery2` on; each round goes to the parent of the group. `none` is a fault or the end of
-- the rounds.
unfoldable pub climb : ℕ → Backend → Bytes → Bytes → Option Found
climb zero b role groupid = none
climb (suc rounds) b role groupid = group_then (b.reply (parent_of_group groupid)) (λ parent.
    let higher = climb rounds b role parent in
    item_or (b.reply (item_of_parent parent (role_at parent role)))
      (if str_eq parent top_group || str_eq parent no_group then some (failed 6) else higher))

-- From the start to `exitquery`. The second result is `isResource`.
unfoldable pub find_item : Backend → ℕ → JoinTableId → Bool → Option (Found × Bool)
find_item b rounds t is_resource = elim (b.reply (item_of_resource t.pr_role_id t.pr_resource_id)) [
  | query_failed ↦ some (failed 2, is_resource)
  | store_failed ↦ some (failed 3, is_resource)
  | rows found ↦ elim found [
    | [] ↦ if is_resource then some (failed 4, true) else (do
      by_group ←
          item_or (b.reply (item_of_group t.pr_resource_id t.pr_role_id)) (
            group_then (b.reply (group_of_resource t.pr_resource_id)) (climb rounds b t.pr_role_id))
      some (by_group, false))
    | row ∷ more ↦ do id ← text row 0; some (item id, true)
  ]
]

unfoldable pub read_ncl_item : Row → Option NclItem
read_ncl_item row = do
  start_ip ← text row 0
  end_ip ← text row 1
  some (record { pr_start_ip = start_ip; pr_end_ip = end_ip })

unfoldable pub read_pcl_item : Row → Option PclItem
read_pcl_item row = do
  name ← text row 0
  code ← number row 1
  some (record { pr_name = name; pr_code = code })

unfoldable pub read_ccl_item : Row → Option CclItem
read_ccl_item row = do
  command ← text row 0
  type ← number row 1
  table ← text row 2
  some (record { pr_command = strupr command; pr_type = type; pr_table = strupr table })

-- A NULL time leaves its field as `malloc` gave it, which the model counts as a fault.
unfoldable pub read_tcl_item : Row → Option TclItem
read_tcl_item row = do
  cycle_flag ← number row 0
  cycle_limit ← text row 1
  stat_time ← text row 2
  end_time ← text row 3
  time_flag ← number row 4
  start_date ← text row 5
  some (record {
    pr_cycle_flag = cycle_flag;
    pr_cycle_limit = cycle_limit;
    pr_stat_time = stat_time;
    pr_end_time = end_time;
    pr_time_flag = time_flag;
    pr_start_date = start_date;
  })

-- One list of the policy `p`; without rows it stays as it was.
unfoldable pub fill :
    {A : Type 0}
    → Reply
    → (Row → Option A)
    → (List A → Policy)
    → Policy
    → (Policy → Result Policy)
    → Result Policy
fill query_failed read put p continue = some (2, p)
fill store_failed read put p continue = some (3, p)
fill (rows []) read put p continue = continue p
fill (rows (row ∷ more)) read put p continue = do
  items ← each_row read (row ∷ more)
  continue (put items)

-- From `exitquery` on.
unfoldable pub fill_policy : Backend → Policy → Result Policy
fill_policy b p =
    let id = p.pr_prolicyroleitem_id in
    fill (b.reply (ncl_items id)) read_ncl_item (λ items. record p { ncl = items }) p
      (λ p1.
        fill (b.reply (pcl_items id)) read_pcl_item (λ items. record p1 { pcl = items }) p1
          (λ p2.
            fill (b.reply (ccl_items id)) read_ccl_item (λ items. record p2 { ccl = items }) p2
              (λ p3.
                fill (b.reply (tcl_items id)) read_tcl_item (λ items. record p3 { tcl = items }) p3
                  (λ p4. some (0, p4)))))

unfoldable pub after_search : Backend → Policy → Bool → Found → Result (Policy × Bool)
after_search b p is_resource (failed code) = some (code, (p, is_resource))
after_search b p is_resource (item id) = do
  (code, filled) ← fill_policy b (record p { pr_prolicyroleitem_id = id })
  some (code, (filled, is_resource))

-- The code, the policy and `isResource`.
unfoldable pub get_policy : Backend → ℕ → JoinTableId → Policy → Bool → Result (Policy × Bool)
get_policy b rounds t p is_resource =
    if b.is_mysql
    then (do
      (found, at_resource) ← find_item b rounds t is_resource
      after_search b p at_resource found)
    else b.other_get_policy t p is_resource

-- ===== src/Policy/Network.antt =====
-- Which clients and protocols a policy lets through.
use oscshell.Base.{ℕ, ◌≤◌, true, [], some, Any, ◌≡◌, ◌↔◌, ◌⊎◌, arith}
use oscshell.Base.Int.{ℤ, pos, int_eq_iff}
use oscshell.Base.Text.{Bytes}
use oscshell.Policy.Items.{check_items_iff}
use oscshell.Policy.{NclItem, PclItem, Policy, in_range, match_ncl_item, serves, match_pcl_item}

-- The address lies in the item's range.
abbrev pub InRange : (Bytes → ℕ) → Bytes → NclItem → Type 0
InRange inet ip i = (inet i.pr_start_ip ≤ inet ip) × (inet ip ≤ inet i.pr_end_ip)

in_range_iff :
    (inet : Bytes → ℕ) (ip : Bytes) (i : NclItem) → (in_range inet ip i ≡ true) ↔ InRange inet ip i
unfolding in_range
in_range_iff inet ip i = ground arith

-- A policy lets a client through exactly if it has no address range, or one that holds the
-- client's address.
pub match_ncl_item_iff :
    (inet : Bytes → ℕ) (p : Policy) (ip : Bytes)
    → (match_ncl_item inet (some p) ip ≡ 0) ↔ ((p.ncl ≡ []) ⊎ Any (InRange inet ip) p.ncl)
unfolding match_ncl_item
match_ncl_item_iff inet p ip =
    check_items_iff (in_range inet ip) (InRange inet ip) (in_range_iff inet ip) p.ncl

-- The item's protocol serves an access of type `code`: 502 is served by 201 and 202 too.
abbrev pub Serves : ℤ → PclItem → Type 0
Serves code i =
    (i.pr_code ≡ code) ⊎ (code ≡ pos 502) × ((i.pr_code ≡ pos 201) ⊎ (i.pr_code ≡ pos 202))

serves_iff : (code : ℤ) (i : PclItem) → (serves code i ≡ true) ↔ Serves code i
unfolding serves
serves_iff code i = ground (
  arith,
  int_eq_iff code (pos 502),
  int_eq_iff i.pr_code code,
  int_eq_iff i.pr_code (pos 201),
  int_eq_iff i.pr_code (pos 202),
)

-- A policy lets an access type through exactly if it has no protocol, or one that serves the type;
-- type 502 is served by the protocols 502, 201 and 202.
pub match_pcl_item_iff :
    (p : Policy) (code : ℤ)
    → (match_pcl_item (some p) code ≡ 0) ↔ ((p.pcl ≡ []) ⊎ Any (Serves code) p.pcl)
unfolding match_pcl_item
match_pcl_item_iff p code = check_items_iff (serves code) (Serves code) (serves_iff code) p.pcl

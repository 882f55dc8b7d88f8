-- ===== src/Policy/Time.antt =====
-- The time windows: comparing the formatted texts is comparing the times.
use oscshell.Base.{
  ℕ, ◌≤◌, ◌<◌, true, ◌&&◌, ◌||◌, List, [], ◌∷◌, ◌++◌, some, ltb, leb, ◌==◌, Any, All, ◌≡◌, ◌↔◌, ◌⊎◌,
  inl, inr, refl, arith,
}
use oscshell.Base.Text.{Bytes, str_le}
use oscshell.Policy.Items.{check_items_iff}
use oscshell.Policy.{
  TclItem, Policy, DayTime, two_digits, format_time, is_open, match_tcl_item, check_items,
}

-- What `localtime` stores: a second may be 60.
abbrev pub IsDayTime : DayTime → Type 0
IsDayTime t = (t.hour < 24) × (t.minute < 60) × (t.second < 61)

-- `a` is not later than `b`, by hour, minute and second.
abbrev pub NotLater : DayTime → DayTime → Type 0
NotLater a b =
    (a.hour < b.hour)
    ⊎ (a.hour ≡ b.hour) × ((a.minute < b.minute) ⊎ (a.minute ≡ b.minute) × (a.second ≤ b.second))

-- Two numbers below 100, then texts: the numbers decide, and the texts where they are equal.
str_le-two_digits :
    (m n : ℕ) (s t : Bytes)
    → m < 100
    → n < 100
    → str_le (two_digits m ++ s) (two_digits n ++ t) ≡ (ltb m n || (m == n && str_le s t))
unfolding two_digits
str_le-two_digits m n s t hm hn = ground arith

str_le_last : (m n : ℕ) → m < 100 → n < 100 → str_le (two_digits m) (two_digits n) ≡ leb m n
unfolding two_digits
str_le_last m n hm hn = ground arith

abbrev minutes : DayTime → Bytes
minutes t = b':' ∷ (two_digits t.minute ++ (b':' ∷ two_digits t.second))

format_time_lem : (t : DayTime) → format_time t ≡ two_digits t.hour ++ minutes t
unfolding format_time
format_time_lem t = refl

pub str_le-format_time :
    (a b : DayTime)
    → IsDayTime a
    → IsDayTime b
    → (str_le (format_time a) (format_time b) ≡ true) ↔ NotLater a b
str_le-format_time a b ha hb =
    rw
      (
        format_time_lem a,
        format_time_lem b,
        str_le-two_digits a.hour b.hour (minutes a) (minutes b) (omega arith) (omega arith),
        str_le-two_digits a.minute b.minute (b':' ∷ two_digits a.second)
            (b':' ∷ two_digits b.second) (omega arith) (omega arith),
        str_le_last a.second b.second (omega arith) (omega arith),
      )
      (ground arith)

-- The item's texts are times as the program writes them.
pub record IsWindow (i : TclItem) : Type 0 where
  pub start : DayTime
  pub stop : DayTime
  pub start_valid : IsDayTime start
  pub stop_valid : IsDayTime stop
  pub start_text : i.pr_stat_time ≡ format_time start
  pub stop_text : i.pr_end_time ≡ format_time stop

-- `now` lies in the item's window.
abbrev pub Opens : DayTime → TclItem → Type 0
Opens now i = (w : IsWindow i) × NotLater w.start now × NotLater now w.stop

module _ (now : DayTime) (valid : IsDayTime now) (i : TclItem) (w : IsWindow i) where
  is_open→Opens : is_open (format_time now) i ≡ true → Opens now i
  unfolding is_open
  is_open→Opens h = (
    w,
    (str_le-format_time w.start now w.start_valid valid).0 (rw (← w.start_text) (ground arith)),
    (str_le-format_time now w.stop valid w.stop_valid).0 (rw (← w.stop_text) (ground arith)),
  )

Opens→is_open :
    (now : DayTime)
    → IsDayTime now
    → (i : TclItem) → Opens now i
    → is_open (format_time now) i ≡ true
unfolding is_open
Opens→is_open now valid i (w, after, before) = rw (
  w.start_text,
  w.stop_text,
  (str_le-format_time w.start now w.start_valid valid).1 after,
  (str_le-format_time now w.stop valid w.stop_valid).1 before,
)

Any-map :
    {Q P R : TclItem → Type 0} (is : List TclItem)
    → ((i : TclItem) → Q i → P i → R i)
    → All Q is
    → Any P is
    → Any R is
Any-map [] f q h = h
Any-map (i ∷ is) f q (inl h) = inl (f i q.0 h)
Any-map (i ∷ is) f q (inr h) = inr (Any-map is f q.1 h)

Any-map_all :
    {P R : TclItem → Type 0} (is : List TclItem) → ((i : TclItem) → P i → R i) → Any P is → Any R is
Any-map_all [] f h = h
Any-map_all (i ∷ is) f (inl h) = inl (f i h)
Any-map_all (i ∷ is) f (inr h) = inr (Any-map_all is f h)

-- Where every item has times of day for its texts, a policy is open at a time of day exactly if it
-- has no window, or one that starts not later and ends not earlier than that time.
pub match_tcl_item_iff :
    (p : Policy) (now : DayTime)
    → IsDayTime now
    → All IsWindow p.tcl
    → (match_tcl_item (some p) now ≡ 0) ↔ ((p.tcl ≡ []) ⊎ Any (Opens now) p.tcl)
unfolding match_tcl_item
match_tcl_item_iff p now valid windows = (there, back)
  where
    IsOpen : TclItem → Type 0
    IsOpen i = is_open (format_time now) i ≡ true

    raw : (check_items (is_open (format_time now)) p.tcl ≡ 0) ↔ ((p.tcl ≡ []) ⊎ Any IsOpen p.tcl)
    raw = check_items_iff (is_open (format_time now)) IsOpen (λ i. (λ h. h, λ h. h)) p.tcl

    weaken : ((p.tcl ≡ []) ⊎ Any IsOpen p.tcl) → (p.tcl ≡ []) ⊎ Any (Opens now) p.tcl
    weaken (inl e) = inl e
    weaken (inr a) = inr (Any-map p.tcl (λ i w h. is_open→Opens now valid i w h) windows a)

    there : check_items (is_open (format_time now)) p.tcl ≡ 0 → (p.tcl ≡ []) ⊎ Any (Opens now) p.tcl
    there h = weaken (raw.0 h)

    back : (p.tcl ≡ []) ⊎ Any (Opens now) p.tcl → check_items (is_open (format_time now)) p.tcl ≡ 0
    back (inl e) = raw.1 (inl e)
    back (inr a) = raw.1 (inr (Any-map_all p.tcl (Opens→is_open now valid) a))

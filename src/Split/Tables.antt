-- ===== src/Split/Tables.antt =====
-- `FindDBTable`: what a hit says of the statement.
use oscshell.Base.{
  ℕ, Bool, true, ◌&&◌, List, [], ◌∷◌, ◌++◌, some, ◌==◌, ==_iff, ◌≡◌, ◌≢◌, ◌↔◌, ◌⊎◌, refl, sym, ap,
  ◌∙◌, arith, append_assoc, flatten, inl, inr, Bool-cases,
}
use oscshell.Base.Int.{ℤ}
use oscshell.Base.Text.{Bytes, contains, contains_iff}
use oscshell.Split.{
  pieces, strsplit, pair_matches, find_pair, table_in_result, find_db_table, separators,
}
use oscshell.Split.Met.{Meets, strsplit-Meets}
use oscshell.Split.Concat.{flatten-strsplit}

pair_matches_lem :
    (cmd table piece next : Bytes)
    → pair_matches cmd table piece next ≡ (contains piece cmd && contains next table)
unfolding pair_matches
pair_matches_lem cmd table piece next = ground arith

contains-append_left : (s t p : Bytes) → contains s p ≡ true → contains (s ++ t) p ≡ true
contains-append_left s t p h =
    let (pre, post, e) = (contains_iff s p).0 h in
    (contains_iff (s ++ t) p).1 (pre, post ++ t, rw e (simp append_assoc))

contains-append_right : (s t p : Bytes) → contains t p ≡ true → contains (s ++ t) p ≡ true
contains-append_right s t p h =
    let (pre, post, e) = (contains_iff t p).0 h in
    (contains_iff (s ++ t) p).1 (s ++ pre, post, rw e (simp append_assoc))

-- The command stands in one piece and the table in the piece behind it.
pub record Hit (cmd table : Bytes) (result : List Bytes) : Type 0 where
  pub before : List Bytes
  pub piece : Bytes
  pub next : Bytes
  pub after : List Bytes
  pub splits : result ≡ before ++ (piece ∷ (next ∷ after))
  pub has_command : contains piece cmd ≡ true
  pub has_table : contains next table ≡ true

pub Hit-find_pair :
    (cmd table : Bytes) (result : List Bytes)
    → find_pair cmd table result ≡ true
    → Hit cmd table result
unfolding find_pair
Hit-find_pair cmd table [] h = cc
Hit-find_pair cmd table (a ∷ []) h = cc
Hit-find_pair cmd table (a ∷ (b ∷ rest)) h = elim (Bool-cases (pair_matches cmd table a b)) [
  | inl e ↦
      let both = sym (pair_matches_lem cmd table a b) ∙ e in
      record {
        before = [];
        piece = a;
        next = b;
        after = rest;
        splits = refl;
        has_command = ground arith;
        has_table = ground arith;
      }
  | inr e ↦
      let t = Hit-find_pair cmd table (b ∷ rest) (rw e at h) in
      record {
        before = a ∷ t.before;
        piece = t.piece;
        next = t.next;
        after = t.after;
        splits = ap (◌∷◌ a) t.splits;
        has_command = t.has_command;
        has_table = t.has_table;
      }
]

pub find_pair-Hit :
    (cmd table : Bytes) (before : List Bytes) (piece next : Bytes) (after : List Bytes)
    → contains piece cmd ≡ true
    → contains next table ≡ true
    → find_pair cmd table (before ++ (piece ∷ (next ∷ after))) ≡ true
unfolding find_pair
find_pair-Hit cmd table [] piece next after c t =
    ground (arith, pair_matches_lem cmd table piece next)
find_pair-Hit cmd table (x ∷ []) piece next after c t =
    ground (arith, find_pair-Hit cmd table [] piece next after c t)
find_pair-Hit cmd table (x ∷ (y ∷ before)) piece next after c t =
    ground (arith, find_pair-Hit cmd table (y ∷ before) piece next after c t)

contains-flatten :
    (p a : Bytes) (before after : List Bytes)
    → contains a p ≡ true
    → contains (flatten (before ++ (a ∷ after))) p ≡ true
contains-flatten p a [] after h = contains-append_left a (flatten after) p h
contains-flatten p a (x ∷ before) after h =
    contains-append_right x _ p (contains-flatten p a before after h)

Hit-contains :
    (cmd table : Bytes) (result : List Bytes)
    → Hit cmd table result
    → (contains (flatten result) cmd ≡ true) × (contains (flatten result) table ≡ true)
Hit-contains cmd table result t =
    let regroup : result ≡ (t.before ++ t.piece ∷ []) ++ (t.next ∷ t.after) =
      t.splits ∙ sym (append_assoc t.before (t.piece ∷ []) (t.next ∷ t.after)) in
    (
      rw t.splits (contains-flatten cmd t.piece t.before _ t.has_command),
      rw regroup (contains-flatten table t.next (t.before ++ t.piece ∷ []) t.after t.has_table),
    )

table_in_result_sound :
    (sql cmd table : Bytes) (rtn : ℕ) (result : List Bytes)
    → flatten result ≡ sql
    → table_in_result sql cmd table (pieces rtn result) ≡ true
    → (contains sql cmd ≡ true) × (contains sql table ≡ true)
unfolding table_in_result
table_in_result_sound sql cmd table rtn result whole h = elim (Bool-cases (rtn == 1)) [
  | inl e ↦ rw whole at (Hit-contains cmd table result (Hit-find_pair cmd table result (rw e at h)))
  | inr e ↦ ground arith
]

pub find_db_table_total :
    (sql cmd table : Bytes)
    → (b : Bool) × (find_db_table sql cmd table ≡ some b)
      × (b ≡ true → (contains sql cmd ≡ true) × (contains sql table ≡ true))
unfolding find_db_table
find_db_table_total [] cmd table =
    unfold strsplit in (contains [] cmd && contains [] table, refl, ground arith)
find_db_table_total (x ∷ s) cmd table =
    let (rtn, result, e, spells) =
      flatten-strsplit (x ∷ s) separators (ℤ.pos 1) (ℤ.pos 1) (cc) (cc) refl refl refl in
    (
      table_in_result (x ∷ s) cmd table (pieces rtn result),
      rw e refl,
      table_in_result_sound (x ∷ s) cmd table rtn result spells,
    )

-- If `FindDBTable` reports a table, both the command and the table occur in the statement.
pub find_db_table_sound :
    (sql cmd table : Bytes)
    → find_db_table sql cmd table ≡ some true
    → (contains sql cmd ≡ true) × (contains sql table ≡ true)
find_db_table_sound sql cmd table h =
    let (b, e, both) = find_db_table_total sql cmd table in both (ground arith)

-- A hit of `FindDBTable`: of the pieces if one of the keywords occurs in the statement, and of the
-- whole statement if none does.
abbrev pub Found : Bytes → Bytes → Bytes → List Bytes → Type 0
Found sql cmd table result =
    Meets sql separators × Hit cmd table result
    ⊎ (¬ Meets sql separators) × (contains sql cmd ≡ true) × (contains sql table ≡ true)

module _ (sql cmd table : Bytes) (rtn : ℕ) (result : List Bytes) where
  in_result→Found :
      (rtn ≡ 1) ↔ Meets sql separators
      → table_in_result sql cmd table (pieces rtn result) ≡ true
      → Found sql cmd table result
  unfolding table_in_result
  in_result→Found m h = elim (Bool-cases (rtn == 1)) [
    | inl one ↦ inl (m.0 ((==_iff rtn 1).0 one), Hit-find_pair cmd table result (rw one at h))
    | inr many ↦
        let not_one : rtn ≢ 1 = ground arith in
        inr (λ met. not_one (m.1 met), ground arith, ground arith)
  ]

  Found→in_result :
      (rtn ≡ 1) ↔ Meets sql separators
      → Found sql cmd table result
      → table_in_result sql cmd table (pieces rtn result) ≡ true
  unfolding table_in_result
  Found→in_result m (inl (met, t)) =
      rw ((==_iff rtn 1).1 (m.1 met), t.splits)
        (find_pair-Hit cmd table t.before t.piece t.next t.after t.has_command t.has_table)
  Found→in_result m (inr (unmet, c, t)) = elim (Bool-cases (rtn == 1)) [
    | inl one ↦ absurd (unmet (m.0 ((==_iff rtn 1).0 one)))
    | inr many ↦ ground arith
  ]

  find_db_table-Found :
      sql ≢ []
      → strsplit sql separators (ℤ.pos 1) (ℤ.pos 1) ≡ some (pieces rtn result)
      → (find_db_table sql cmd table ≡ some true) ↔ Found sql cmd table result
  unfolding find_db_table
  find_db_table-Found h e =
      let m = strsplit-Meets sql separators rtn result h (cc) refl e in
      (
        λ (h : find_db_table sql cmd table ≡ some true). in_result→Found m (ground arith),
        λ h. rw (e, Found→in_result m h) refl,
      )

-- A statement that is not empty is split into pieces that spell it. If one of the four keywords
-- occurs in the statement, `FindDBTable` reports a table exactly if some piece holds the command and
-- the piece behind it the table; if none does, exactly if the statement holds both.
pub find_db_table_iff :
    (sql cmd table : Bytes)
    → sql ≢ []
    → (rtn : ℕ) × (result : List Bytes) × (strsplit sql separators (ℤ.pos 1) (ℤ.pos 1)
        ≡ some (pieces rtn result))
      × (flatten result ≡ sql)
      × ((find_db_table sql cmd table ≡ some true) ↔ Found sql cmd table result)
find_db_table_iff sql cmd table h =
    let (rtn, result, e, spells) =
      flatten-strsplit sql separators (ℤ.pos 1) (ℤ.pos 1) h (cc) refl refl refl in
    (rtn, result, e, spells, find_db_table-Found sql cmd table rtn result h e)

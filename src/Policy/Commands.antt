-- ===== src/Policy/Commands.antt =====
-- The command rules: black list and white list.
use oscshell.Base.{
  ℕ, suc, ◌<◌, Bool, true, false, List, [], ◌∷◌, Option, none, some, ltb, ◌==◌, if◌then◌else◌, Any,
  length, ◌≡◌, ◌≢◌, ◌↔◌, inl, inr, refl, sym, ◌∙◌, ap, arith, Bool-cases, nil_of_length,
}
use oscshell.Base.Int.{ℤ, pos, int_eq}
use oscshell.Base.Text.{Bytes, contains, strupr, strcpy_fits, tokens}
use oscshell.Split.Tables.{find_db_table_total}
use oscshell.Split.{find_db_table}
use oscshell.Policy.{CclItem, Policy, ccl_loop, match_ccl_item}
use oscshell.Policy.Rules.{Applies, TablesFit, some_iff, Rules-ccl_loop}

match_ccl_item-loop :
    (p : Policy) (cmd : Bytes) (type : ℤ)
    → p.ccl ≢ []
    → length cmd < 10240
    → match_ccl_item (some p) cmd type
      ≡ ccl_loop (strupr cmd) (if int_eq type (pos 2) then 1 else 0) p.ccl
unfolding match_ccl_item
match_ccl_item-loop p cmd type some_rule fits = elim (Bool-cases (length p.ccl == 0)) [
  | inl e ↦ absurd (some_rule (nil_of_length p.ccl (ground arith)))
  | inr e ↦ rw (e, strcpy_fits 10240 cmd fits)
]

-- The test answers whatever the type is, if the buffers are long enough.
pub match_ccl_item_total :
    (p : Policy) (cmd : Bytes) (type : ℤ)
    → length cmd < 10240
    → TablesFit p.ccl
    → (code : ℕ) × (match_ccl_item (some p) cmd type ≡ some code)
match_ccl_item_total p cmd type fits tables = elim (Bool-cases (length p.ccl == 0)) [
  | inl e ↦ (0, unfold match_ccl_item in rw e)
  | inr e ↦
      let r = Rules-ccl_loop (strupr cmd) (if int_eq type (pos 2) then 1 else 0) p.ccl tables in
      let some_rule : p.ccl ≢ [] = λ q. ground (arith, ap length q) in
      (_, match_ccl_item-loop p cmd type some_rule fits ∙ r.returns)
]

iff_eq : {P : Type 0} (a b : Bool) → (a ≡ true) ↔ P → (b ≡ true) ↔ P → a ≡ b
iff_eq true true p q = refl
iff_eq false false p q = refl
iff_eq true false p q = sym (q.1 (p.0 refl))
iff_eq false true p q = p.1 (q.0 refl)

-- For a policy with rules, a command shorter than the buffer and table texts that fit theirs, the
-- test answers: as a black list (type 1) it refuses, and as a white list (type 2) it allows, exactly
-- if one of the rules applies to the command in upper case.
pub match_ccl_item_iff :
    (p : Policy) (cmd : Bytes)
    → p.ccl ≢ []
    → length cmd < 10240
    → TablesFit p.ccl
    → (hit : Bool) × (match_ccl_item (some p) cmd (pos 1) ≡ some (if hit then 1 else 0))
      × (match_ccl_item (some p) cmd (pos 2) ≡ some (if hit then 0 else 1))
      × ((hit ≡ true) ↔ Any (Applies (strupr cmd)) p.ccl)
match_ccl_item_iff p cmd some_rule fits tables =
    let black = Rules-ccl_loop (strupr cmd) 0 p.ccl tables in
    let white = Rules-ccl_loop (strupr cmd) 1 p.ccl tables in
    let same = iff_eq white.hit black.hit white.means black.means in
    (
      black.hit,
      match_ccl_item-loop p cmd (pos 1) some_rule fits ∙ black.returns,
      match_ccl_item-loop p cmd (pos 2) some_rule fits ∙ rw (← same) white.returns,
      black.means,
    )

Any-occurs :
    (mycmd : Bytes) (i : CclItem) (ts : List Bytes)
    → Any (λ t. find_db_table mycmd i.pr_command t ≡ some true) ts
    → contains mycmd i.pr_command ≡ true
Any-occurs mycmd i [] h = absurd h
Any-occurs mycmd i (t ∷ ts) (inl h) =
    let (b, e, both) = find_db_table_total mycmd i.pr_command t in (both ((some_iff _ b e).1 h)).0
Any-occurs mycmd i (t ∷ ts) (inr h) = Any-occurs mycmd i ts h

Applies-occurs :
    (mycmd : Bytes) (i : CclItem) → Applies mycmd i → contains mycmd i.pr_command ≡ true
Applies-occurs mycmd i (inl (_, h)) = h
Applies-occurs mycmd i (inr (_, h)) = Any-occurs mycmd i (tokens b',' i.pr_table) h

Any-Applies :
    (mycmd : Bytes) (is : List CclItem)
    → Any (Applies mycmd) is
    → Any (λ i. contains mycmd i.pr_command ≡ true) is
Any-Applies mycmd [] h = absurd h
Any-Applies mycmd (i ∷ is) (inl h) = inl (Applies-occurs mycmd i h)
Any-Applies mycmd (i ∷ is) (inr h) = inr (Any-Applies mycmd is h)

-- Under the same conditions, a command that a black list refuses has the command text of some rule
-- in its upper case, whatever tables the rule names.
pub match_ccl_item_refused :
    (p : Policy) (cmd : Bytes)
    → p.ccl ≢ []
    → length cmd < 10240
    → TablesFit p.ccl
    → match_ccl_item (some p) cmd (pos 1) ≡ some 1
    → Any (λ i. contains (strupr cmd) i.pr_command ≡ true) p.ccl
match_ccl_item_refused p cmd some_rule fits tables h =
    let (hit, black, white, means) = match_ccl_item_iff p cmd some_rule fits tables in
    Any-Applies (strupr cmd) p.ccl (means.0 (ground arith))

length-strupr : (s : Bytes) → length (strupr s) ≡ length s
unfolding strupr
length-strupr [] = refl
length-strupr (c ∷ s) = ap suc (length-strupr s)

-- Two commands with the same upper case are treated alike, by every policy and for every type.
pub match_ccl_item-strupr :
    (p : Option Policy) (cmd other : Bytes) (type : ℤ)
    → strupr cmd ≡ strupr other
    → match_ccl_item p cmd type ≡ match_ccl_item p other type
unfolding match_ccl_item
match_ccl_item-strupr none cmd other type e = refl
match_ccl_item-strupr (some p) cmd other type e =
    let same : length cmd ≡ length other =
      sym (length-strupr cmd) ∙ ap length e ∙ length-strupr other in
    elim (Bool-cases (ltb (length other) 10240)) [
      | inl fits ↦ rw same (rw fits (rw e))
      | inr over ↦ rw same (rw over)
    ]

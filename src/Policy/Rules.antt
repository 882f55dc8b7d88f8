-- ===== src/Policy/Rules.antt =====
-- The loop over the command rules, and what a rule that applies means.
use oscshell.Base.{
  ℕ, ◌<◌, Bool, true, false, List, [], ◌∷◌, Option, some, ◌==◌, if◌then◌else◌, Any, All, length,
  ◌≡◌, ◌≢◌, ◌↔◌, ◌⊎◌, inl, inr, refl, ap, arith, Bool-cases, nil_of_length,
}
use oscshell.Base.Text.{Bytes, contains, strcpy_fits, tokens}
use oscshell.Split.Tables.{find_db_table_total}
use oscshell.Split.{find_db_table}
use oscshell.Policy.{CclItem, any_table, ccl_hit, ccl_loop}

-- The rule applies to the command text: the rule's command occurs in it, or, where the rule names
-- tables, `FindDBTable` finds one of them.
abbrev pub Applies : Bytes → CclItem → Type 0
Applies mycmd i =
    (i.pr_table ≡ []) × (contains mycmd i.pr_command ≡ true)
    ⊎ (i.pr_table ≢ [])
      × Any (λ t. find_db_table mycmd i.pr_command t ≡ some true) (tokens b',' i.pr_table)

-- The table texts fit the buffer of the loop.
abbrev pub TablesFit : List CclItem → Type 0
TablesFit = All (λ i. length i.pr_table < 1024)

-- A test that answers, and answers `true` exactly if `P` holds.
pub record Decides (P : Type 0) (r : Option Bool) : Type 0 where
  pub answer : Bool
  pub returns : r ≡ some answer
  pub means : (answer ≡ true) ↔ P

-- A test, and the answer of the tests behind it if it fails.
Decides-or :
    {P Q : Type 0} (b : Bool) (r : Option Bool)
    → (b ≡ true) ↔ P
    → Decides Q r
    → Decides (P ⊎ Q) (if b then some true else r)
Decides-or true r p d = record {
  answer = true;
  returns = refl;
  means = (λ h. inl (p.0 refl), λ h. refl);
}
Decides-or {P} {Q} false r p d = record {
  answer = d.answer;
  returns = d.returns;
  means = (λ h. inr (d.means.0 h), back);
}
  where
    back : P ⊎ Q → d.answer ≡ true
    back (inl h) = cc (p.1 h)
    back (inr h) = d.means.1 h

pub some_iff : (o : Option Bool) (b : Bool) → o ≡ some b → (b ≡ true) ↔ (o ≡ some true)
some_iff o b e = ground arith

Decides-any_table :
    (mycmd command : Bytes) (ts : List Bytes)
    → Decides (Any (λ t. find_db_table mycmd command t ≡ some true) ts) (any_table mycmd command ts)
unfolding any_table
Decides-any_table mycmd command [] = record {
  answer = false;
  returns = refl;
  means = (λ h. cc, λ h. absurd h);
}
Decides-any_table mycmd command (t ∷ ts) =
    let (b, e, _) = find_db_table_total mycmd command t in
    let d = Decides-or b _ (some_iff _ b e) (Decides-any_table mycmd command ts) in
    record { answer = d.answer; returns = rw e d.returns; means = d.means }

pub Decides-ccl_hit :
    (mycmd : Bytes) (i : CclItem)
    → length i.pr_table < 1024
    → Decides (Applies mycmd i) (ccl_hit mycmd i)
unfolding ccl_hit
Decides-ccl_hit mycmd i fits = elim (Bool-cases (length i.pr_table == 0)) [
  | inl e ↦
      let empty = nil_of_length i.pr_table (ground arith) in
      record {
        answer = contains mycmd i.pr_command;
        returns = rw (strcpy_fits 1024 i.pr_table fits) (rw e);
        means = (λ h. inl (empty, h), with_no_table empty);
      }
  | inr e ↦
      let some_table : i.pr_table ≢ [] = λ q. ground (arith, ap length q) in
      let d = Decides-any_table mycmd i.pr_command (tokens b',' i.pr_table) in
      record {
        answer = d.answer;
        returns = rw (strcpy_fits 1024 i.pr_table fits) (rw e d.returns);
        means = (λ h. inr (some_table, d.means.0 h), with_table some_table d);
      }
]
  where
    with_no_table : i.pr_table ≡ [] → Applies mycmd i → contains mycmd i.pr_command ≡ true
    with_no_table e (inl (_, h)) = h
    with_no_table e (inr (n, _)) = absurd (n e)

    with_table :
        i.pr_table ≢ []
        → (d : Decides
            (Any (λ t. find_db_table mycmd i.pr_command t ≡ some true) (tokens b',' i.pr_table))
            (any_table mycmd i.pr_command (tokens b',' i.pr_table)))
        → Applies mycmd i
        → d.answer ≡ true
    with_table n d (inl (e, _)) = absurd (n e)
    with_table n d (inr (_, h)) = d.means.1 h

-- The loop's answer: `rtn` if no rule applies, and the other of 0 and 1 if one does.
pub record Rules (mycmd : Bytes) (rtn : ℕ) (is : List CclItem) : Type 0 where
  pub hit : Bool
  pub returns : ccl_loop mycmd rtn is ≡ some (if hit then (if rtn == 0 then 1 else 0) else rtn)
  pub means : (hit ≡ true) ↔ Any (Applies mycmd) is

pub Rules-ccl_loop :
    (mycmd : Bytes) (rtn : ℕ) (is : List CclItem) → TablesFit is → Rules mycmd rtn is
unfolding ccl_loop
Rules-ccl_loop mycmd rtn [] fits = record {
  hit = false;
  returns = refl;
  means = (λ h. cc, λ h. absurd h);
}
Rules-ccl_loop mycmd rtn (i ∷ is) fits =
    let d = Decides-ccl_hit mycmd i fits.0 in
    let t = Rules-ccl_loop mycmd rtn is fits.1 in
    elim (Bool-cases d.answer) [
      | inl e ↦ record {
        hit = true;
        returns = rw d.returns (rw e);
        means = (λ h. inl (d.means.0 e), λ h. refl);
      }
      | inr e ↦ record {
        hit = t.hit;
        returns = rw d.returns (rw e t.returns);
        means = (λ h. inr (t.means.0 h), skip d t e);
      }
    ]
  where
    skip :
        (d : Decides (Applies mycmd i) (ccl_hit mycmd i)) (t : Rules mycmd rtn is)
        → d.answer ≡ false
        → Applies mycmd i ⊎ Any (Applies mycmd) is
        → t.hit ≡ true
    skip d t e (inl h) = cc (d.means.1 h)
    skip d t e (inr h) = t.means.1 h

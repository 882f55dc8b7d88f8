-- ===== src/Audit/Levels.antt =====
-- The policies that raise the level of a command.
use oscshell.Base.{
  ℕ, ◌<◌, Bool, true, false, List, [], ◌∷◌, some, ◌==◌, ==_iff, ◌≡◌, ◌≢◌, ◌↔◌, inl, inr, refl, sym,
  ap, ◌∙◌, arith, Any, All, Bool-cases, length,
}
use oscshell.Base.Int.{ℤ}
use oscshell.Base.Text.{Bytes}
use oscshell.Policy.{Policy, match_ccl_item}
use oscshell.Policy.Rules.{TablesFit}
use oscshell.Policy.Commands.{match_ccl_item_total}
use oscshell.Audit.{is_raised}

-- The policy refuses the command.
abbrev pub Refuses : Bytes → ℤ → Policy → Type 0
Refuses cmd flag p = match_ccl_item (some p) cmd flag ≢ some 0

pub record Raises (cmd : Bytes) (flag : ℤ) (ps : List Policy) : Type 0 where
  pub answer : Bool
  pub returns : is_raised ps cmd flag ≡ some answer
  pub means : (answer ≡ true) ↔ Any (Refuses cmd flag) ps

pub Raises-is_raised :
    (cmd : Bytes) (flag : ℤ) (ps : List Policy)
    → length cmd < 10240
    → All (λ p. TablesFit p.ccl) ps
    → Raises cmd flag ps
unfolding is_raised
Raises-is_raised cmd flag [] fits tables = record {
  answer = false;
  returns = refl;
  means = (λ h. cc, λ h. absurd h);
}
Raises-is_raised cmd flag (p ∷ ps) fits tables =
    let (code, e) = match_ccl_item_total p cmd flag fits tables.0 in
    let r = Raises-is_raised cmd flag ps fits tables.1 in
    elim (Bool-cases (code == 0)) [
      | inl z ↦ record {
        answer = r.answer;
        returns = rw e (rw z r.returns);
        means = (λ h. inr (r.means.0 h), skip code e z r);
      }
      | inr z ↦ record {
        answer = true;
        returns = rw e (rw z);
        means = (λ h. inl (λ k. ground (arith, sym e ∙ k)), λ h. refl);
      }
    ]
  where
    skip :
        (code : ℕ)
        → match_ccl_item (some p) cmd flag ≡ some code
        → (code == 0) ≡ true
        → (r : Raises cmd flag ps) → Any (Refuses cmd flag) (p ∷ ps)
        → r.answer ≡ true
    skip code e z r (inl h) = absurd (h (e ∙ ap (λ (n : ℕ). some n) ((==_iff code 0).0 z)))
    skip code e z r (inr h) = r.means.1 h

-- ===== src/Access/Used.antt =====
-- The loop over the tables ends exactly if the policies that count are found, and adds up their
-- rights.
use oscshell.Base.{
  ℕ, Bool, true, false, ◌&&◌, ◌||◌, not, List, [], ◌∷◌, Option, none, some, ◌>>=◌, map,
  if◌then◌else◌, ◌==◌, ◌≡◌, ◌≢◌, ◌⊎◌, inl, inr, refl, arith, Bool-cases, Option-cases,
}
use oscshell.Policy.{Policy}
use oscshell.Database.Records.{JoinTableId}
use oscshell.Database.PolicySearch.{get_policy}
use oscshell.Access.{Call, Rights, no_policy, with_policy, after_policy, scan}
use oscshell.Access.Uses.{counted, Uses, Uses-add}

-- The loop and the count come to an end together, and the rights are those of the policies counted.
abbrev pub Agrees : Call → Rights → Option (Rights × List Policy) → Option (List Policy) → Type 0
Agrees c r none none = Unit {0}
Agrees c r none (some used) = ⊥
Agrees c r (some x) none = ⊥
Agrees c r (some (end, ps)) (some used) = Uses c r end used

Agrees-skip :
    (c : Call) (r : Rights) (p : Policy) (s : Option (Rights × List Policy))
    (u : Option (List Policy))
    → Agrees c r s u
    → Agrees c r (◌>>=◌ {B = Rights × List Policy} s (λ x. some (x.0, p ∷ x.1))) u
Agrees-skip c r p none none h = tt
Agrees-skip c r p none (some used) h = absurd h
Agrees-skip c r p (some x) none h = absurd h
Agrees-skip c r p (some (end, ps)) (some used) h = h

Agrees-add :
    (c : Call) (r : Rights) (p : Policy) (is_resource : Bool) (s : Option (Rights × List Policy))
    (u : Option (List Policy))
    → Agrees c (with_policy c p is_resource r) s u
    → Agrees c r
        (◌>>=◌ {B = Rights × List Policy} s (λ x. some (x.0, p ∷ x.1)))
        (◌>>=◌ {B = List Policy} u (λ used. some (p ∷ used)))
Agrees-add c r p is_resource none none h = tt
Agrees-add c r p is_resource none (some used) h = absurd h
Agrees-add c r p is_resource (some x) none h = absurd h
Agrees-add c r p is_resource (some (end, ps)) (some used) h = Uses-add c p is_resource r end used h

nothing_used : {P : Type 0} → P ⊎ ⊥ → P
nothing_used (inl h) = h
nothing_used (inr h) = absurd h

no_more : {P : Type 0} → P ⊎ (◌≢◌ {A = List Policy} [] []) → P
no_more (inl h) = h
no_more (inr h) = absurd (h refl)

Uses-refl : (c : Call) (r : Rights) → Uses c r r []
Uses-refl c r = record {
  ncl = (inl, nothing_used);
  pcl = (inl, nothing_used);
  tcl = (inl, nothing_used);
  policy = (inl, no_more);
}

-- A policy at the resource counts as a policy.
abbrev pub IsStarted : Rights → Type 0
IsStarted r = r.find_res ≡ true → r.find_policy ≡ true

IsStarted-with_policy :
    (c : Call) (p : Policy) (is_resource : Bool) (r : Rights)
    → IsStarted (with_policy c p is_resource r)
unfolding with_policy
IsStarted-with_policy c p is_resource r h = refl

Uses-break :
    (c : Call) (r : Rights) → r.find_policy ≡ true → Uses c r (record r { find_policy = true }) []
Uses-break c r h = record {
  ncl = (inl, nothing_used);
  pcl = (inl, nothing_used);
  tcl = (inl, nothing_used);
  policy = (λ e. inl h, λ e. refl);
}

module _ (c : Call) (ts : List JoinTableId) (r : Rights) (code : ℕ) (p : Policy) (here : Bool) where
  -- One round, once its search has answered.
  Agrees-round :
      IsStarted r
      → Agrees c r (scan c ts r) (counted c ts r.find_res)
      → Agrees c
          (with_policy c p here r)
          (scan c ts (with_policy c p here r))
          (counted c ts (here || r.find_res))
      → Agrees c r
          (if (after_policy c code p here r).1
            then ◌>>=◌ {B = Rights × List Policy}
                (scan c ts (after_policy c code p here r).0)
                (λ x. some (x.0, p ∷ x.1))
            else some ((after_policy c code p here r).0, p ∷ map (λ _. no_policy) ts))
          (elim (code == 0) [
            | false ↦ counted c ts r.find_res
            | true ↦ elim (not here && r.find_res) [
              | true ↦ some []
              | false ↦
                  ◌>>=◌ {B = List Policy}
                    (counted c ts (here || r.find_res))
                    (λ used. some (p ∷ used))
            ]
          ])
  unfolding after_policy
  Agrees-round start missed found = elim (Bool-cases (code == 0)) [
    | inr z ↦ rw z (Agrees-skip c r p _ _ missed)
    | inl z ↦ elim (Bool-cases (not here && r.find_res)) [
      | inl f ↦ rw z (rw f (Uses-break c r (start (ground arith))))
      | inr f ↦ rw z (rw f (Agrees-add c r p here _ _ found))
    ]
  ]

-- Whatever the database answers, the loop and the count agree.
pub scan-counted :
    (c : Call) (ts : List JoinTableId) (r : Rights)
    → IsStarted r
    → Agrees c r (scan c ts r) (counted c ts r.find_res)
unfolding scan counted with_policy
scan-counted c [] r start = Uses-refl c r
scan-counted c (t ∷ ts) r start =
    elim (Option-cases (get_policy c.backend c.rounds t no_policy r.find_res)) [
      | inl e ↦ rw e tt
      | inr ((code, (p, here)), e) ↦ rw e (
          Agrees-round c ts r code p here start (scan-counted c ts r start)
            (scan-counted c ts (with_policy c p here r) (IsStarted-with_policy c p here r)))
    ]

-- ===== src/Access/Allows.antt =====
-- When the rights of the policies are refused.
use oscshell.Base.{
  Bool, true, false, ◌||◌, ◌&&◌, not, List, [], ◌∷◌, some, ◌≡◌, ◌≢◌, ◌↔◌, ◌⊎◌, inl, inr, refl,
  arith, Any, Bool-cases, Option-cases,
}
use oscshell.Policy.{Policy}
use oscshell.Database.Records.{JoinTableId}
use oscshell.Access.{Call, Rights, no_rights, scan, is_refused}
use oscshell.Access.Uses.{NclAllows, PclAllows, TclAllows, counted, Uses}
use oscshell.Access.Used.{scan-counted}

List-cases : (ps : List Policy) → (ps ≡ []) ⊎ (ps ≢ [])
List-cases [] = inl refl
List-cases (p ∷ ps) = inr (cc)

from_used : {P : Type 0} → (false ≡ true) ⊎ P → P
from_used (inl h) = cc h
from_used (inr h) = h

all_given :
    (n p t : Bool)
    → ((not n || not p || not t) && true) ≡ false
    → (n ≡ true) × (p ≡ true) × (t ≡ true)
all_given n p t h = (ground arith, ground arith, ground arith)

some_missing :
    (n p t f : Bool) → n ≡ true → p ≡ true → t ≡ true → ((not n || not p || not t) && f) ≡ false
some_missing n p t f a b c = ground arith

-- Each right is one that some policy gives, or there is no policy at all.
abbrev pub Allows : Call → List Policy → Type 0
Allows c used =
    (used ≡ []) ⊎ Any (NclAllows c) used × Any (PclAllows c) used × Any (TclAllows c) used

Allows-Uses :
    (c : Call) (end : Rights) (used : List Policy)
    → Uses c no_rights end used
    → (is_refused end ≡ false) ↔ Allows c used
unfolding is_refused
Allows-Uses c end used u = (there, back)
  where
    no_policy_used : end.find_policy ≡ false → used ≡ []
    no_policy_used e = elim (List-cases used) [
      | inl h ↦ h
      | inr h ↦ absurd (cc (u.policy.1 (inr h)))
    ]

    there : is_refused end ≡ false → Allows c used
    there h = elim (Bool-cases end.find_policy) [
      | inl e ↦
          let (n, p, t) = all_given _ _ _ (rw e at h) in
          inr (from_used (u.ncl.0 n), from_used (u.pcl.0 p), from_used (u.tcl.0 t))
      | inr e ↦ inl (no_policy_used e)
    ]

    back : Allows c used → is_refused end ≡ false
    back (inl h) = elim (Bool-cases end.find_policy) [
      | inl e ↦ absurd (from_used (u.policy.0 e) h)
      | inr e ↦ ground arith
    ]
    back (inr (n, p, t)) =
        some_missing _ _ _ _ (u.ncl.1 (inr n)) (u.pcl.1 (inr p)) (u.tcl.1 (inr t))

Uses-scan :
    (c : Call) (ids : List JoinTableId) (end : Rights) (ps used : List Policy)
    → scan c ids no_rights ≡ some (end, ps)
    → counted c ids false ≡ some used
    → Uses c no_rights end used
Uses-scan c ids end ps used s u = rw u at (rw s at (scan-counted c ids no_rights (λ h. cc)))

-- If the loop ends, the policies that count are found.
pub counted-scan :
    (c : Call) (ids : List JoinTableId) (end : Rights) (ps : List Policy)
    → scan c ids no_rights ≡ some (end, ps)
    → (used : List Policy) × (counted c ids false ≡ some used)
      × ((is_refused end ≡ false) ↔ Allows c used)
counted-scan c ids end ps s = elim (Option-cases (counted c ids false)) [
  | inl e ↦ absurd (rw e at (rw s at (scan-counted c ids no_rights (λ h. cc))))
  | inr (used, e) ↦ (used, e, Allows-Uses c end used (Uses-scan c ids end ps used s e))
]

-- If the policies that count are found, the loop ends.
pub scan-Allows :
    (c : Call) (ids : List JoinTableId) (used : List Policy)
    → counted c ids false ≡ some used
    → (end : Rights) × (ps : List Policy) × (scan c ids no_rights ≡ some (end, ps))
      × ((is_refused end ≡ false) ↔ Allows c used)
scan-Allows c ids used u = elim (Option-cases (scan c ids no_rights)) [
  | inl e ↦ absurd (rw u at (rw e at (scan-counted c ids no_rights (λ h. cc))))
  | inr ((end, ps), e) ↦ (end, ps, e, Allows-Uses c end used (Uses-scan c ids end ps used e u))
]

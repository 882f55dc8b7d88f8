-- ===== src/Access/Uses.antt =====
-- The rights that the loop over the tables collects, and the policies that they come from.
use oscshell.Base.{
  ℕ, Bool, true, false, ◌&&◌, not, ◌||◌, List, [], ◌∷◌, Option, some, ◌>>=◌, ◌==◌, ◌≡◌, ◌≢◌, ◌↔◌,
  ◌⊎◌, inl, inr, refl, arith, Any,
}
use oscshell.Policy.{Policy, match_ncl_item, match_pcl_item, match_tcl_item}
use oscshell.Database.Records.{JoinTableId}
use oscshell.Database.PolicySearch.{get_policy}
use oscshell.Access.{Call, Rights, no_policy, with_policy}

-- The policies that count, one search after the other: a search without success adds nothing, and a
-- policy that is not at the resource ends the loop behind one that is.
unfoldable pub counted : Call → List JoinTableId → Bool → Option (List Policy)
counted c [] at_resource = some []
counted c (t ∷ ts) at_resource = do
  (code, (p, here)) ← get_policy c.backend c.rounds t no_policy at_resource
  elim (code == 0) [
    | false ↦ counted c ts at_resource
    | true ↦ elim (not here && at_resource) [
      | true ↦ some []
      | false ↦ (do used ← counted c ts (here || at_resource); some (p ∷ used))
    ]
  ]

-- The policy lets the client's address in.
abbrev pub NclAllows : Call → Policy → Type 0
NclAllows c p = match_ncl_item c.inet (some p) c.client_ip ≡ 0

-- The policy lets the protocol in.
abbrev pub PclAllows : Call → Policy → Type 0
PclAllows c p = match_pcl_item (some p) c.access_type ≡ 0

-- The policy is open at the time of the call.
abbrev pub TclAllows : Call → Policy → Type 0
TclAllows c p = match_tcl_item (some p) c.now ≡ 0

-- The rights after the loop are those before it and those of the policies used.
pub record Uses (c : Call) (r end : Rights) (used : List Policy) : Type 0 where
  pub ncl : (end.nclright ≡ true) ↔ ((r.nclright ≡ true) ⊎ Any (NclAllows c) used)
  pub pcl : (end.pclright ≡ true) ↔ ((r.pclright ≡ true) ⊎ Any (PclAllows c) used)
  pub tcl : (end.tclright ≡ true) ↔ ((r.tclright ≡ true) ⊎ Any (TclAllows c) used)
  pub policy : (end.find_policy ≡ true) ↔ ((r.find_policy ≡ true) ⊎ (used ≢ []))

-- A test in front of the others counts with what follows it.
iff_add :
    {Q : Type 0} (a x : Bool) (n : ℕ)
    → (a ≡ true) ↔ (((n == 0 || x) ≡ true) ⊎ Q)
    → (a ≡ true) ↔ ((x ≡ true) ⊎ ((n ≡ 0) ⊎ Q))
iff_add {Q} a x n e = (λ h. there (e.0 h), back)
  where
    there : ((n == 0 || x) ≡ true) ⊎ Q → (x ≡ true) ⊎ ((n ≡ 0) ⊎ Q)
    there (inl h) = ground arith
    there (inr h) = inr (inr h)

    back : (x ≡ true) ⊎ ((n ≡ 0) ⊎ Q) → a ≡ true
    back (inl h) = e.1 (inl (ground arith))
    back (inr (inl h)) = e.1 (inl (ground arith))
    back (inr (inr h)) = e.1 (inr h)

pub Uses-add :
    (c : Call) (p : Policy) (is_resource : Bool) (r end : Rights) (used : List Policy)
    → Uses c (with_policy c p is_resource r) end used
    → Uses c r end (p ∷ used)
unfolding with_policy
Uses-add c p is_resource r end used u = record {
  ncl = iff_add _ _ _ u.ncl;
  pcl = iff_add _ _ _ u.pcl;
  tcl = iff_add _ _ _ u.tcl;
  policy = (λ e. inr (cc), λ e. u.policy.1 (inl refl));
}

-- ===== src/Policy/Items.antt =====
-- The loop that the tests share.
use oscshell.Base.{
  Bool, true, List, [], ◌∷◌, Any, ◌≡◌, ◌↔◌, ◌⊎◌, inl, inr, refl, sym, ◌∙◌, arith, Bool-cases,
}
use oscshell.Policy.{deny_loop, check_items}

module _ {ℓ} {A : Type ℓ} (passes : A → Bool) (P : A → Type 0)
    (passes_iff : (i : A) → (passes i ≡ true) ↔ P i) where
  deny_loop→Any : (is : List A) → deny_loop passes is ≡ 0 → Any P is
  unfolding deny_loop
  deny_loop→Any [] h = omega arith
  deny_loop→Any (i ∷ is) h = elim (Bool-cases (passes i)) [
    | inl e ↦ inl ((passes_iff i).0 e)
    | inr e ↦ inr (deny_loop→Any is (rw e at h))
  ]

  Any→deny_loop : (is : List A) → Any P is → deny_loop passes is ≡ 0
  unfolding deny_loop
  Any→deny_loop [] h = absurd h
  Any→deny_loop (i ∷ is) (inl h) = rw ((passes_iff i).1 h)
  Any→deny_loop (i ∷ is) (inr h) = elim (Bool-cases (passes i)) [
    | inl e ↦ rw e
    | inr e ↦ rw e (Any→deny_loop is h)
  ]

  check_items-cons : (i : A) (is : List A) → check_items passes (i ∷ is) ≡ deny_loop passes (i ∷ is)
  unfolding check_items
  check_items-cons i is = ground arith

  -- A list of items allows exactly if it is empty or one of its items passes.
  pub check_items_iff : (is : List A) → (check_items passes is ≡ 0) ↔ ((is ≡ []) ⊎ Any P is)
  check_items_iff [] = (λ h. inl refl, λ h. unfold check_items in refl)
  check_items_iff (i ∷ is) =
      (λ h. inr (deny_loop→Any (i ∷ is) (sym (check_items-cons i is) ∙ h)), back)
    where
      back : ((i ∷ is) ≡ []) ⊎ Any P (i ∷ is) → check_items passes (i ∷ is) ≡ 0
      back (inl e) = cc
      back (inr a) = check_items-cons i is ∙ Any→deny_loop (i ∷ is) a

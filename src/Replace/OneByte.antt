-- ===== src/Replace/OneByte.antt =====
-- Replacing one byte: the loop over occurrences is a map over the bytes.
use oscshell.Base.{
  ℕ, zero, suc, ◌+◌, ◌-◌, ◌<◌, ◌≤◌, true, false, inl, inr, [], ◌∷◌, ◌++◌, none, some, ◌≡◌, ◌≢◌,
  refl, ap, ◌∙◌, sym, arith, length, Bool-cases, Option-cases, if◌then◌else◌, length-append,
  append_assoc, ◌==◌, flat_map, All-append,
}
use oscshell.Base.Text.{Bytes, Lacks, strstr, strstr_split}
use oscshell.Replace.{replace_loop, strings_replace, Buffer, strings_replace_free}
use oscshell.Replace.Size.{strings_replace_free_fits}

-- What stands for the byte `c` after `q` has been replaced by `dst`.
abbrev pub replaced : ℕ → Bytes → ℕ → Bytes
replaced q dst c = if q == c then dst else c ∷ []

module _ (q : ℕ) (dst : Bytes) where
  pub strstr_hit : (c : ℕ) (s : Bytes) → (q == c) ≡ true → strstr (c ∷ s) (q ∷ []) ≡ some (c ∷ s)
  unfolding strstr
  strstr_hit c s h = ground arith

  pub strstr_miss :
      (c : ℕ) (s : Bytes) → (q == c) ≡ false → strstr (c ∷ s) (q ∷ []) ≡ strstr s (q ∷ [])
  unfolding strstr
  strstr_miss c s h = ground arith

  replace_hit :
      (f c : ℕ) (s out : Bytes)
      → (q == c) ≡ true
      → replace_loop (suc f) (c ∷ s) out (q ∷ []) dst ≡ replace_loop f s (out ++ dst) (q ∷ []) dst
  unfolding replace_loop
  replace_hit f c s out h =
      let z : suc (length s) - suc (length s) ≡ 0 = omega arith in
      rw (strstr_hit c s h, replace_loop) (rw z)

  suffix_le : (s r : Bytes) → strstr s (q ∷ []) ≡ some r → length r ≤ length s
  suffix_le s r e =
      let (pre, post, u, v) = strstr_split s (q ∷ []) e in
      omega (arith, ap length u, length-append pre r)

  replace_miss :
      (f c : ℕ) (s out : Bytes)
      → (q == c) ≡ false
      → replace_loop (suc f) (c ∷ s) out (q ∷ []) dst
        ≡ replace_loop (suc f) s (out ++ c ∷ []) (q ∷ []) dst
  unfolding replace_loop
  replace_miss f c s out h = elim (Option-cases (strstr s (q ∷ []))) [
    | inl e ↦ rw (strstr_miss c s h, replace_loop) (rw (e, replace_loop) (rw append_assoc))
    | inr (r, e) ↦
        let k = length s - length r in
        let le = suffix_le s r e in
        let step : suc (length s) - length r ≡ suc k = omega arith in
        let next : suc k + 1 ≡ suc (k + 1) = omega arith in
        rw (strstr_miss c s h, replace_loop)
          (rw (e, replace_loop) (rw step (rw next (rw append_assoc))))
  ]

  replace_loop_bytes :
      (s : Bytes) (f : ℕ) (out : Bytes)
      → length s < f
      → replace_loop f s out (q ∷ []) dst ≡ some (out ++ flat_map (replaced q dst) s)
  unfolding replace_loop strstr
  replace_loop_bytes s zero out lt = absurd (omega arith)
  replace_loop_bytes [] (suc f) out lt = refl
  replace_loop_bytes (c ∷ s) (suc f) out lt = elim (Bool-cases (q == c)) [
    | inl e ↦
        replace_hit f c s out e
        ∙ replace_loop_bytes s f (out ++ dst) (omega arith)
        ∙ rw e (rw append_assoc)
    | inr e ↦
        replace_miss f c s out e
        ∙ replace_loop_bytes s (suc f) (out ++ c ∷ []) (omega arith)
        ∙ rw e (rw append_assoc)
  ]

  flat_map-miss : (s : Bytes) → strstr s (q ∷ []) ≡ none → flat_map (replaced q dst) s ≡ s
  flat_map-miss [] e = refl
  flat_map-miss (c ∷ s) e = elim (Bool-cases (q == c)) [
    | inl h ↦ absurd (ground (arith, strstr_hit c s h))
    | inr h ↦ rw h (ap (◌∷◌ c) (flat_map-miss s (sym (strstr_miss c s h) ∙ e)))
  ]

written_bytes :
    (s : Bytes) (q : ℕ) (new : Bytes) (b : Buffer)
    → strings_replace_free (suc (length s)) s (q ∷ []) new ≡ some b
    → b.written ≡ flat_map (replaced q new) s
unfolding strings_replace_free strings_replace
written_bytes s q new b e =
    ground (
      arith,
      e,
      replace_loop_bytes q new s (suc (length s)) [] (omega arith),
      flat_map-miss q new s,
    )

-- Replacing the byte `q` gives the text in which `dst` stands for each `q` and each other byte for
-- itself, in a buffer of exactly that size and one byte more.
pub strings_replace_free_byte :
    (s : Bytes) (q : ℕ) (new : Bytes)
    → (b : Buffer) × (strings_replace_free (suc (length s)) s (q ∷ []) new ≡ some b)
      × (b.written ≡ flat_map (replaced q new) s)
      × (b.size ≡ length b.written + 1)
strings_replace_free_byte s q new =
    let (b, e, fits) = strings_replace_free_fits s (q ∷ []) new (cc) in
    (b, e, written_bytes s q new b e, fits)

Lacks-replaced : (q c : ℕ) (dst : Bytes) → Lacks q dst → Lacks q (replaced q dst c)
Lacks-replaced q c dst h = elim (Bool-cases (q == c)) [
  | inl e ↦ rw e h
  | inr e ↦ rw e (λ (x : c ≡ q). absurd (ground arith), tt)
]

pub Lacks-flat_map : (q : ℕ) (dst s : Bytes) → Lacks q dst → Lacks q (flat_map (replaced q dst) s)
Lacks-flat_map q dst [] h = tt
Lacks-flat_map q dst (c ∷ s) h =
    All-append (λ c. c ≢ q) (replaced q dst c) _ (Lacks-replaced q c dst h)
      (Lacks-flat_map q dst s h)

-- ===== src/Replace/StrReplace.antt =====
-- `str_replace` of include/paraview/string.c, which puts a copy of `search` behind the source text
-- to end its loop.
use oscshell.Base.{
  ℕ, zero, suc, ◌+◌, ◌-◌, ◌<◌, true, false, inl, inr, [], ◌∷◌, ◌++◌, some, ◌≡◌, refl, ap, ◌∙◌, sym,
  arith, length, Bool-cases, Option-cases, if◌then◌else◌, append_assoc, append-nil, ◌==◌, flat_map,
}
use oscshell.Base.Text.{Bytes, Lacks, strstr, contains, strstr-append}
use oscshell.Replace.{str_loop, str_replace}
use oscshell.Replace.Rounds.{Cut, Cut-strstr, str_loop_round}
use oscshell.Replace.OneByte.{replaced, strstr_hit, strstr_miss}

-- How often the byte `q` stands in the text.
abbrev pub count : ℕ → Bytes → ℕ
count q [] = 0
count q (c ∷ s) = (if q == c then 1 else 0) + count q s

module _ (q : ℕ) (dst : Bytes) where
  end_round :
      (f : ℕ) (out : Bytes) (n : ℕ)
      → str_loop (suc f) (q ∷ []) dst (q ∷ []) out n ≡ some (out, n + 1)
  unfolding str_loop strstr
  end_round f out n = ground (arith, append-nil out)

  str_hit :
      (f c : ℕ) (s out : Bytes) (n : ℕ)
      → (q == c) ≡ true
      → str_loop (suc f) (q ∷ []) dst (c ∷ (s ++ q ∷ [])) out n
        ≡ str_loop f (q ∷ []) dst (s ++ q ∷ []) (out ++ dst) (n + 1)
  unfolding str_loop
  str_hit f c s out n h =
      let t = s ++ q ∷ [] in
      let z : suc (length t) - suc (length t) ≡ 0 = omega arith in
      rw (strstr_hit q dst c t h, str_loop) (rw z (rw (strstr-append s (q ∷ []) [])))

  str_miss :
      (f c : ℕ) (s out : Bytes) (n : ℕ)
      → (q == c) ≡ false
      → str_loop (suc f) (q ∷ []) dst (c ∷ (s ++ q ∷ [])) out n
        ≡ str_loop (suc f) (q ∷ []) dst (s ++ q ∷ []) (out ++ c ∷ []) n
  str_miss f c s out n h =
      let t = s ++ q ∷ [] in
      elim (Option-cases (strstr t (q ∷ []))) [
        | inl e ↦ absurd (ground (arith, e, strstr-append s (q ∷ []) []))
        | inr (r, e) ↦
            let k = Cut-strstr t (q ∷ []) e in
            let k' : Cut (c ∷ t) (q ∷ []) r = record {
              before = c ∷ k.before;
              after = k.after;
              whole = ap (◌∷◌ c) k.whole;
              point = k.point;
            } in
            let e' = strstr_miss q dst c t h ∙ e in
            str_loop_round (q ∷ []) (c ∷ t) r k' e' f dst out n
            ∙ (simp append_assoc)
            ∙ sym (str_loop_round (q ∷ []) t r k e f dst (out ++ c ∷ []) n)
      ]

  str_loop_bytes :
      (s : Bytes) (f : ℕ) (out : Bytes) (n : ℕ)
      → length s < f
      → str_loop f (q ∷ []) dst (s ++ q ∷ []) out n
        ≡ some (out ++ flat_map (replaced q dst) s, n + count q s + 1)
  str_loop_bytes s zero out n lt = absurd (omega arith)
  str_loop_bytes [] (suc f) out n lt = end_round f out n ∙ ground (arith, append-nil out)
  str_loop_bytes (c ∷ s) (suc f) out n lt = elim (Bool-cases (q == c)) [
    | inl e ↦
        str_hit f c s out n e
        ∙ str_loop_bytes s f (out ++ dst) (n + 1) (omega arith)
        ∙ rw e (ground (arith, append_assoc out dst (flat_map (replaced q dst) s)))
    | inr e ↦
        str_miss f c s out n e
        ∙ str_loop_bytes s (suc f) (out ++ c ∷ []) n (omega arith)
        ∙ rw e (ground (arith, append_assoc out (c ∷ []) (flat_map (replaced q dst) s)))
  ]

-- For a search text of one byte, `str_replace` writes the text in which `replace` stands for each
-- such byte, as `strings_replace_free` does. The number that it returns is one more than the number
-- of bytes replaced.
pub str_replace_byte :
    (q : ℕ) (replace s : Bytes)
    → str_replace (suc (length s)) (q ∷ []) replace s
      ≡ some (flat_map (replaced q replace) s, count q s + 1)
unfolding str_replace
str_replace_byte q replace s =
    str_loop_bytes q replace s (suc (length s)) [] 0 (omega arith) ∙ ground arith

strstr_double :
    (q : ℕ) (s post : Bytes)
    → Lacks q s
    → strstr (s ++ q ∷ q ∷ post) (q ∷ q ∷ []) ≡ some (q ∷ q ∷ post)
unfolding strstr
strstr_double q [] post h = ground arith
strstr_double q (c ∷ s) post h = ground (arith, strstr_double q s post h.1)

strstr_short : (q : ℕ) → contains (q ∷ []) (q ∷ q ∷ []) ≡ false
unfolding strstr
strstr_short q = ground arith

-- For a search text of two equal bytes, a source text that ends in one of them, and has no other,
-- loses its last byte: the copy of `search` behind the text makes an occurrence that the text does
-- not have.
pub str_replace_loses :
    (rounds q : ℕ) (replace s : Bytes)
    → Lacks q s
    → str_replace (suc rounds) (q ∷ q ∷ []) replace (s ++ q ∷ []) ≡ some (s, 1)
unfolding str_replace
str_replace_loses rounds q replace s h =
    let find = q ∷ q ∷ [] in
    let t = (s ++ q ∷ []) ++ find in
    let regroup : t ≡ s ++ (find ++ q ∷ []) = append_assoc s (q ∷ []) find in
    let e : strstr t find ≡ some (find ++ q ∷ []) =
      ap (λ (x : Bytes). strstr x find) regroup ∙ strstr_double q s (q ∷ []) h in
    let c : Cut t find (find ++ q ∷ []) = record {
      before = s;
      after = q ∷ [];
      whole = regroup;
      point = refl;
    } in
    str_loop_round find t (find ++ q ∷ []) c e rounds replace [] 0 ∙ rw (strstr_short q)

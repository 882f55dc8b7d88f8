-- ===== src/Replace/Size.antt =====
-- The loops of `strings_replace_free` end, and fill its buffer exactly.
use oscshell.Base.{
  ℕ, zero, suc, ◌+◌, ◌-◌, ◌*◌, ◌<◌, inl, inr, [], ◌∷◌, ◌++◌, none, some, ◌≡◌, ◌≢◌, refl, ap, arith,
  length, Bool-cases, Option-cases, length-append,
}
use oscshell.Base.Text.{Bytes, strstr, contains}
use oscshell.Replace.{
  count_loop, find_strings_count, replace_loop, strings_replace, Buffer, strings_replace_free,
}
use oscshell.Replace.Rounds.{Cut, Cut-strstr, count_loop_round, replace_loop_round}

-- What the two loops do with the unread text `s`, for `k` occurrences.
record Run (f : ℕ) (s find dst out : Bytes) (n : ℕ) : Type 0 where
  k : ℕ
  written : Bytes
  counted : count_loop f s find n ≡ some (n + k)
  replaced : replace_loop f s out find dst ≡ some written
  sized : length written + k * length find ≡ length out + length s + k * length dst

Cut-shorter : {s find r : Bytes} → find ≢ [] → (c : Cut s find r) → length c.after < length s
Cut-shorter {find = []} h c = absurd (h refl)
Cut-shorter {find = x ∷ find} h c = omega (
  arith,
  ap length c.whole,
  length-append c.before (x ∷ find ++ c.after),
  length-append find c.after,
)

module _ (find dst : Bytes) (h : find ≢ []) where
  Run-round :
      (f : ℕ) (s r out : Bytes) (n : ℕ) (c : Cut s find r)
      → strstr s find ≡ some r
      → Run f c.after find dst (out ++ (c.before ++ dst)) (n + 1)
      → Run (suc f) s find dst out n
  Run-round f s r out n c e t = record {
    k = t.k + 1;
    written = t.written;
    counted = rw (count_loop_round find s r c e f n, t.counted) (ap some (omega arith));
    replaced = rw (replace_loop_round find s r c e f out dst, t.replaced) refl;
    sized = omega (
      arith,
      t.sized,
      ap length c.whole,
      length-append c.before (find ++ c.after),
      length-append find c.after,
      length-append out (c.before ++ dst),
      length-append c.before dst,
    );
  }

  Run-total : (f : ℕ) (s out : Bytes) (n : ℕ) → length s < f → Run f s find dst out n
  unfolding count_loop replace_loop
  Run-total zero s out n lt = absurd (omega arith)
  Run-total (suc f) s out n lt = elim (Option-cases (strstr s find)) [
    | inl e ↦ record {
      k = 0;
      written = out ++ s;
      counted = rw (e, count_loop) (ap some (omega arith));
      replaced = rw (e, replace_loop);
      sized = omega (arith, length-append out s);
    }
    | inr (r, e) ↦
        let c = Cut-strstr s find e in
        let lt' = Cut-shorter h c in
        Run-round f s r out n c e
          (Run-total f c.after (out ++ (c.before ++ dst)) (n + 1) (omega arith))
  ]

-- For a text to replace that is not empty, `strlen + 1` rounds are enough, and the buffer that
-- `strings_replace_free` allocates holds exactly what is written and the final 0.
pub strings_replace_free_fits :
    (s need_replace new : Bytes)
    → need_replace ≢ []
    → (b : Buffer) × (strings_replace_free (suc (length s)) s need_replace new ≡ some b)
      × (b.size ≡ length b.written + 1)
unfolding strings_replace_free find_strings_count strings_replace
strings_replace_free_fits s need_replace new h =
    let t = Run-total need_replace new h (suc (length s)) s [] 0 (omega arith) in
    elim (Bool-cases (contains s need_replace)) [
      | inl e ↦ (
        record {
          size = length s + (0 + t.k) * length new - (0 + t.k) * length need_replace + 1;
          written = t.written;
        },
        rw (e, t.counted, t.replaced) refl,
        omega (arith, t.sized),
      )
      | inr e ↦ (record { size = length s + 1; written = s }, rw e refl, refl)
    ]

strstr-nil : (s : Bytes) → strstr s [] ≡ some s
unfolding strstr
strstr-nil [] = refl
strstr-nil (c ∷ s) = refl

count_loop-nil : (f : ℕ) (s : Bytes) (n : ℕ) → count_loop f s [] n ≡ none
unfolding count_loop
count_loop-nil zero s n = refl
count_loop-nil (suc f) s n = rw (strstr-nil s, count_loop) (count_loop-nil f s (n + 1))

replace_loop-nil : (f : ℕ) (s out dst : Bytes) → replace_loop f s out [] dst ≡ none
unfolding replace_loop
replace_loop-nil zero s out dst = refl
replace_loop-nil (suc f) s out dst = rw (strstr-nil s, replace_loop) (replace_loop-nil f _ _ dst)

-- With an empty text to search for, no number of rounds is enough: the loops of
-- `find_strings_count` and `strings_replace` never end.
pub find_strings_count-nil :
    (rounds : ℕ) (s dst : Bytes)
    → (find_strings_count rounds s [] ≡ none) × (strings_replace rounds s [] dst ≡ none)
unfolding find_strings_count strings_replace
find_strings_count-nil rounds s dst = (count_loop-nil rounds s 0, replace_loop-nil rounds s [] dst)

-- ===== src/Replace/Rounds.antt =====
-- One round of each loop, at an occurrence that `strstr` finds.
use oscshell.Base.{
  if◌then◌else◌, ℕ, suc, ◌+◌, ◌-◌, ◌++◌, some, ◌≡◌, ap, ◌∙◌, arith, length, take, drop, drop-add,
  length-append, take-length-append, drop-length-append,
}
use oscshell.Base.Text.{Bytes, strstr, contains, strstr_split}
use oscshell.Replace.{count_loop, replace_loop, str_loop}

-- The text is cut in three at the first occurrence of `find`.
pub record Cut (s find r : Bytes) : Type 0 where
  pub before : Bytes
  pub after : Bytes
  pub whole : s ≡ before ++ (find ++ after)
  pub point : r ≡ find ++ after

pub Cut-strstr : (s find : Bytes) {r : Bytes} → strstr s find ≡ some r → Cut s find r
Cut-strstr s find h =
    let (pre, post, u, v) = strstr_split s find h in
    record { before = pre; after = post; whole = u ∙ ap (◌++◌ pre) v; point = v }

pub drop_two : (pre p post : Bytes) → drop (length pre + length p) (pre ++ (p ++ post)) ≡ post
drop_two pre p post =
    drop-add (length pre) (length p) _
    ∙ ap (drop (length p)) (drop-length-append pre (p ++ post))
    ∙ drop-length-append p post

module _ (find : Bytes) (s r : Bytes) (c : Cut s find r) (e : strstr s find ≡ some r) where
  pub count_loop_round :
      (rounds n : ℕ) → count_loop (suc rounds) s find n ≡ count_loop rounds c.after find (n + 1)
  unfolding count_loop
  count_loop_round rounds n = rw (e, count_loop) (rw c.point (rw drop-length-append))

  lens_eq : length s - length r ≡ length c.before
  lens_eq =
      omega (arith, ap length c.whole, ap length c.point, length-append c.before (find ++ c.after))

  pub take_lens : take (length s - length r) s ≡ c.before
  take_lens = rw (lens_eq, c.whole) (take-length-append c.before (find ++ c.after))

  pub drop_lens : drop (length s - length r + length find) s ≡ c.after
  drop_lens = rw (lens_eq, c.whole) (drop_two c.before find c.after)

  pub replace_loop_round :
      (rounds : ℕ) (out dst : Bytes)
      → replace_loop (suc rounds) s out find dst
        ≡ replace_loop rounds c.after (out ++ (c.before ++ dst)) find dst
  unfolding replace_loop
  replace_loop_round rounds out dst = rw (e, replace_loop) (rw (take_lens, drop_lens))

  pub str_loop_round :
      (rounds : ℕ) (replace result : Bytes) (n : ℕ)
      → str_loop (suc rounds) find replace s result n ≡ (
          if contains c.after find
          then str_loop rounds find replace c.after (result ++ (c.before ++ replace)) (n + 1)
          else some (result ++ c.before, n + 1))
  unfolding str_loop
  str_loop_round rounds replace result n =
      rw (e, str_loop) (rw take_lens (rw (← lens_eq) (rw drop_lens)))

-- ===== src/Replace.antt =====
-- Substring replacement: DBRecord/dbrecord.c (`find_strings_count`, `strings_replace`,
-- `strings_replace_free`) and include/paraview/string.c (`str_replace`).
-- Each `while` takes a number of rounds; `none` means that the rounds ran out.
pub mod Rounds
pub mod Size
pub mod OneByte
pub mod StrReplace
mod Tests
use oscshell.Base.{
  ℕ, zero, suc, ◌+◌, ◌-◌, ◌*◌, [], ◌++◌, Option, none, some, if◌then◌else◌, ◌>>=◌, length, take,
  drop,
}
use oscshell.Base.Text.{Bytes, strstr, contains}

-- One round for each occurrence; `p_head` is the unread text.
pub count_loop : ℕ → Bytes → Bytes → ℕ → Option ℕ
count_loop zero p_head find n_counts = none
count_loop (suc rounds) p_head find n_counts = elim (strstr p_head find) [
  | none ↦ some n_counts
  | some p_point ↦ count_loop rounds (drop (length find) p_point) find (n_counts + 1)
]

pub find_strings_count : ℕ → Bytes → Bytes → Option ℕ
unfolding count_loop
find_strings_count rounds strings find = count_loop rounds strings find 0

-- `output` is what has been written so far.
pub replace_loop : ℕ → Bytes → Bytes → Bytes → Bytes → Option Bytes
replace_loop zero input_head output src dst = none
replace_loop (suc rounds) input_head output src dst = elim (strstr input_head src) [
  | none ↦ some (output ++ input_head)
  | some point ↦
      let lens = length input_head - length point in
      replace_loop rounds (drop (lens + length src) input_head)
        (output ++ (take lens input_head ++ dst)) src dst
]

-- All that is written to the buffer.
pub strings_replace : ℕ → Bytes → Bytes → Bytes → Option Bytes
unfolding replace_loop
strings_replace rounds input src dst = replace_loop rounds input [] src dst

-- The result of `malloc`, and what was written into it in front of the final 0.
pub record Buffer : Type 0 where
  pub size : ℕ
  pub written : Bytes

-- `strings_len + counts * len + 1` with the signed `len` multiplied out.
pub strings_replace_free : ℕ → Bytes → Bytes → Bytes → Option Buffer
strings_replace_free rounds strings need_replace new =
    if contains strings need_replace
    then (do
      counts ← find_strings_count rounds strings need_replace
      written ← strings_replace rounds strings need_replace new
      some (record {
        size = length strings + counts * length new - counts * length need_replace + 1;
        written = written;
      }))
    else some (record { size = length strings + 1; written = strings })

-- `srcStr` ends in a copy of `search`; the loop stops when no further occurrence follows.
pub str_loop : ℕ → Bytes → Bytes → Bytes → Bytes → ℕ → Option (Bytes × ℕ)
str_loop zero search replace src result search_num = none
str_loop (suc rounds) search replace src result search_num = elim (strstr src search) [
  | none ↦ some (result, search_num)
  | some sep ↦
      let old_sub = take (length src - length sep) src in
      let rest = drop (length old_sub + length search) src in
      let more =
        str_loop rounds search replace rest (result ++ (old_sub ++ replace)) (search_num + 1) in
      if contains rest search then more else some (result ++ old_sub, search_num + 1)
]

-- The text left in `pResult` and the number returned.
pub str_replace : ℕ → Bytes → Bytes → Bytes → Option (Bytes × ℕ)
unfolding str_loop
str_replace rounds search replace src = str_loop rounds search replace (src ++ search) [] 0

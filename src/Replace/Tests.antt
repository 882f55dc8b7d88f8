-- ===== src/Replace/Tests.antt =====
-- Runs of the replacement functions, and the theorems at concrete texts.
use oscshell.Base.{suc, ◌+◌, [], ◌∷◌, ◌++◌, some, ◌≡◌, refl, length, flat_map, arith}
use oscshell.Base.Text.{Bytes, codes, strstr}
use oscshell.Replace.{
  count_loop, find_strings_count, replace_loop, strings_replace, Buffer, strings_replace_free,
  str_loop, str_replace,
}
use oscshell.Replace.OneByte.{replaced, strings_replace_free_byte}
use oscshell.Replace.Size.{strings_replace_free_fits}
use oscshell.Replace.StrReplace.{str_replace_loses}

abbrev quoted : Bytes
quoted = codes "a 'b' c"

counts : find_strings_count 5 (codes "aXbaXaX") (codes "aX") ≡ some 3
unfolding find_strings_count count_loop strstr
counts = refl

shrinks :
    strings_replace_free 9 (codes "aXbaXaX") (codes "aX") (codes "y")
    ≡ some (record { size = 5; written = codes "ybyy" })
unfolding strings_replace_free find_strings_count count_loop strings_replace replace_loop strstr
shrinks = refl

replaces : str_replace 9 (codes "ab") (codes "-") (codes "xabyab") ≡ some (codes "x-y-", 3)
unfolding str_replace str_loop strstr
replaces = refl

strings_replace_free_fits_example :
    (b : Buffer) × (strings_replace_free (suc (length quoted)) quoted (codes "'b") (codes "long")
      ≡ some b)
    × (b.size ≡ length b.written + 1)
strings_replace_free_fits_example =
    strings_replace_free_fits quoted (codes "'b") (codes "long") (cc)

strings_replace_free_byte_example :
    (b : Buffer) × (strings_replace_free (suc (length quoted)) quoted (b'\'' ∷ []) (codes "\"")
      ≡ some b)
    × (b.written ≡ flat_map (replaced b'\'' (codes "\"")) quoted)
    × (b.size ≡ length b.written + 1)
strings_replace_free_byte_example = strings_replace_free_byte quoted b'\'' (codes "\"")

str_replace_loses_example :
    str_replace (suc 3) (b'\'' ∷ b'\'' ∷ []) (codes "-") (codes "it" ++ b'\'' ∷ [])
    ≡ some (codes "it", 1)
str_replace_loses_example = str_replace_loses 3 b'\'' (codes "-") (codes "it") (omega arith)

-- ===== src/Base/Text.antt =====
-- C strings and the functions of <string.h> that the program calls. A string is the list of its
-- bytes, with no terminator; a pointer into a string is the suffix that it points at, so that the
-- difference of two pointers is the difference of two lengths.
use Prim.Native.Char.{code}
use Prim.Native.String.{String}
use Prim.Native.Nat.{ℕ, ◌-◌, ◌<◌}
use mathlib.Core.Path.{◌≡◌, refl, ap, ◌∙◌}
use mathlib.Core.Logic.{◌≢◌, ◌↔◌, inl, inr}
use mathlib.Core.Bool.{Bool, true, false, ◌&&◌, ◌||◌}
use mathlib.Core.Option.{Option, none, some}
use mathlib.Core.List.{List, [], ◌∷◌, ◌++◌, map}
use native.Mathlib.Omega.{arith}
use oscshell.Base.Lists.{All, length}
use oscshell.Base.Tests.{ltb, leb, ◌==◌, if◌then◌else◌, is_some, Bool-cases, Option-cases, lt→ltb}

abbrev pub Bytes : Type 0
Bytes = List ℕ

-- No byte of the text is `q`.
abbrev pub Lacks : ℕ → Bytes → Type 0
Lacks q = All (λ c. c ≢ q)

-- The bytes of a literal, which is ASCII.
abbrev pub codes : String → Bytes
codes String.[] = []
codes (String.◌∷◌ c s) = code c ∷ codes s

-- memcmp (s, p, strlen (p)) == 0
abbrev pub starts_with : Bytes → Bytes → Bool
starts_with [] s = true
starts_with (c ∷ p) [] = false
starts_with (c ∷ p) (d ∷ s) = c == d && starts_with p s

-- strstr: the suffix at the first occurrence.
unfoldable pub strstr : Bytes → Bytes → Option Bytes
strstr [] p = if starts_with p [] then some [] else none
strstr (c ∷ s) p = if starts_with p (c ∷ s) then some (c ∷ s) else strstr s p

-- strstr (s, p) != NULL
abbrev pub contains : Bytes → Bytes → Bool
contains s p = is_some (strstr s p)

-- strcmp (a, b) == 0
abbrev pub str_eq : Bytes → Bytes → Bool
str_eq [] [] = true
str_eq (a ∷ s) (b ∷ t) = a == b && str_eq s t
str_eq _ _ = false

-- strcmp (a, b) <= 0
abbrev pub str_le : Bytes → Bytes → Bool
str_le [] t = true
str_le (a ∷ s) [] = false
str_le (a ∷ s) (b ∷ t) = ltb a b || (a == b && str_le s t)

-- strcpy into an array of `size` bytes; `none` is a write past its end.
abbrev pub strcpy : ℕ → Bytes → Option Bytes
strcpy size s = if ltb (length s) size then some s else none

-- The text in front of the first 0.
unfoldable pub c_string : Bytes → Bytes
c_string [] = []
c_string (c ∷ s) = if c == 0 then [] else c ∷ c_string s

unfoldable pub tokens_behind : ℕ → Bytes → Bytes → List Bytes
tokens_behind sep [] [] = []
tokens_behind sep (d ∷ cur) [] = (d ∷ cur) ∷ []
tokens_behind sep cur (c ∷ s) = elim (c == sep) [
  | true ↦ elim cur [ [] ↦ tokens_behind sep [] s | d ∷ r ↦ (d ∷ r) ∷ tokens_behind sep [] s ]
  | false ↦ tokens_behind sep (cur ++ c ∷ []) s
]

-- What `strtok` returns, call after call, for one separator: the longest runs without it.
unfoldable pub tokens : ℕ → Bytes → List Bytes
unfolding tokens_behind
tokens sep s = tokens_behind sep [] s

-- `strupr` of DBRecord, in the C locale.
unfoldable pub to_upper : ℕ → ℕ
to_upper c = if leb b'a' c && leb c b'z' then c - 32 else c

unfoldable pub strupr : Bytes → Bytes
unfolding to_upper
strupr s = map to_upper s

-- The text `p` stands in `s`.
abbrev pub Occurs : Bytes → Bytes → Type 0
Occurs p s = (pre : Bytes) × (post : Bytes) × (s ≡ pre ++ (p ++ post))

pub starts_with_sound : (p s : Bytes) → starts_with p s ≡ true → (post : Bytes) × (s ≡ p ++ post)
starts_with_sound [] s h = (s, refl)
starts_with_sound (c ∷ p) [] h = cc
starts_with_sound (c ∷ p) (d ∷ s) h =
    let (post, e) = starts_with_sound p s (ground arith) in (post, ground arith)

pub starts_with-append : (p s : Bytes) → starts_with p (p ++ s) ≡ true
starts_with-append [] s = refl
starts_with-append (c ∷ p) s = ground (arith, starts_with-append p s)

-- What `strstr` finds is a suffix that begins with the text sought.
pub strstr_split :
    (s p : Bytes) {r : Bytes}
    → strstr s p ≡ some r
    → (pre : Bytes) × (post : Bytes) × (s ≡ pre ++ r) × (r ≡ p ++ post)
unfolding strstr
strstr_split [] p {r} h = elim (Bool-cases (starts_with p [])) [
  | inl e ↦ let (post, q) = starts_with_sound p [] e in ([], post, ground arith, ground arith)
  | inr e ↦ absurd (ground arith)
]
strstr_split (c ∷ s) p {r} h = elim (Bool-cases (starts_with p (c ∷ s))) [
  | inl e ↦ let (post, q) = starts_with_sound p (c ∷ s) e in ([], post, ground arith, ground arith)
  | inr e ↦ let (pre, post, u, v) = strstr_split s p (rw e at h) in (c ∷ pre, post, ap (◌∷◌ c) u, v)
]

pub strstr-append : (pre p post : Bytes) → contains (pre ++ (p ++ post)) p ≡ true
unfolding strstr
strstr-append [] [] [] = refl
strstr-append [] [] (c ∷ post) = refl
strstr-append [] (c ∷ p) post = ground (arith, starts_with-append p post)
strstr-append (c ∷ pre) p post = elim (Bool-cases (starts_with p (c ∷ (pre ++ (p ++ post))))) [
  | inl e ↦ rw e
  | inr e ↦ rw e (strstr-append pre p post)
]

pub contains_iff :
    (s p : Bytes)
    → (contains s p ≡ true) ↔ ((pre : Bytes) × (post : Bytes) × (s ≡ pre ++ (p ++ post)))
contains_iff s p = (there, back)
  where
    there : contains s p ≡ true → Occurs p s
    there h = elim (Option-cases (strstr s p)) [
      | inl e ↦ absurd (ground arith)
      | inr (r, e) ↦ let (pre, post, u, v) = strstr_split s p e in (pre, post, u ∙ ap (◌++◌ pre) v)
    ]

    back : Occurs p s → contains s p ≡ true
    back (pre, post, e) = rw e (strstr-append pre p post)

pub str_eq_iff : (s t : Bytes) → (str_eq s t ≡ true) ↔ (s ≡ t)
str_eq_iff [] [] = ground arith
str_eq_iff [] (b ∷ t) = ground arith
str_eq_iff (a ∷ s) [] = ground arith
str_eq_iff (a ∷ s) (b ∷ t) = ground (arith, str_eq_iff s t)

pub strcpy_fits : (size : ℕ) (s : Bytes) → length s < size → strcpy size s ≡ some s
strcpy_fits size s h = rw (lt→ltb (length s) size h)

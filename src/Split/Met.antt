-- ===== src/Split/Met.antt =====
-- The flag of `strsplit` that says whether a separator was met.
use oscshell.Base.{
  ℕ, zero, suc, true, false, List, [], ◌∷◌, ◌++◌, some, none, ltb, length, ◌≡◌, ◌≢◌, ◌↔◌, ◌⊎◌,
  Option, refl, sym, ap, arith, inl, inr, Any, Bool-cases, Option-cases,
}
use oscshell.Base.Int.{ℤ}
use oscshell.Base.Text.{Bytes, strstr, contains}
use oscshell.Split.{
  Front, SplitResult, pieces, update_front, scan_separators, next_separator, round_pieces,
  split_loop, strsplit, has_empty,
}

-- One of the separators occurs in the text.
abbrev pub Meets : Bytes → List Bytes → Type 0
Meets look seps = Any (λ (sep : Bytes). contains look sep ≡ true) seps

found-update_front : (f : Front) (r sep : Bytes) → (update_front f r sep).found ≡ true
unfolding update_front
found-update_front f r sep = elim (Bool-cases (ltb (length f.start) (length r))) [
  | inl e ↦ rw e refl
  | inr e ↦ rw e refl
]

found-kept :
    (look : Bytes) (seps : List Bytes) (f : Front)
    → f.found ≡ true
    → (scan_separators look seps f).found ≡ true
unfolding scan_separators
found-kept look [] f h = h
found-kept look (sep ∷ seps) f h = elim (Option-cases (strstr look sep)) [
  | inl e ↦ rw (e, scan_separators) (found-kept look seps f h)
  | inr (r, e) ↦
      rw (e, scan_separators)
        (found-kept look seps (update_front f r sep) (found-update_front f r sep))
]

found-Meets :
    (look : Bytes) (seps : List Bytes) (f : Front)
    → Meets look seps
    → (scan_separators look seps f).found ≡ true
unfolding scan_separators
found-Meets look [] f h = absurd h
found-Meets look (sep ∷ seps) f h = elim (Option-cases (strstr look sep)) [
  | inr (r, e) ↦
      rw (e, scan_separators)
        (found-kept look seps (update_front f r sep) (found-update_front f r sep))
  | inl e ↦ rw (e, scan_separators) (found-Meets look seps f (behind e h))
]
  where
    behind : strstr look sep ≡ none → (contains look sep ≡ true) ⊎ Meets look seps → Meets look seps
    behind e (inl h) = let no : false ≡ true = rw e at h in cc
    behind e (inr h) = h

scan_separators-none :
    (look : Bytes) (seps : List Bytes) (f : Front)
    → ¬ Meets look seps
    → scan_separators look seps f ≡ f
unfolding scan_separators
scan_separators-none look [] f h = refl
scan_separators-none look (sep ∷ seps) f h = elim (Option-cases (strstr look sep)) [
  | inl e ↦ rw (e, scan_separators) (scan_separators-none look seps f (λ m. h (inr m)))
  | inr (r, e) ↦ absurd (h (inl (rw e refl)))
]

abbrev flag_of : Option SplitResult → ℕ
flag_of (some (pieces rtn result)) = rtn
flag_of _ = 0

-- A flag that is set stays so.
flag-split_loop :
    (rounds : ℕ) (look : Bytes) (seps : List Bytes) (compress keep : ℤ) (before : List Bytes)
    (rtn : ℕ) (result : List Bytes)
    → split_loop rounds look seps compress keep before true ≡ some (pieces rtn result)
    → rtn ≡ 1
unfolding split_loop
flag-split_loop zero look seps compress keep before rtn result h = cc
flag-split_loop (suc rounds) [] seps compress keep before rtn result h = cc
flag-split_loop (suc rounds) (c ∷ s) seps compress keep before rtn result h =
    let f = next_separator (c ∷ s) seps in
    flag-split_loop rounds f.stop seps compress keep
      (before ++ round_pieces compress keep (c ∷ s) f) rtn result h

flag-Meets :
    (rounds c : ℕ) (s : Bytes) (seps : List Bytes) (compress keep : ℤ) (rtn : ℕ)
    (result : List Bytes)
    → Meets (c ∷ s) seps
    → split_loop (suc rounds) (c ∷ s) seps compress keep [] false ≡ some (pieces rtn result)
    → rtn ≡ 1
unfolding split_loop next_separator
flag-Meets rounds c s seps compress keep rtn result m h =
    let f = next_separator (c ∷ s) seps in
    flag-split_loop rounds f.stop seps compress keep (round_pieces compress keep (c ∷ s) f) rtn
      result (rw (found-Meets (c ∷ s) seps _ m) at h)

abbrev no_front : Front
no_front = record { start = []; stop = []; found = false }

-- The rounds behind the first.
abbrev after_front : ℕ → Bytes → List Bytes → ℤ → ℤ → Front → Option SplitResult
after_front rounds look seps compress keep f =
    split_loop rounds f.stop seps compress keep (round_pieces compress keep look f) f.found

flag-none :
    (rounds c : ℕ) (s : Bytes) (seps : List Bytes) (compress keep : ℤ) (rtn : ℕ)
    (result : List Bytes)
    → ¬ Meets (c ∷ s) seps
    → split_loop (suc rounds) (c ∷ s) seps compress keep [] false ≡ some (pieces rtn result)
    → rtn ≡ 0
unfolding split_loop next_separator
flag-none zero c s seps compress keep rtn result m h =
    let no : none ≡ some (pieces rtn result) = h in cc
flag-none (suc rounds) c s seps compress keep rtn result m h =
    let same : next_separator (c ∷ s) seps ≡ no_front =
      scan_separators-none (c ∷ s) seps no_front m in
    let next : after_front (suc rounds) (c ∷ s) seps compress keep (next_separator (c ∷ s) seps)
        ≡ some (pieces rtn result) =
      h in
    sym (ap flag_of (rw same at next))

any_Meets : (look : Bytes) (seps : List Bytes) → Meets look seps ⊎ (¬ Meets look seps)
any_Meets look [] = inr (λ m. m)
any_Meets look (sep ∷ seps) = elim (Bool-cases (contains look sep)) [
  | inl e ↦ inl (inl e)
  | inr e ↦ elim (any_Meets look seps) [
    | inl m ↦ inl (inr m)
    | inr n ↦ inr (λ m. elim m [ inl h ↦ cc | inr h ↦ n h ])
  ]
]

-- `strsplit` returns 1 exactly if one of the separators occurs in the text.
pub strsplit-Meets :
    (s : Bytes) (seps : List Bytes) (rtn : ℕ) (result : List Bytes)
    → s ≢ []
    → seps ≢ []
    → has_empty seps ≡ false
    → strsplit s seps (ℤ.pos 1) (ℤ.pos 1) ≡ some (pieces rtn result)
    → (rtn ≡ 1) ↔ Meets s seps
unfolding strsplit
strsplit-Meets [] seps rtn result hs hp he h = absurd (hs refl)
strsplit-Meets (c ∷ s) [] rtn result hs hp he h = absurd (hp refl)
strsplit-Meets (c ∷ s) (p ∷ ps) rtn result hs hp he h =
    let runs : split_loop (suc (length (c ∷ s))) (c ∷ s) (p ∷ ps) (ℤ.pos 1) (ℤ.pos 1) [] false
        ≡ some (pieces rtn result) =
      rw he at h in
    (
      λ one. elim (any_Meets (c ∷ s) (p ∷ ps)) [
        | inl m ↦ m
        | inr n ↦
            let none_met =
              flag-none (length (c ∷ s)) c s (p ∷ ps) (ℤ.pos 1) (ℤ.pos 1) rtn result n runs in
            absurd (omega arith)
      ],
      λ m. flag-Meets (length (c ∷ s)) c s (p ∷ ps) (ℤ.pos 1) (ℤ.pos 1) rtn result m runs,
    )

-- ===== src/Oracle/Spoiled.antt =====
-- What `findSQL` does to a packet.
use oscshell.Base.{
  ℕ, zero, suc, ◌+◌, ◌≤◌, ◌<◌, ◌≢◌, [], ◌∷◌, ◌++◌, Option, none, some, take, drop, length,
  get_elem?, ltb, ◌==◌, ==_iff, Bool-cases, ◌⊎◌, inl, inr, ◌≡◌, refl, ap, ◌∙◌, arith,
}
use oscshell.Base.Int.{ℤ}
use oscshell.Base.Text.{Bytes, Lacks}
use oscshell.Oracle.Session.{find_loop, first_byte, overwrite, bytes_of, find_sql}

-- `packet` is `buf` with `%` at a place of the first `n` where `buf` has `c`; or no such place has.
abbrev pub IsSpoiled : ℕ → ℕ → Bytes → Bytes → Type 0
IsSpoiled n c buf packet =
    ((i : ℕ) × (i < n)
      × (get_elem? buf i ≡ some c)
      × (packet ≡ take i buf ++ (b'%' ∷ drop (suc i) buf)))
    ⊎ ((packet ≡ buf) × Lacks c (take n buf))

-- How the loop ends, for the bytes from `i` on: at a byte `first`, or with what it had before.
abbrev IsEnd : ℕ → ℕ → ℕ → Bytes → Option ℕ → Option ℕ → Type 0
IsEnd n first i buf isfind r =
    ((k : ℕ) × (r ≡ some (k + i)) × (k < n) × (get_elem? buf k ≡ some first))
    ⊎ ((r ≡ isfind) × Lacks first (take n buf))

-- A later end is an end, if the byte in front of it does not match, or was put down as found.
IsEnd-cons :
    (n first i c : ℕ) (s : Bytes) (isfind r : Option ℕ)
    → c ≢ first
    → IsEnd n first (suc i) s isfind r
    → IsEnd (suc n) first i (c ∷ s) isfind r
IsEnd-cons n first i c s isfind r ne (inl (k, e, h, g)) =
    inl (suc k, e ∙ ap some (omega arith), omega arith, g)
IsEnd-cons n first i c s isfind r ne (inr (e, l)) = inr (e, (ne, l))

IsEnd-hit :
    (n first i c : ℕ) (s : Bytes) (isfind r : Option ℕ)
    → c ≡ first
    → IsEnd n first (suc i) s (some i) r
    → IsEnd (suc n) first i (c ∷ s) isfind r
IsEnd-hit n first i c s isfind r same (inl (k, e, h, g)) =
    inl (suc k, e ∙ ap some (omega arith), omega arith, g)
IsEnd-hit n first i c s isfind r same (inr (e, l)) =
    inl (0, e ∙ ap some (omega arith), omega arith, ap some same)

find_loop-IsEnd :
    (n first i : ℕ) (buf : Bytes) (isfind : Option ℕ)
    → n ≤ length buf
    → (r : Option ℕ) × (find_loop n first i buf isfind ≡ some r) × IsEnd n first i buf isfind r
unfolding find_loop
find_loop-IsEnd zero first i buf isfind h = (isfind, refl, inr (refl, tt))
find_loop-IsEnd (suc n) first i [] isfind h = absurd (omega arith)
find_loop-IsEnd (suc n) first i (c ∷ s) isfind h = elim (Bool-cases (c == first)) [
  | inl e ↦ elim (Bool-cases (ltb 5 i)) [
    | inl late ↦ (
      some i,
      rw e (rw late refl),
      inl (0, ap some (omega arith), omega arith, ap some ((==_iff c first).0 e)),
    )
    | inr early ↦
        let (r, runs, end) = find_loop-IsEnd n first (suc i) s (some i) (omega arith) in
        (r, rw e (rw early runs), IsEnd-hit n first i c s isfind r ((==_iff c first).0 e) end)
  ]
  | inr e ↦
      let (r, runs, end) = find_loop-IsEnd n first (suc i) s isfind (omega arith) in
      (r, rw e runs, IsEnd-cons n first i c s isfind r (λ same. ground arith) end)
]

-- In a packet that has the bytes of the length given, `findSQL` overwrites one byte that is equal to
-- the first byte of the text, if there is one, and else leaves the packet as it is.
pub find_sql-IsSpoiled :
    (buf : Bytes) (len : ℤ) (sql : Bytes)
    → bytes_of len ≤ length buf
    → (packet : Bytes) × (place : Option ℕ) × (find_sql buf len sql ≡ some (packet, place))
      × IsSpoiled (bytes_of len) (first_byte sql) buf packet
unfolding find_sql overwrite
find_sql-IsSpoiled buf len sql h =
    let (r, runs, end) = find_loop-IsEnd (bytes_of len) (first_byte sql) 0 buf none h in
    let answer = λ (x : Option ℕ). some (overwrite buf x, x) in
    elim end [
      | inl (k, e, small, g) ↦ (
        overwrite buf (some k),
        some k,
        rw runs (ap answer (e ∙ ap some (same k))),
        inl (k, small, g, refl),
      )
      | inr (e, l) ↦ (buf, none, rw runs (ap answer e), inr (refl, l))
    ]
  where
    same : (k : ℕ) → k + 0 ≡ k
    same k = omega arith

-- ===== src/Oracle/Marked.antt =====
-- A statement in pieces whose first one has 64 bytes, so that it starts with 0xfe 0x40.
use oscshell.Base.{
  ℕ, zero, suc, ◌+◌, ◌-◌, ◌≤◌, ◌<◌, Bool, true, false, ◌≢◌, List, [], ◌∷◌, ◌++◌, some, All,
  All-append, drop, length, ltb, leb, ◌==◌, ◌≡◌, refl, sym, ap, ◌∙◌, arith, length-append,
  drop-exact, append_assoc,
}
use oscshell.Base.Text.{Bytes, Lacks}
use oscshell.Oracle.Places.{Client, first_place, find_fe40}
use oscshell.Oracle.Pieces.{pieces_sent}
use oscshell.Oracle.Query.{query_size, copied, marked_query, query_of}

-- The pieces, each behind its length.
abbrev pub with_lengths : List Bytes → Bytes
with_lengths [] = []
with_lengths (p ∷ ps) = length p ∷ (p ++ with_lengths ps)

pieces_sent-with_lengths : (ps : List Bytes) → pieces_sent ps ≡ with_lengths ps ++ 0 ∷ []
pieces_sent-with_lengths [] = refl
pieces_sent-with_lengths (p ∷ ps) =
    ap (λ (s : Bytes). length p ∷ (p ++ s)) (pieces_sent-with_lengths ps)
    ∙ ap (◌∷◌ (length p)) (sym (append_assoc p (with_lengths ps) (0 ∷ [])))

Lacks-with_lengths :
    (ps : List Bytes) → All (λ p. 0 < length p) ps → All (Lacks 0) ps → Lacks 0 (with_lengths ps)
Lacks-with_lengths [] h l = tt
Lacks-with_lengths (p ∷ ps) h l = (
  (λ e. omega (arith, e, h.0)),
  All-append (λ c. c ≢ 0) p (with_lengths ps) l.0 (Lacks-with_lengths ps h.1 l.1),
)

find_fe40-append :
    (pre s : Bytes) (n j : ℕ)
    → Lacks 0xfe pre
    → length pre < n
    → find_fe40 n j (pre ++ (0xfe ∷ 0x40 ∷ s)) ≡ some (j + length pre)
unfolding find_fe40
find_fe40-append pre s zero j l h = absurd (omega arith)
find_fe40-append [] s (suc n) j l h = ap some (omega arith)
find_fe40-append (c ∷ []) s (suc n) j l h =
    let e : (c == 0xfe) ≡ false = ground (arith, l.0) in
    rw e (find_fe40-append [] s n (suc j) l.1 (omega arith) ∙ ap some (omega arith))
find_fe40-append (c ∷ d ∷ pre) s (suc n) j l h =
    let e : (c == 0xfe) ≡ false = ground (arith, l.0) in
    rw e (find_fe40-append (d ∷ pre) s n (suc j) l.1 (omega arith) ∙ ap some (omega arith))

copied-append :
    (s rest : Bytes) (n : ℕ) → Lacks 0 s → length s < n → copied n (s ++ (0 ∷ rest)) ≡ some s
unfolding copied
copied-append s rest zero l h = absurd (omega arith)
copied-append [] rest (suc n) l h = refl
copied-append (c ∷ s) rest (suc n) l h =
    let e : (c == 0) ≡ false = ground (arith, l.0) in
    rw e (rw (copied-append s rest n l.1 (omega arith)) refl)

sent_text :
    (p : Bytes) (ps : List Bytes) (rest : Bytes)
    → length p ≡ 64
    → pieces_sent (p ∷ ps) ++ rest ≡ 0x40 ∷ ((p ++ with_lengths ps) ++ (0 ∷ rest))
sent_text p ps rest n =
    ap (λ (s : Bytes). (length p ∷ (p ++ s)) ++ rest) (pieces_sent-with_lengths ps)
    ∙ ap (λ (s : Bytes). length p ∷ (s ++ rest)) (sym (append_assoc p (with_lengths ps) (0 ∷ [])))
    ∙ ap (◌∷◌ (length p)) (append_assoc (p ++ with_lengths ps) (0 ∷ []) rest)
    ∙ ap (λ (k : ℕ). k ∷ ((p ++ with_lengths ps) ++ (0 ∷ rest))) n

length-sent :
    (p : Bytes) (ps : List Bytes)
    → length (pieces_sent (p ∷ ps)) ≡ 2 + length (p ++ with_lengths ps)
length-sent p ps = omega (
  arith,
  length-append p (pieces_sent ps),
  length-append p (with_lengths ps),
  ap length (pieces_sent-with_lengths ps),
  length-append (with_lengths ps) (0 ∷ []),
)

drop_mark : (pre s : Bytes) → drop (length pre + 2) (pre ++ (0xfe ∷ 0x40 ∷ s)) ≡ s
drop_mark pre s =
    ap (drop (length pre + 2)) (sym (append_assoc pre (0xfe ∷ 0x40 ∷ []) s))
    ∙ drop-exact (length pre + 2) (pre ++ 0xfe ∷ 0x40 ∷ []) s (length-append pre (0xfe ∷ 0x40 ∷ []))

-- When the string of a request starts with a piece of 64 bytes behind a byte or more, none of them
-- 0xfe, no piece is empty, their bytes are not 0, the length of the packet goes beyond them, and they
-- fit the array with their lengths, then the statement that is looked up in the packet has the length
-- bytes of all later pieces between the pieces, although they are no part of the string.
pub query_of-pieces_sent :
    (client : Client) (flag : Bool) (pre p : Bytes) (ps : List Bytes) (rest : Bytes)
    (query_len place : ℕ)
    → first_place client (pre ++ (0xfe ∷ (pieces_sent (p ∷ ps) ++ rest))) ≡ some place
    → 0 < length pre
    → Lacks 0xfe pre
    → length p ≡ 64
    → All (λ q. 0 < length q) ps
    → All (Lacks 0) (p ∷ ps)
    → length pre + length (pieces_sent (p ∷ ps)) < query_len
    → length (p ++ with_lengths ps) ≤ query_size
    → query_of client flag (pre ++ (0xfe ∷ (pieces_sent (p ∷ ps) ++ rest))) query_len
      ≡ some (record {
        query_str = p ++ with_lengths ps;
        query_str_len = length (p ++ with_lengths ps) - 1;
        place = place;
        oracle_flag = flag;
      })
unfolding query_of marked_query
query_of-pieces_sent client flag pre p ps rest query_len place at_place some_pre no_mark n h l len
      s =
    let text = p ++ with_lengths ps in
    let lacks : Lacks 0 text =
      All-append (λ c. c ≢ 0) p (with_lengths ps) l.0 (Lacks-with_lengths ps h l.1) in
    let buf = pre ++ (0xfe ∷ (pieces_sent (p ∷ ps) ++ rest)) in
    let split = sent_text p ps rest n in
    let same : buf ≡ pre ++ (0xfe ∷ 0x40 ∷ (text ++ (0 ∷ rest))) =
      ap (λ (x : Bytes). pre ++ (0xfe ∷ x)) split in
    let size = length-sent p ps in
    let mark : find_fe40 (query_len - 1) 0 buf ≡ some (length pre) =
      ap (find_fe40 (query_len - 1) 0) same
      ∙ find_fe40-append pre (text ++ (0 ∷ rest)) (query_len - 1) 0 no_mark (omega (arith, size))
      ∙ ap some (omega arith) in
    let read : copied (query_len - (length pre + 2)) (drop (length pre + 2) buf) ≡ some text =
      ap (λ (x : Bytes). copied (query_len - (length pre + 2)) (drop (length pre + 2) x)) same
      ∙ ap (copied (query_len - (length pre + 2))) (drop_mark pre (text ++ (0 ∷ rest)))
      ∙ copied-append text rest (query_len - (length pre + 2)) lacks (omega (arith, size)) in
    let some_mark : ltb 0 (length pre) ≡ true = ground arith in
    let fits : leb (length text) query_size ≡ true = ground arith in
    rw at_place (rw mark (rw some_mark (rw read (rw fits refl))))

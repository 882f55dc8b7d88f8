-- ===== src/Oracle/Filled.antt =====
-- How far a row of texts that does not fit is written behind `sql_reslut`.
use oscshell.Base.{
  ◌+◌, ◌-◌, ◌≤◌, ◌<◌, true, List, [], ◌∷◌, ◌++◌, none, some, All, take, drop, length, flatten, leb,
  Bool-cases, inl, inr, ◌≡◌, refl, sym, ap, ◌∙◌, arith, append_assoc, append-nil, length-append,
  take-append-drop,
}
use oscshell.Base.Text.{Bytes}
use oscshell.Oracle.Result.{
  reslut_size, appended, length-appended, printreslut_iff, printreslut-none,
}
use oscshell.Oracle.Cell.{print_all}
use oscshell.Oracle.DateText.{print_all-flatten}

-- The texts in front of one are printed; this one fills the array, so that the final 0 is the one byte
-- behind it.
pub record Overrun (row : Bytes) (ts : List Bytes) : Type 0 where
  pub before : List Bytes
  pub text : Bytes
  pub after : List Bytes
  pub splits : ts ≡ before ++ (text ∷ after)
  pub printed : print_all row before ≡ some (row ++ flatten before)
  pub prints : length text < reslut_size
  pub fills : length (appended (row ++ flatten before) text) ≡ reslut_size
  pub rest : Bytes
  pub cut : row ++ flatten ts ≡ appended (row ++ flatten before) text ++ rest
  pub fails : print_all row ts ≡ none

cut_text :
    (row t : Bytes) (ts : List Bytes)
    → leb reslut_size (length row + length t) ≡ true
    → row ++ (t ++ flatten ts) ≡ appended row t ++ (drop (reslut_size - length row) t ++ flatten ts)
unfolding appended
cut_text row t ts full =
    let n = reslut_size - length row in
    rw full (
      ap (λ (s : Bytes). row ++ (s ++ flatten ts)) (sym (take-append-drop n t))
      ∙ ap (◌++◌ row) (append_assoc (take n t) (drop n t) (flatten ts))
      ∙ sym (append_assoc row (take n t) (drop n t ++ flatten ts)))

Overrun-texts :
    (row : Bytes) (ts : List Bytes)
    → length row < reslut_size
    → All (λ t. length t < reslut_size) ts
    → reslut_size ≤ length row + length (flatten ts)
    → Overrun row ts
unfolding print_all
Overrun-texts row [] fits printable over = absurd (omega arith)
Overrun-texts row (t ∷ ts) fits printable over =
    let total = length-append t (flatten ts) in
    let both = length-append row t in
    elim (Bool-cases (leb reslut_size (length row + length t))) [
      | inl full ↦ record {
        before = [];
        text = t;
        after = ts;
        splits = refl;
        printed = ap some (sym (append-nil row));
        prints = printable.0;
        fills = rw (append-nil row) (length-appended row t fits (ground arith));
        rest = drop (reslut_size - length row) t ++ flatten ts;
        cut = rw (append-nil row) (cut_text row t ts full);
        fails = rw (printreslut-none row t fits (ground arith)) refl;
      }
      | inr room ↦
          let short : length (row ++ t) < reslut_size = ground (arith, both) in
          let one = (printreslut_iff row t (row ++ t) fits).1 (refl, short) in
          let o = Overrun-texts (row ++ t) ts short printable.1 (omega (arith, total, both)) in
          let same = append_assoc row t (flatten o.before) in
          record {
            before = t ∷ o.before;
            text = o.text;
            after = o.after;
            splits = ap (◌∷◌ t) o.splits;
            printed = rw one (o.printed ∙ ap some same);
            prints = o.prints;
            fills = ap (λ (s : Bytes). length (appended s o.text)) (sym same) ∙ o.fills;
            rest = o.rest;
            cut =
                sym (append_assoc row t (flatten ts))
                ∙ o.cut
                ∙ ap (λ (s : Bytes). appended s o.text ++ o.rest) same;
            fails = rw one o.fails;
          }
    ]

-- While the array has room for the final 0 of its text, and for texts that fit `sprint_buf`: if the
-- texts fit the array behind what it holds, `printreslut` adds them all. If they do not, it adds those
-- in front of the first one that does not fit, and of that one as much as fills the array up to its
-- last byte, so that only the final 0 is written past its end.
pub printreslut-Overrun :
    (row : Bytes) (ts : List Bytes)
    → length row < reslut_size
    → All (λ t. length t < reslut_size) ts
    → (length row + length (flatten ts) < reslut_size → print_all row ts ≡ some (row ++ flatten ts))
      × (reslut_size ≤ length row + length (flatten ts) → Overrun row ts)
printreslut-Overrun row ts fits printable =
    (print_all-flatten row ts, Overrun-texts row ts fits printable)

-- ===== src/Split/Cuts.antt =====
-- Where `strsplit` cuts: the separator found lies in the unread text, and the text behind it is
-- shorter.
use oscshell.Base.{
  ◌-◌, ◌<◌, true, false, List, [], ◌∷◌, ◌++◌, some, ltb, length, take, drop, ◌≡◌, ◌≢◌, refl, sym,
  ap, ◌∙◌, arith, inl, inr, Bool-cases, Option-cases, length-append, drop-length-append,
  append_assoc, append-nil, flatten, take_sub-append, nil_of_length,
}
use oscshell.Base.Int.{ℤ, is_pos, is_zero}
use oscshell.Base.Text.{Bytes, strstr, strstr_split}
use oscshell.Split.{Front, update_front, scan_separators, next_separator, round_pieces, has_empty}

-- The unread text is `before`, `separator` and `f.stop`.
pub record IsCut (look : Bytes) (f : Front) : Type 0 where
  pub before : Bytes
  pub separator : Bytes
  pub whole : look ≡ before ++ f.start
  pub at : f.start ≡ separator ++ f.stop
  pub progress : 0 < length look → length f.stop < length look

IsCut-update_front :
    (look sep r : Bytes) (f : Front)
    → length sep ≢ 0
    → strstr look sep ≡ some r
    → IsCut look f
    → IsCut look (update_front f r sep)
unfolding update_front
IsCut-update_front look sep r f h e c = elim (Bool-cases (ltb (length f.start) (length r))) [
  | inl lt ↦
      let (pre, post, u, v) = strstr_split look sep e in
      let d : drop (length sep) r ≡ post = rw v (drop-length-append sep post) in
      rw lt (record {
        before = pre;
        separator = sep;
        whole = u;
        at = rw d v;
        progress = λ _.
            rw d (
              omega (arith, ap length u, ap length v, length-append pre r, length-append sep post));
      })
  | inr ge ↦ rw ge (record {
    before = c.before;
    separator = c.separator;
    whole = c.whole;
    at = c.at;
    progress = c.progress;
  })
]

IsCut-scan_separators :
    (look : Bytes) (seps : List Bytes) (f : Front)
    → has_empty seps ≡ false
    → IsCut look f
    → IsCut look (scan_separators look seps f)
unfolding scan_separators
IsCut-scan_separators look [] f h c = c
IsCut-scan_separators look ([] ∷ seps) f h c = cc
IsCut-scan_separators look ((x ∷ sep) ∷ seps) f h c = elim (Option-cases (strstr look (x ∷ sep))) [
  | inl e ↦ rw (e, scan_separators) (IsCut-scan_separators look seps f h c)
  | inr (r, e) ↦
      rw (e, scan_separators)
        (IsCut-scan_separators look seps (update_front f r (x ∷ sep)) h
          (IsCut-update_front look (x ∷ sep) r f (omega arith) e c))
]

pub IsCut-next_separator :
    (look : Bytes) (seps : List Bytes)
    → has_empty seps ≡ false
    → IsCut look (next_separator look seps)
unfolding next_separator
IsCut-next_separator look seps h = IsCut-scan_separators look seps _ h (record {
  before = look;
  separator = [];
  whole = sym (append-nil look);
  at = refl;
  progress = λ p. p;
})

module _ (look : Bytes) (f : Front) (c : IsCut look f) where
  text_piece : take (length look - length f.start) look ≡ c.before
  text_piece =
      ap (λ (x : Bytes). take (length x - length f.start) x) c.whole
      ∙ take_sub-append c.before f.start

  separator_piece : take (length f.start - length f.stop) f.start ≡ c.separator
  separator_piece =
      ap (λ (x : Bytes). take (length x - length f.stop) x) c.at
      ∙ take_sub-append c.separator f.stop

  rebuilt : c.before ++ (c.separator ++ f.stop) ≡ look
  rebuilt = sym (c.whole ∙ ap (◌++◌ c.before) c.at)

  before_nil : ltb (length f.start) (length look) ≡ false → c.before ≡ []
  before_nil h =
      nil_of_length c.before (ground (arith, ap length c.whole, length-append c.before f.start))

  -- With the separators kept, a round's pieces and the text behind them are the unread text.
  pub flatten-round_pieces :
      (compress keep : ℤ)
      → is_pos keep ≡ true
      → flatten (round_pieces compress keep look f) ++ f.stop ≡ look
  unfolding round_pieces
  flatten-round_pieces compress keep k = elim (Bool-cases (ltb (length f.start) (length look))) [
    | inl lt ↦ rw (lt, k, text_piece, separator_piece) (simp (append-nil, append_assoc) rebuilt)
    | inr ge ↦
        let no_text = before_nil ge in
        let rest = rw no_text at rebuilt in
        elim (Bool-cases (is_zero compress)) [
          | inl z ↦ rw (ge, k, z, separator_piece) (simp append-nil rest)
          | inr z ↦ rw (ge, k, z, separator_piece) (simp append-nil rest)
        ]
  ]

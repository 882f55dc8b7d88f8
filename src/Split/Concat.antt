-- ===== src/Split/Concat.antt =====
-- `strsplit` ends, and with the separators kept its pieces spell the text.
use oscshell.Base.{
  ℕ, zero, suc, ◌<◌, Bool, true, false, ◌||◌, List, [], ◌∷◌, ◌++◌, Option, some, if◌then◌else◌,
  length, ◌≡◌, ◌≢◌, refl, sym, ap, ◌∙◌, arith, append_assoc, append-nil, flatten, flatten-append,
}
use oscshell.Base.Int.{ℤ, is_pos, is_neg}
use oscshell.Base.Text.{Bytes}
use oscshell.Split.{
  SplitResult, pieces, next_separator, round_pieces, split_loop, strsplit, has_empty,
}
use oscshell.Split.Cuts.{IsCut-next_separator, flatten-round_pieces}

-- The loop ends with these pieces, which spell `whole` if the separators are kept.
pub record Done (keep : ℤ) (whole : Bytes) (r : Option SplitResult) : Type 0 where
  pub rtn : ℕ
  pub result : List Bytes
  pub returns : r ≡ some (pieces rtn result)
  pub spells : is_pos keep ≡ true → flatten result ≡ whole

Done-split_loop :
    (rounds : ℕ) (look : Bytes) (seps : List Bytes) (compress keep : ℤ) (result : List Bytes)
    (rtn : Bool)
    → length look < rounds
    → has_empty seps ≡ false
    → Done keep (flatten result ++ look) (split_loop rounds look seps compress keep result rtn)
unfolding split_loop
Done-split_loop zero look seps compress keep result rtn lt h = absurd (omega arith)
Done-split_loop (suc rounds) [] seps compress keep result rtn lt h = record {
  rtn = if rtn then 1 else 0;
  result = result;
  returns = refl;
  spells = λ _. sym (append-nil (flatten result));
}
Done-split_loop (suc rounds) (c ∷ s) seps compress keep result rtn lt h =
    let look = c ∷ s in
    let f = next_separator look seps in
    let cut = IsCut-next_separator look seps h in
    let ps = round_pieces compress keep look f in
    let d =
      Done-split_loop rounds f.stop seps compress keep (result ++ ps) (rtn || f.found)
        (omega (arith, cut.progress (omega arith))) h in
    record {
      rtn = d.rtn;
      result = d.result;
      returns = d.returns;
      spells = λ k.
          d.spells k
          ∙ ap (λ (x : Bytes). x ++ f.stop) (flatten-append result ps)
          ∙ append_assoc (flatten result) (flatten ps) f.stop
          ∙ ap (◌++◌ (flatten result)) (flatten-round_pieces look f cut compress keep k);
    }

is_pos-is_neg : (k : ℤ) → is_pos k ≡ true → is_neg k ≡ false
is_pos-is_neg (ℤ.pos n) h = refl
is_pos-is_neg (ℤ.negsuc n) h = cc

pub Done-strsplit :
    (s : Bytes) (seps : List Bytes) (compress keep : ℤ)
    → s ≢ []
    → seps ≢ []
    → is_neg compress ≡ false
    → is_neg keep ≡ false
    → has_empty seps ≡ false
    → Done keep s (strsplit s seps compress keep)
unfolding strsplit
Done-strsplit [] seps compress keep hs hp hc hk he = absurd (hs refl)
Done-strsplit (c ∷ s) [] compress keep hs hp hc hk he = absurd (hp refl)
Done-strsplit (c ∷ s) (p ∷ ps) compress keep hs hp hc hk he =
    rw (hc, hk, he)
      (Done-split_loop (suc (length (c ∷ s))) (c ∷ s) (p ∷ ps) compress keep [] false (omega arith)
        he)

-- For a text and separators that are not empty, and flags that are not negative and keep the
-- separators, `strsplit` returns pieces that, put together, are the text.
pub flatten-strsplit :
    (s : Bytes) (seps : List Bytes) (compress keep : ℤ)
    → s ≢ []
    → seps ≢ []
    → is_neg compress ≡ false
    → is_pos keep ≡ true
    → has_empty seps ≡ false
    → (rtn : ℕ) × (result : List Bytes) × (strsplit s seps compress keep ≡ some (pieces rtn result))
      × (flatten result ≡ s)
flatten-strsplit s seps compress keep hs hp hc hk he =
    let d = Done-strsplit s seps compress keep hs hp hc (is_pos-is_neg keep hk) he in
    (d.rtn, d.result, d.returns, d.spells hk)

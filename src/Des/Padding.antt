-- ===== src/Des/Padding.antt =====
-- The blocks that `randomDES` makes of a short text, and the key of its inner cipher.
use oscshell.Base.{
  ℕ, ◌+◌, ◌-◌, ◌≤◌, ◌<◌, [], ◌∷◌, ◌++◌, take, drop, length, leb, Bool-cases, ◌⊎◌, inl, inr, ◌≡◌,
  refl, sym, ap, ◌∙◌, arith, take-length-append, length-append, length-take, length-drop, take-all,
  take-append_left, take-exact, append-nil, append_assoc,
}
use oscshell.Base.Text.{Bytes}
use oscshell.Des.Blocks.{at}
use oscshell.Des.Bits.{AreBytes}
use oscshell.Des.Hex.{IsText, int_to_hex, int_to_hex-text}
use oscshell.Des.Single.{zeros}
use oscshell.Des.Triple.{IsOneOrTwo}
use oscshell.Des.Password.{inlen_of, padded, random_key}
use oscshell.Des.Strings.{AreBytes-IsText, IsText-take, IsText-drop, IsText-append}

-- Eight bytes other than 0, as a key or the result of `sss_rn_gen`.
abbrev pub IsKey : Bytes → Type 0
IsKey key = (length key ≡ 8) × IsText key

-- One or two blocks that hold the text, and the number that says how much of them is text.
pub record IsPadding (random text : Bytes) : Type 0 where
  pub is_text : IsText (padded random text)
  pub size : IsOneOrTwo (padded random text)
  pub shorter : length text ≤ 8 → length (padded random text) ≡ 8
  pub longer : 8 < length text → length (padded random text) ≡ 16
  pub inlen : inlen_of text < 16
  pub cut : 0 < inlen_of text → take (inlen_of text) (padded random text) ≡ text
  pub kept : inlen_of text ≡ 0 → padded random text ≡ text

-- The four lengths that `padded` tells apart.
padded_full :
    (random text : Bytes) → length text ≡ 16 → (padded random text ≡ text) × (inlen_of text ≡ 0)
unfolding padded inlen_of
padded_full random text n = (rw n (take-all 16 text (omega (arith, n))), rw n)

pub padded_short :
    (random text : Bytes)
    → length text < 8
    → (padded random text ≡ text ++ take (8 - length text) random) × (inlen_of text ≡ length text)
unfolding padded inlen_of
padded_short random text n = (ground arith, ground arith)

padded_eight :
    (random text : Bytes)
    → length text ≡ 8
    → (padded random text ≡ text ++ []) × (inlen_of text ≡ length text)
unfolding padded inlen_of
padded_eight random text n = (rw n (sym (append-nil text)), rw n)

padded_long :
    (random text : Bytes)
    → 8 < length text
    → length text < 16
    → (padded random text ≡ text ++ take (16 - length text) (random ++ zeros 52))
      × (inlen_of text ≡ length text)
unfolding padded inlen_of
padded_long random text n m = (ground arith, ground arith)

-- A text of less than two blocks with `pad` behind it.
IsPadding-pad :
    (random text pad : Bytes)
    → IsText text
    → IsText pad
    → 0 < length text
    → length text < 16
    → (padded random text ≡ text ++ pad) × (inlen_of text ≡ length text)
    → (length text ≤ 8 → length text + length pad ≡ 8)
    → (8 < length text → length text + length pad ≡ 16)
    → IsPadding random text
IsPadding-pad random text pad t p some_text short (e, i) small large =
    let n : length (padded random text) ≡ length text + length pad =
      ap length e ∙ length-append text pad in
    record {
      is_text = rw e (IsText-append text pad t p);
      size = elim (Bool-cases (leb (length text) 8)) [
        | inl le ↦ inl (n ∙ small (ground arith))
        | inr gt ↦ inr (n ∙ large (ground arith))
      ];
      shorter = λ h. n ∙ small h;
      longer = λ h. n ∙ large h;
      inlen = rw i short;
      cut = λ h. rw i (rw e (take-length-append text pad));
      kept = λ h. absurd (omega (arith, i, h));
    }

pub IsPadding-padded :
    (random text : Bytes)
    → IsKey random
    → IsText text
    → 0 < length text
    → length text ≤ 16
    → IsPadding random text
IsPadding-padded random text r t some_text fits = elim (lengths (length text) fits) [
  | inl n ↦
      let (e, i) = padded_full random text n in
      record {
        is_text = rw e t;
        size = inr (ap length e ∙ n);
        shorter = λ h. absurd (omega (arith, n));
        longer = λ h. ap length e ∙ n;
        inlen = rw i (omega arith);
        cut = λ h. absurd (omega (arith, i, h));
        kept = λ h. e;
      }
  | inr (inl n) ↦
      IsPadding-pad random text [] t tt some_text (omega arith) (padded_eight random text n)
        (λ h. omega arith) (λ h. absurd (omega arith))
  | inr (inr (inl n)) ↦
      let size : length (take (8 - length text) random) ≡ 8 - length text =
        omega (arith, length-take (8 - length text) random, r.0) in
      IsPadding-pad random text (take (8 - length text) random) t
        (IsText-take (8 - length text) random r.1) some_text (omega arith)
        (padded_short random text n) (λ h. omega (arith, size)) (λ h. absurd (omega arith))
  | inr (inr (inr (n, m))) ↦
      let enough : 16 - length text ≤ length random = omega (arith, r.0) in
      let same : take (16 - length text) (random ++ zeros 52) ≡ take (16 - length text) random =
        take-append_left (16 - length text) random (zeros 52) enough in
      let size : length (take (16 - length text) random) ≡ 16 - length text =
        omega (arith, length-take (16 - length text) random, r.0) in
      IsPadding-pad random text (take (16 - length text) random) t
        (IsText-take (16 - length text) random r.1) some_text m
        (rw same at (padded_long random text n m)) (λ h. absurd (omega arith))
        (λ h. omega (arith, size))
]
  where
    lengths : (n : ℕ) → n ≤ 16 → (n ≡ 16) ⊎ ((n ≡ 8) ⊎ ((n < 8) ⊎ ((8 < n) × (n < 16))))
    lengths n h = ground arith

-- The key of the inner cipher.
pub record InnerKey (key random : Bytes) (inlen : ℕ) : Type 0 where
  pub size : length (random_key key random inlen) ≡ 8
  pub bytes : AreBytes (random_key key random inlen)
  pub again :
      take 4 (random_key key random inlen) ++ take 4 (drop 4 key) ≡ random_key key random inlen
  pub number : at (random_key key random inlen) 3 ≡ int_to_hex inlen

at-length-append : (s : Bytes) (c : ℕ) (t : Bytes) → at (s ++ (c ∷ t)) (length s) ≡ c
unfolding at
at-length-append [] c t = refl
at-length-append (x ∷ s) c t = at-length-append s c t

pub InnerKey-random_key :
    (key random : Bytes) (inlen : ℕ)
    → IsKey key
    → IsKey random
    → inlen < 16
    → InnerKey key random inlen
unfolding random_key
InnerKey-random_key key random inlen k r h =
    let a = take 3 (drop 5 random) in
    let z = take 4 (drop 4 key) in
    let c = int_to_hex inlen in
    let three : length a ≡ 3 =
      omega (arith, length-take 3 (drop 5 random), length-drop 5 random, r.0) in
    let four : length z ≡ 4 = omega (arith, length-take 4 (drop 4 key), length-drop 4 key, k.0) in
    let regroup : a ++ (c ∷ z) ≡ (a ++ c ∷ []) ++ z = sym (append_assoc a (c ∷ []) z) in
    let front : length (a ++ c ∷ []) ≡ 4 = omega (arith, length-append a (c ∷ []), three) in
    let text : IsText (a ++ (c ∷ z)) =
      IsText-append a (c ∷ z) (IsText-take 3 (drop 5 random) (IsText-drop 5 random r.1))
        (int_to_hex-text inlen h, IsText-take 4 (drop 4 key) (IsText-drop 4 key k.1)) in
    record {
      size = omega (arith, length-append a (c ∷ z), three, four);
      bytes = AreBytes-IsText (a ++ (c ∷ z)) text;
      again =
          ap (λ (x : Bytes). take 4 x ++ z) regroup
          ∙ ap (λ (x : Bytes). x ++ z) (take-exact 4 (a ++ c ∷ []) z front)
          ∙ sym regroup;
      number = ap (at (a ++ (c ∷ z))) (sym three) ∙ at-length-append a c z;
    }

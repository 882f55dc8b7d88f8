-- ===== src/Des/RoundTrip.antt =====
-- `_randomDES` undoes `randomDES`.
use oscshell.Base.{
  ℕ, ◌+◌, ◌*◌, ◌/◌, ◌≤◌, ◌<◌, true, false, ◌||◌, [], ◌++◌, if◌then◌else◌, take, drop, length, ltb,
  ◌==◌, Bool-cases, inl, inr, ◌≡◌, refl, sym, ap, ◌∙◌, arith, length-append, length-take,
  length-drop, take-append-drop, take-all, take-append_left, take-exact, drop-exact, All-append,
  append-nil,
}
use oscshell.Base.Text.{c_string, Bytes}
use oscshell.Des.Blocks.{at}
use oscshell.Des.Bits.{AreBytes}
use oscshell.Des.Hex.{hex, length-hex, IsText, IsText-hex, hex_to_int, hex_to_int-int_to_hex}
use oscshell.Des.Single.{inverse_single_des, zeros}
use oscshell.Des.Triple.{single_des-hex, AreBytes-take}
use oscshell.Des.Password.{inlen_of, padded, random_key, random_des, inverse_random_des}
use oscshell.Des.Strings.{c_string-IsText, AreBytes-IsText, IsText-take, IsText-drop, IsText-append}
use oscshell.Des.Padding.{IsKey, IsPadding, IsPadding-padded, InnerKey, InnerKey-random_key}

pub inverse_random_des-steps :
    (key text head rk digits body : Bytes)
    → (length text == 28 || length text == 44) ≡ true
    → inverse_single_des key 8 (take 16 text) ≡ head
    → take 4 head ++ take 4 (drop 4 key) ≡ rk
    → c_string (take 4 (drop 4 head)) ++ c_string (drop 16 text) ≡ digits
    → inverse_single_des rk (length digits / 2) digits ≡ body
    → inverse_random_des key text ≡ (
        if ltb 0 (hex_to_int (at rk 3))
        then c_string (take (hex_to_int (at rk 3)) body)
        else c_string body)
unfolding inverse_random_des
inverse_random_des-steps key text head rk digits body n a b c d =
    rw n (rw a (rw b (rw c (rw d refl))))

-- What is sent for a text of 1 to 16 bytes.
pub record Sent (key random text : Bytes) : Type 0 where
  pub is_text : IsText (random_des key random text)
  pub small : length text ≤ 8 → length (random_des key random text) ≡ 28
  pub large : 8 < length text → length (random_des key random text) ≡ 44
  pub back : inverse_random_des key (random_des key random text) ≡ text

module _ (key random text : Bytes) (k : IsKey key) (r : IsKey random) (t : IsText text)
    (some_text : 0 < length text) (fits : length text ≤ 16) where
  -- The parts of what is sent: the digits of the inner and of the outer cipher.
  record Parts : Type 0 where
    inner : Bytes
    outer : Bytes
    whole : random_des key random text ≡ hex outer ++ drop 4 (hex inner)
    inner_size : length inner ≡ length (padded random text)
    outer_size : length outer ≡ 8
    inner_back :
        inverse_single_des
          (random_key key random (inlen_of text))
          (length (padded random text))
          (hex inner)
        ≡ padded random text
    outer_back :
        inverse_single_des key 8 (hex outer)
        ≡ take 4 (random_key key random (inlen_of text)) ++ take 4 (hex inner)

  Parts-random_des : Parts
  unfolding random_des
  Parts-random_des =
      let p = IsPadding-padded random text r t some_text fits in
      let rk = random_key key random (inlen_of text) in
      let i = InnerKey-random_key key random (inlen_of text) k r p.inlen in
      let (d, e, len, dec, bytes) =
        single_des-hex rk (padded random text) (inl i.size) p.size
          (AreBytes-IsText (padded random text) p.is_text) in
      let not_empty : (length text == 0) ≡ false = ground arith in
      let same : c_string (padded random text) ≡ padded random text =
        c_string-IsText (padded random text) p.is_text in
      let eight : 4 ≤ length (hex d) = elim p.size [
        | inl n ↦ omega (arith, length-hex d, len, n)
        | inr n ↦ omega (arith, length-hex d, len, n)
      ] in
      let x = take 4 rk ++ take 4 (hex d) in
      let x_size : length x ≡ 8 = omega (
        arith,
        length-append (take 4 rk) (take 4 (hex d)),
        length-take 4 rk,
        i.size,
        length-take 4 (hex d),
      ) in
      let x_bytes : AreBytes x =
        All-append (λ c. c < 256) (take 4 rk) (take 4 (hex d)) (AreBytes-take 4 rk i.bytes)
          (AreBytes-take 4 (hex d) (AreBytes-IsText (hex d) (IsText-hex d))) in
      let (d2, e2, len2, dec2, bytes2) = single_des-hex key x (inl k.0) (inl x_size) x_bytes in
      record {
        inner = d;
        outer = d2;
        whole =
            rw not_empty
              (rw same (rw e (rw (take-append_left 4 (hex d) (zeros 4) eight) (rw e2 refl))));
        inner_size = len;
        outer_size = len2 ∙ x_size;
        inner_back =
            ap (inverse_single_des rk (length (padded random text))) (sym (append-nil (hex d)))
            ∙ dec [];
        outer_back =
            ap (λ (n : ℕ). inverse_single_des key n (hex d2)) (sym x_size)
            ∙ ap (inverse_single_des key (length x)) (sym (append-nil (hex d2)))
            ∙ dec2 [];
      }

  back-random_des : inverse_random_des key (random_des key random text) ≡ text
  back-random_des =
      let p = IsPadding-padded random text r t some_text fits in
      let rk = random_key key random (inlen_of text) in
      let i = InnerKey-random_key key random (inlen_of text) k r p.inlen in
      let parts = Parts-random_des in
      let d = hex parts.inner in
      let out = hex parts.outer ++ drop 4 d in
      let n : length d ≡ 2 * length (padded random text) =
        omega (arith, length-hex parts.inner, parts.inner_size) in
      let long : 16 ≤ length d = elim p.size [ inl e ↦ omega arith | inr e ↦ omega arith ] in
      let sixteen : length (hex parts.outer) ≡ 16 =
        omega (arith, length-hex parts.outer, parts.outer_size) in
      let size : length out ≡ 12 + length d =
        omega (arith, length-append (hex parts.outer) (drop 4 d), length-drop 4 d) in
      let test : (length out == 28 || length out == 44) ≡ true = elim p.size [
        | inl e ↦ ground arith
        | inr e ↦ ground arith
      ] in
      let head = take 4 rk ++ take 4 d in
      let four : length (take 4 rk) ≡ 4 = omega (arith, length-take 4 rk, i.size) in
      let tail : take 4 (drop 4 head) ≡ take 4 d =
        ap (take 4) (drop-exact 4 (take 4 rk) (take 4 d) four)
        ∙ take-all 4 (take 4 d) (omega (arith, length-take 4 d)) in
      let text_d = IsText-hex parts.inner in
      let digits : c_string (take 4 (drop 4 head)) ++ c_string (drop 16 out) ≡ d = rw tail (
        rw (drop-exact 16 (hex parts.outer) (drop 4 d) sixteen) (
          rw (c_string-IsText (take 4 d) (IsText-take 4 d text_d))
            (rw (c_string-IsText (drop 4 d) (IsText-drop 4 d text_d)) (take-append-drop 4 d)))) in
      let half : length d / 2 ≡ length (padded random text) = omega arith in
      let steps =
        inverse_random_des-steps key out head rk d (padded random text) test
          (ap (inverse_single_des key 8) (take-exact 16 (hex parts.outer) (drop 4 d) sixteen)
            ∙ parts.outer_back)
          (ap (λ (x : Bytes). x ++ take 4 (drop 4 key)) (take-exact 4 (take 4 rk) (take 4 d) four)
            ∙ i.again)
          digits (ap (λ (n : ℕ). inverse_single_des rk n d) half ∙ parts.inner_back) in
      ap (inverse_random_des key) parts.whole ∙ steps ∙ rest p i
    where
      rest :
          IsPadding random text
          → InnerKey key random (inlen_of text)
          → (if ltb 0 (hex_to_int (at (random_key key random (inlen_of text)) 3))
              then c_string (
                  take
                    (hex_to_int (at (random_key key random (inlen_of text)) 3))
                    (padded random text))
              else c_string (padded random text))
            ≡ text
      rest p i =
          let n : hex_to_int (at (random_key key random (inlen_of text)) 3) ≡ inlen_of text =
            ap hex_to_int i.number ∙ hex_to_int-int_to_hex (inlen_of text) p.inlen in
          elim (Bool-cases (ltb 0 (inlen_of text))) [
            | inl e ↦ rw n (rw e (ap c_string (p.cut (ground arith)) ∙ c_string-IsText text t))
            | inr e ↦ rw n (rw e (ap c_string (p.kept (ground arith)) ∙ c_string-IsText text t))
          ]

  -- What `randomDES` sends for a text of 1 to 16 bytes has no 0 in it and 28 digits, or 44 if the text
  -- has more than 8 bytes, and `_randomDES` with the same key gives the text back.
  pub Sent-random_des : Sent key random text
  Sent-random_des =
      let p = IsPadding-padded random text r t some_text fits in
      let parts = Parts-random_des in
      let d = hex parts.inner in
      let size : length (random_des key random text) ≡ 12 + length d =
        ap length parts.whole
        ∙ omega (
          arith,
          length-append (hex parts.outer) (drop 4 d),
          length-drop 4 d,
          length-hex parts.outer,
          parts.outer_size,
          length-hex parts.inner,
          parts.inner_size,
          long p,
        ) in
      record {
        is_text = rw parts.whole (
            IsText-append (hex parts.outer) (drop 4 d) (IsText-hex parts.outer)
              (IsText-drop 4 d (IsText-hex parts.inner)));
        small = λ h. omega (arith, size, length-hex parts.inner, parts.inner_size, p.shorter h);
        large = λ h. omega (arith, size, length-hex parts.inner, parts.inner_size, p.longer h);
        back = back-random_des;
      }
    where
      long : IsPadding random text → 8 ≤ length (padded random text)
      long p = elim p.size [ inl e ↦ omega (arith, e) | inr e ↦ omega (arith, e) ]

-- For a key and 8 random bytes other than 0, a text of 1 to 16 bytes other than 0 is sent as 28 digits,
-- or as 44 if it has more than 8 bytes, and `_randomDES` gives it back.
pub inverse_random_des-random_des :
    (key random text : Bytes)
    → IsKey key
    → IsKey random
    → IsText text
    → 0 < length text
    → length text ≤ 16
    → (inverse_random_des key (random_des key random text) ≡ text)
      × (length (random_des key random text) ≡ (if ltb 8 (length text) then 44 else 28))
inverse_random_des-random_des key random text k r t some_text fits =
    let s = Sent-random_des key random text k r t some_text fits in
    (s.back, ground (arith, s.small, s.large))

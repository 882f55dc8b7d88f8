-- ===== src/Des/Loss.antt =====
-- A random byte 0 behind the text.
use oscshell.Base.{
  ℕ, zero, suc, ◌-◌, ◌<◌, false, [], ◌∷◌, ◌++◌, take, length, ◌==◌, inl, ◌≡◌, refl, ap, ◌∙◌, arith,
  length-append, length-take, All-append, append-nil,
}
use oscshell.Base.Text.{c_string, Bytes}
use oscshell.Des.Bits.{AreBytes}
use oscshell.Des.Hex.{length-hex, IsText}
use oscshell.Des.Single.{single_des, zeros}
use oscshell.Des.Triple.{single_des-hex, AreBytes-take}
use oscshell.Des.Password.{inlen_of, padded, random_key, random_des, inverse_random_des}
use oscshell.Des.Padding.{IsKey, InnerKey-random_key, padded_short}

c_string-append_zero : (s t : Bytes) → IsText s → c_string (s ++ (0 ∷ t)) ≡ s
unfolding c_string
c_string-append_zero [] t h = refl
c_string-append_zero (c ∷ s) t h =
    let e : (c == 0) ≡ false = ground (arith, h.0.0) in
    rw e (ap (◌∷◌ c) (c_string-append_zero s t h.1))

single_des_refused :
    (key text : Bytes) → 0 < length text → length text < 8 → single_des key text ≡ []
unfolding single_des
single_des_refused key text h k = ground arith

-- The key of the inner cipher does not depend on the first bytes of `sss_rn_gen`.
inner_key :
    (key r : Bytes) (inlen : ℕ)
    → IsKey key
    → length r ≡ 7
    → IsText r
    → inlen < 16
    → (length (random_key key (0 ∷ r) inlen) ≡ 8) × AreBytes (random_key key (0 ∷ r) inlen)
unfolding random_key
inner_key key r inlen k n h small =
    let inner = InnerKey-random_key key (1 ∷ r) inlen k (ap suc n, (omega arith, h)) small in
    (inner.size, inner.bytes)

AreBytes-zeros : (n : ℕ) → AreBytes (zeros n)
unfolding zeros
AreBytes-zeros zero = tt
AreBytes-zeros (suc n) = (omega arith, AreBytes-zeros n)

nonempty : (s : Bytes) → 0 < length s → (length s == 0) ≡ false
nonempty s h = ground arith

refuses :
    (key rk r text : Bytes)
    → IsText text
    → 0 < length text
    → length text < 8
    → single_des rk (c_string (padded (0 ∷ r) text)) ≡ []
refuses key rk r text t some_text short =
    let pad : 8 - length text ≡ suc (7 - length text) = omega arith in
    let e : padded (0 ∷ r) text ≡ text ++ (0 ∷ take (7 - length text) r) =
      (padded_short (0 ∷ r) text short).0 ∙ ap (λ (n : ℕ). text ++ take n (0 ∷ r)) pad in
    ap (λ (x : Bytes). single_des rk (c_string x)) e
    ∙ ap (single_des rk) (c_string-append_zero text (take (7 - length text) r) t)
    ∙ single_des_refused rk text some_text short

-- When the first byte of `sss_rn_gen` is 0, a text of less than 8 bytes is encrypted to 16 digits,
-- which `_randomDES` refuses: the text cannot be read back.
pub random_des-zero :
    (key r text : Bytes)
    → IsKey key
    → length r ≡ 7
    → IsText r
    → IsText text
    → 0 < length text
    → length text < 8
    → (length (random_des key (0 ∷ r) text) ≡ 16)
      × (inverse_random_des key (random_des key (0 ∷ r) text) ≡ [])
unfolding random_des inverse_random_des zeros
random_des-zero key r text k n h t some_text short = (size, rw size refl)
  where
    rk : Bytes
    rk = random_key key (0 ∷ r) (inlen_of text)

    front : Bytes
    front = take 4 rk ++ zeros 4

    inner : (length rk ≡ 8) × AreBytes rk
    inner =
        inner_key key r (inlen_of text) k n h (omega (arith, (padded_short (0 ∷ r) text short).1))

    four : length front ≡ 8
    four = omega (arith, length-append (take 4 rk) (zeros 4), length-take 4 rk, inner.0)

    bytes : AreBytes front
    bytes =
        All-append (λ c. c < 256) (take 4 rk) (zeros 4) (AreBytes-take 4 rk inner.1)
          (AreBytes-zeros 4)

    sends : random_des key (0 ∷ r) text ≡ single_des key front
    sends =
        rw (nonempty text some_text)
          (rw (refuses key rk r text t some_text short) (append-nil (single_des key front)))

    size : length (random_des key (0 ∷ r) text) ≡ 16
    size =
        let (out, e, m, _, _) = single_des-hex key front (inl k.0) (inl four) bytes in
        ap length (sends ∙ e) ∙ omega (arith, length-hex out, m, four)

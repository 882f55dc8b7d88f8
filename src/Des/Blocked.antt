-- ===== src/Des/Blocked.antt =====
-- `_encrypts` undoes `encrypt`, on texts of any length.
use oscshell.Base.{
  ℕ, zero, suc, ◌+◌, ◌-◌, ◌*◌, ◌/◌, ◌≤◌, ◌<◌, true, false, [], ◌∷◌, ◌++◌, take, drop, length, ltb,
  Bool-cases, inl, inr, ◌≡◌, refl, sym, ap, ◌∙◌, arith, length-append, length-take, length-drop,
  take-append-drop, take-exact, drop-exact, append-nil, nil_of_length,
}
use oscshell.Base.Text.{c_string, Bytes}
use oscshell.Des.Hex.{IsText}
use oscshell.Des.Password.{
  des_key, random_des, inverse_random_des, encrypt_loop, encrypt, encrypts_loop, encrypts,
}
use oscshell.Des.Strings.{c_string-IsText, IsText-take, IsText-drop}
use oscshell.Des.Padding.{IsKey}
use oscshell.Des.RoundTrip.{Sent, Sent-random_des}

pub des_key-IsKey : IsKey des_key
des_key-IsKey = (refl, omega arith)

module _ (random : ℕ → Bytes) (keys : (i : ℕ) → IsKey (random i)) where
  sent :
      (i : ℕ) (text : Bytes)
      → IsText text
      → 0 < length text
      → length text ≤ 16
      → Sent des_key (random i) text
  sent i text t some_text fits =
      Sent-random_des des_key (random i) text des_key-IsKey (keys i) t some_text fits

  -- One block, as the loops send it and read it.
  block : ℕ → Bytes → Bytes
  block i text = c_string (random_des des_key (random i) (c_string text))

  record SentBlock (i : ℕ) (text : Bytes) : Type 0 where
    same : block i text ≡ random_des des_key (random i) text
    reads : c_string (inverse_random_des des_key (c_string (block i text))) ≡ text
    small : length text ≤ 8 → length (block i text) ≡ 28
    large : 8 < length text → length (block i text) ≡ 44

  SentBlock-block :
      (i : ℕ) (text : Bytes) → IsText text → 0 < length text → length text ≤ 16 → SentBlock i text
  unfolding block
  SentBlock-block i text t some_text fits =
      let s = sent i text t some_text fits in
      let out = random_des des_key (random i) text in
      let clean : c_string (random_des des_key (random i) (c_string text)) ≡ out =
        ap (λ (x : Bytes). c_string (random_des des_key (random i) x)) (c_string-IsText text t)
        ∙ c_string-IsText out s.is_text in
      record {
        same = clean;
        reads =
            ap (λ (x : Bytes). c_string (inverse_random_des des_key (c_string x))) clean
            ∙ ap (λ (x : Bytes). c_string (inverse_random_des des_key x))
                (c_string-IsText out s.is_text)
            ∙ ap c_string s.back
            ∙ c_string-IsText text t;
        small = λ h. ap length clean ∙ s.small h;
        large = λ h. ap length clean ∙ s.large h;
      }

  -- The loop of `_encrypts` on a block of 44 digits and what follows.
  encrypts_loop-block :
      (i : ℕ) (text rest : Bytes)
      → SentBlock i text
      → length (block i text) ≡ 44
      → encrypts_loop (length (block i text ++ rest) / 44) (block i text ++ rest)
        ≡ text ++ encrypts_loop (length rest / 44) rest
  unfolding encrypts_loop
  encrypts_loop-block i text rest b n =
      let m : length (block i text ++ rest) / 44 ≡ suc (length rest / 44) =
        omega (arith, length-append (block i text) rest, n) in
      ap (λ (k : ℕ). encrypts_loop k (block i text ++ rest)) m
      ∙ rw (take-exact 44 (block i text) rest n) (
          rw (drop-exact 44 (block i text) rest n)
            (ap (λ (x : Bytes). x ++ encrypts_loop (length rest / 44) rest) b.reads))

  encrypts_loop-small :
      (i : ℕ) (text : Bytes)
      → SentBlock i text
      → length (block i text) ≡ 28
      → encrypts_loop (length (block i text) / 44) (block i text) ≡ text
  unfolding encrypts_loop
  encrypts_loop-small i text b n =
      let m : length (block i text) / 44 ≡ 0 = omega (arith, n) in
      let some_digits : ltb 0 (length (block i text)) ≡ true = ground (arith, n) in
      ap (λ (k : ℕ). encrypts_loop k (block i text)) m ∙ rw some_digits b.reads

  encrypts_loop-one :
      (i : ℕ) (text : Bytes)
      → IsText text
      → 0 < length text
      → length text ≤ 16
      → encrypts_loop (length (block i text) / 44) (block i text) ≡ text
  encrypts_loop-one i text t some_text fits =
      let b = SentBlock-block i text t some_text fits in
      elim (Bool-cases (ltb 8 (length text))) [
        | inl e ↦
            let n = b.large (ground arith) in
            let whole = encrypts_loop-block i text [] b n in
            ap (λ (x : Bytes). encrypts_loop (length x / 44) x) (sym (append-nil (block i text)))
            ∙ whole
            ∙ (unfold encrypts_loop in append-nil text)
        | inr e ↦ encrypts_loop-small i text b (b.small (ground arith))
      ]

  encrypts_loop-encrypt_loop :
      (num i : ℕ) (text : Bytes)
      → IsText text
      → 16 * num ≤ length text
      → length text < 16 * num + 16
      → encrypts_loop
          (length (encrypt_loop random i num text) / 44)
          (encrypt_loop random i num text)
        ≡ text
  unfolding encrypt_loop block
  encrypts_loop-encrypt_loop zero i text t lo hi = elim (Bool-cases (ltb 0 (length text))) [
    | inl e ↦ rw e (encrypts_loop-one i text t (ground arith) (omega arith))
    | inr e ↦ rw e (unfold encrypts_loop in sym (nil_of_length text (ground arith)))
  ]
  encrypts_loop-encrypt_loop (suc num) i text t lo hi =
      let front = take 16 text in
      let n : length front ≡ 16 = omega (arith, length-take 16 text) in
      let b = SentBlock-block i front (IsText-take 16 text t) (omega arith) (omega arith) in
      let rest = encrypt_loop random (suc i) num (drop 16 text) in
      encrypts_loop-block i front rest b (b.large (omega arith))
      ∙ ap (◌++◌ front) (
          encrypts_loop-encrypt_loop num (suc i) (drop 16 text) (IsText-drop 16 text t)
            (omega (arith, length-drop 16 text)) (omega (arith, length-drop 16 text)))
      ∙ take-append-drop 16 text

  length-encrypt_loop :
      (num i : ℕ) (text : Bytes)
      → IsText text
      → 16 * suc num ≤ length text
      → 44 ≤ length (encrypt_loop random i (suc num) text)
  unfolding encrypt_loop block
  length-encrypt_loop num i text t lo =
      let front = take 16 text in
      let n : length front ≡ 16 = omega (arith, length-take 16 text) in
      let b = SentBlock-block i front (IsText-take 16 text t) (omega arith) (omega arith) in
      let rest = encrypt_loop random (suc i) num (drop 16 text) in
      omega (arith, length-append (block i front) rest, b.large (omega arith))

  encrypts-small :
      (text : Bytes)
      → IsText text
      → 0 < length text
      → length text < 16
      → encrypts (random_des des_key (random 0) text) ≡ text
  unfolding encrypts
  encrypts-small text t some_text fits =
      let s = sent 0 text t some_text (omega arith) in
      let out = random_des des_key (random 0) text in
      let b = SentBlock-block 0 text t some_text (omega arith) in
      elim (Bool-cases (ltb (length out) 44)) [
        | inl e ↦ rw e s.back
        | inr e ↦ rw e (
            ap (λ (x : Bytes). encrypts_loop (length x / 44) x) (sym b.same)
            ∙ encrypts_loop-one 0 text t some_text (omega arith))
      ]

-- Whatever keys of 8 bytes other than 0 `sss_rn_gen` gives, `_encrypts` reads back each text of
-- bytes other than 0 that `encrypt` has encrypted.
pub encrypts-encrypt :
    (random : ℕ → Bytes) (text : Bytes)
    → ((i : ℕ) → IsKey (random i))
    → IsText text
    → encrypts (encrypt random text) ≡ text
unfolding encrypts encrypt
encrypts-encrypt random [] keys t = unfold random_des inverse_random_des in refl
encrypts-encrypt random (c ∷ s) keys t =
    let text = c ∷ s in
    elim (Bool-cases (ltb (length text) 16)) [
      | inl e ↦ rw e (encrypts-small random keys text t (omega arith) (ground arith))
      | inr e ↦
          let num = length text / 16 - 1 in
          let m : length text / 16 ≡ suc num = ground arith in
          let out = encrypt_loop random 0 (suc num) text in
          let lo : 16 * suc num ≤ length text = omega arith in
          let long : ltb (length out) 44 ≡ false =
            ground (arith, length-encrypt_loop random keys num 0 text t lo) in
          rw e (
            rw m (
              rw long (encrypts_loop-encrypt_loop random keys (suc num) 0 text t lo (omega arith))))
    ]

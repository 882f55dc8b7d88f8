-- ===== src/Des/Triple.antt =====
-- `_sssDES` undoes `sssDES`, and what `singleDES` writes.
use Prim.Native.Nat.{min}
use oscshell.Base.{
  ℕ, zero, suc, ◌*◌, ◌-◌, ◌<◌, true, ◌&&◌, ◌||◌, [], ◌∷◌, ◌++◌, some, take, drop, length, ◌==◌, ◌⊎◌,
  inl, inr, ◌≡◌, refl, sym, ap, ◌∙◌, arith, take-length-append, drop-length-append, length-take,
  length-drop, take-append-drop, length-append, All-append,
}
use oscshell.Base.Text.{Bytes}
use oscshell.Des.Bits.{AreBytes}
use oscshell.Des.Bytes.{IsBlock}
use oscshell.Des.Blocks.{des, inverse_des}
use oscshell.Des.Feistel.{IsBlock-des, IsBlock-inverse_des, inverse_des-des, des-inverse_des}
use oscshell.Des.Hex.{bcdtoasc, hex, bcdtoasc-hex, asctobcd-hex, length-hex}
use oscshell.Des.Single.{
  triple, inverse_triple, sss_des, inverse_sss_des, or_else, single_des, inverse_single_des,
}

inverse_triple-triple :
    (k1 k2 text : Bytes) → IsBlock text → inverse_triple k1 k2 (triple k1 k2 text) ≡ text
unfolding triple inverse_triple
inverse_triple-triple k1 k2 text h =
    let inner = des k1 text in
    ap (λ (x : Bytes). inverse_des k1 (des k2 x))
      (inverse_des-des k1 (inverse_des k2 inner) (IsBlock-inverse_des k2 inner))
    ∙ ap (inverse_des k1) (des-inverse_des k2 inner (IsBlock-des k1 text))
    ∙ inverse_des-des k1 text h

IsBlock-triple : (k1 k2 text : Bytes) → IsBlock (triple k1 k2 text)
unfolding triple
IsBlock-triple k1 k2 text = IsBlock-des k1 _

-- A key or a text of one or two blocks.
abbrev pub IsOneOrTwo : Bytes → Type 0
IsOneOrTwo s = (length s ≡ 8) ⊎ (length s ≡ 16)

-- What `sss_des` gives: as many bytes as the text has, which `inverse_sss_des` decrypts.
pub record Undone (key text : Bytes) : Type 0 where
  pub out : Bytes
  pub encrypts : sss_des key text ≡ some out
  pub decrypts : inverse_sss_des key out ≡ some text
  pub same_length : length out ≡ length text
  pub bytes : AreBytes out

pub AreBytes-take : (n : ℕ) (s : Bytes) → AreBytes s → AreBytes (take n s)
AreBytes-take zero s h = tt
AreBytes-take (suc n) [] h = tt
AreBytes-take (suc n) (c ∷ s) h = (h.0, AreBytes-take n s h.1)

AreBytes-drop : (n : ℕ) (s : Bytes) → AreBytes s → AreBytes (drop n s)
AreBytes-drop zero s h = h
AreBytes-drop (suc n) [] h = tt
AreBytes-drop (suc n) (c ∷ s) h = AreBytes-drop n s h.1

-- A cipher of one block, used for the two blocks of a text.
record Two (encrypts decrypts : Bytes → Bytes) (text : Bytes) : Type 0 where
  whole :
      decrypts (take 8 (encrypts (take 8 text) ++ encrypts (drop 8 text)))
        ++ decrypts (drop 8 (encrypts (take 8 text) ++ encrypts (drop 8 text)))
      ≡ text
  size : length (encrypts (take 8 text) ++ encrypts (drop 8 text)) ≡ 16
  bytes : AreBytes (encrypts (take 8 text) ++ encrypts (drop 8 text))

Two-blocks :
    (encrypts decrypts : Bytes → Bytes) (text : Bytes)
    → ((x : Bytes) → IsBlock (encrypts x))
    → ((x : Bytes) → IsBlock x → decrypts (encrypts x) ≡ x)
    → length text ≡ 16
    → AreBytes text
    → Two encrypts decrypts text
Two-blocks encrypts decrypts text block undo len h =
    let a = take 8 text in
    let b = drop 8 text in
    let block_a : IsBlock a = (length-take 8 text ∙ ap (min 8) len, AreBytes-take 8 text h) in
    let block_b : IsBlock b =
      (length-drop 8 text ∙ ap (λ (n : ℕ). n - 8) len, AreBytes-drop 8 text h) in
    let first : take 8 (encrypts a ++ encrypts b) ≡ encrypts a =
      ap (λ (n : ℕ). take n (encrypts a ++ encrypts b)) (sym (block a).0)
      ∙ take-length-append (encrypts a) (encrypts b) in
    let second : drop 8 (encrypts a ++ encrypts b) ≡ encrypts b =
      ap (λ (n : ℕ). drop n (encrypts a ++ encrypts b)) (sym (block a).0)
      ∙ drop-length-append (encrypts a) (encrypts b) in
    record {
      whole = rw (first, second) (rw (undo a block_a, undo b block_b) (take-append-drop 8 text));
      size = omega (arith, length-append (encrypts a) (encrypts b), (block a).0, (block b).0);
      bytes = All-append (λ c. c < 256) (encrypts a) (encrypts b) (block a).1 (block b).1;
    }

pub Undone-sss_des :
    (key text : Bytes) → IsOneOrTwo key → IsOneOrTwo text → AreBytes text → Undone key text
unfolding sss_des inverse_sss_des
Undone-sss_des key text (inl k) (inl t) h = record {
  out = des key text;
  encrypts = rw k (rw t);
  decrypts = rw k (rw (IsBlock-des key text).0 (ap some (inverse_des-des key text (t, h))));
  same_length = (IsBlock-des key text).0 ∙ sym t;
  bytes = (IsBlock-des key text).1;
}
Undone-sss_des key text (inl k) (inr t) h =
    let two =
      Two-blocks (triple key key) (inverse_triple key key) text (IsBlock-triple key key)
        (inverse_triple-triple key key) t h in
    record {
      out = triple key key (take 8 text) ++ triple key key (drop 8 text);
      encrypts = rw k (rw t);
      decrypts = rw k (rw two.size (ap some two.whole));
      same_length = two.size ∙ sym t;
      bytes = two.bytes;
    }
Undone-sss_des key text (inr k) (inl t) h =
    let block = IsBlock-triple (take 8 key) (drop 8 key) text in
    record {
      out = triple (take 8 key) (drop 8 key) text;
      encrypts = rw k (rw t);
      decrypts =
          rw k (rw block.0 (ap some (inverse_triple-triple (take 8 key) (drop 8 key) text (t, h))));
      same_length = block.0 ∙ sym t;
      bytes = block.1;
    }
Undone-sss_des key text (inr k) (inr t) h =
    let two =
      Two-blocks (triple (take 8 key) (drop 8 key)) (inverse_triple (take 8 key) (drop 8 key)) text
        (IsBlock-triple (take 8 key) (drop 8 key)) (inverse_triple-triple (take 8 key) (drop 8 key))
        t h in
    record {
      out =
          triple (take 8 key) (drop 8 key) (take 8 text)
          ++ triple (take 8 key) (drop 8 key) (drop 8 text);
      encrypts = rw k (rw t);
      decrypts = rw k (rw two.size (ap some two.whole));
      same_length = two.size ∙ sym t;
      bytes = two.bytes;
    }

sizes_test :
    (key text : Bytes)
    → IsOneOrTwo key
    → IsOneOrTwo text
    → ((length key == 8 || length key == 16) && (length text == 8 || length text == 16)) ≡ true
sizes_test key text k t = ground arith

-- What `singleDES` writes: the digits of the encrypted blocks.
pub single_des-hex :
    (key text : Bytes)
    → IsOneOrTwo key
    → IsOneOrTwo text
    → AreBytes text
    → (out : Bytes) × (single_des key text ≡ hex out)
      × (length out ≡ length text)
      × ((rest : Bytes) → inverse_single_des key (length text) (hex out ++ rest) ≡ text)
      × AreBytes out
unfolding single_des inverse_single_des or_else
single_des-hex key text k t h =
    let u = Undone-sss_des key text k t h in
    let sizes : ((length key == 8 || length key == 16) && (length text == 8 || length text == 16))
        ≡ true =
      sizes_test key text k t in
    (
      u.out,
      rw sizes (
          rw u.encrypts
            (ap (λ (n : ℕ). bcdtoasc (n * 2) u.out) (sym u.same_length) ∙ bcdtoasc-hex u.out)),
      u.same_length,
      (λ rest. rw sizes (
          rw (digits u.out u.same_length rest)
            (rw (asctobcd-hex u.out u.bytes) (rw u.decrypts refl)))),
      u.bytes,
    )
  where
    digits :
        (out : Bytes)
        → length out ≡ length text
        → (rest : Bytes) → take (length text * 2) (hex out ++ rest) ≡ hex out
    digits out e rest =
        let n : length text * 2 ≡ length (hex out) = omega (arith, length-hex out, e) in
        ap (λ (m : ℕ). take m (hex out ++ rest)) n ∙ take-length-append (hex out) rest

-- `_sssDES` undoes `sssDES`, for keys and texts of 8 or 16 bytes.
pub inverse_sss_des-sss_des :
    (key text : Bytes)
    → IsOneOrTwo key
    → IsOneOrTwo text
    → AreBytes text
    → (out : Bytes) × (sss_des key text ≡ some out)
      × (inverse_sss_des key out ≡ some text)
      × (length out ≡ length text)
inverse_sss_des-sss_des key text k t h =
    let u = Undone-sss_des key text k t h in (u.out, u.encrypts, u.decrypts, u.same_length)

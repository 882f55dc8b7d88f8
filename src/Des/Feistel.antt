-- ===== src/Des/Feistel.antt =====
-- The rounds undo each other in the reverse order of the keys, and so `discrypt0` undoes `encrypt0`.
use mathlib.Core.List.{reverse, reverse-cons, reverse-reverse}
use oscshell.Base.{
  ℕ, suc, ◌+◌, ◌*◌, ◌%◌, ◌<◌, List, [], ◌∷◌, ◌++◌, take, drop, length, All-append, ◌≡◌, refl, sym,
  ap, ◌∙◌, arith,
}
use oscshell.Base.Text.{Bytes}
use oscshell.Des.Tables.{ip_tab, inverse_ip_tab, p_tab, e_r, s_boxes}
use oscshell.Des.Blocks.{
  Bits, gather, expand0, compress0, add_bits, s_bits, s_box, mix, f, ip, inverse_ip, rounds, finish,
  encrypt0, discrypt0, setkeystar, des, inverse_des,
}
use oscshell.Des.Bits.{AreBits, length-gather, AreBits-gather, left_half, right_half, whole}
use oscshell.Des.Bytes.{
  IsBlock, compress0-expand0, expand0-compress0, IsBlock-compress0, length-expand0, AreBits-expand0,
  AreBits-bits_loop,
}

-- A half of a block.
abbrev IsHalf : Bits → Type 0
IsHalf bits = (length bits ≡ 32) × AreBits bits

abbrev AreHalves : Bits × Bits → Type 0
AreHalves (ll, rr) = IsHalf ll × IsHalf rr

abbrev swap : Bits × Bits → Bits × Bits
swap (ll, rr) = (rr, ll)

AreBits-s_box : (boxes : List (List ℕ)) (aa : Bits) (j : ℕ) → AreBits (s_box boxes aa j)
unfolding s_box s_bits
AreBits-s_box [] aa j = tt
AreBits-s_box (box ∷ boxes) aa j =
    All-append (λ b. b < 2) _ (s_box boxes aa (j + 6)) (AreBits-bits_loop 4 8 _)
      (AreBits-s_box boxes aa (j + 6))

IsHalf-mix : (k rr : Bits) → IsHalf (mix k rr)
unfolding mix
IsHalf-mix k rr =
    let sums = s_box s_boxes (add_bits (gather e_r rr) k) 0 in
    (length-gather p_tab sums, AreBits-gather p_tab sums (AreBits-s_box s_boxes _ 0))

length-add_bits : (a b : Bits) → length a ≡ length b → length (add_bits a b) ≡ length b
unfolding add_bits
length-add_bits [] [] h = refl
length-add_bits [] (y ∷ b) h = absurd (omega (arith, h))
length-add_bits (x ∷ a) [] h = absurd (omega (arith, h))
length-add_bits (x ∷ a) (y ∷ b) h = ap suc (length-add_bits a b (omega (arith, h)))

AreBits-add_bits : (a b : Bits) → AreBits (add_bits a b)
unfolding add_bits
AreBits-add_bits [] b = tt
AreBits-add_bits (x ∷ a) [] = tt
AreBits-add_bits (x ∷ a) (y ∷ b) = (omega arith, AreBits-add_bits a b)

-- Adding twice changes nothing.
add_bits_twice : (a b : Bits) → length a ≡ length b → AreBits b → add_bits a (add_bits a b) ≡ b
unfolding add_bits
add_bits_twice [] [] h p = refl
add_bits_twice [] (y ∷ b) h p = absurd (omega (arith, h))
add_bits_twice (x ∷ a) [] h p = absurd (omega (arith, h))
add_bits_twice (x ∷ a) (y ∷ b) h p =
    let bit : (x + (x + y) % 2) % 2 ≡ y = omega (arith, p.0) in
    ap (λ (n : ℕ). n ∷ add_bits a (add_bits a b)) bit
    ∙ ap (◌∷◌ y) (add_bits_twice a b (omega (arith, h)) p.1)

AreHalves-f : (k ll rr : Bits) → AreHalves (ll, rr) → AreHalves (f k ll rr)
unfolding f
AreHalves-f k ll rr (hl, hr) =
    let m = IsHalf-mix k rr in
    (hr, (length-add_bits (mix k rr) ll (m.0 ∙ sym hl.0) ∙ hl.0, AreBits-add_bits (mix k rr) ll))

-- A round with the halves exchanged undoes the round.
f-swap :
    (k ll rr : Bits) → AreHalves (ll, rr) → f k (swap (f k ll rr)).0 (swap (f k ll rr)).1 ≡ (rr, ll)
unfolding f
f-swap k ll rr (hl, hr) =
    ap (λ (x : Bits). (rr, x)) (add_bits_twice (mix k rr) ll ((IsHalf-mix k rr).0 ∙ sym hl.0) hl.1)

AreHalves-rounds : (keys : List Bits) (s : Bits × Bits) → AreHalves s → AreHalves (rounds keys s)
unfolding rounds
AreHalves-rounds [] s h = h
AreHalves-rounds (k ∷ keys) (ll, rr) h = AreHalves-rounds keys (f k ll rr) (AreHalves-f k ll rr h)

rounds-append :
    (ks js : List Bits) (s : Bits × Bits) → rounds (ks ++ js) s ≡ rounds js (rounds ks s)
unfolding rounds
rounds-append [] js s = refl
rounds-append (k ∷ ks) js (ll, rr) = rounds-append ks js (f k ll rr)

rounds-reverse :
    (keys : List Bits) (s : Bits × Bits)
    → AreHalves s
    → rounds (reverse keys) (swap (rounds keys s)) ≡ swap s
unfolding rounds
rounds-reverse [] s h = refl
rounds-reverse (k ∷ keys) (ll, rr) h =
    ap (λ (ks : List Bits). rounds ks (swap (rounds keys (f k ll rr)))) (reverse-cons k keys)
    ∙ rounds-append (reverse keys) (k ∷ []) (swap (rounds keys (f k ll rr)))
    ∙ ap (rounds (k ∷ [])) (rounds-reverse keys (f k ll rr) (AreHalves-f k ll rr h))
    ∙ f-swap k ll rr h

AreHalves-ip : (text : Bytes) → AreHalves (ip text)
unfolding ip
AreHalves-ip text =
    let bits = AreBits-expand0 text in
    (
      (length-gather (take 32 ip_tab) (expand0 text), AreBits-gather (take 32 ip_tab) _ bits),
      (length-gather (drop 32 ip_tab) (expand0 text), AreBits-gather (drop 32 ip_tab) _ bits),
    )

-- The first permutation reads the halves back that the last one wrote, exchanged.
ip-finish : (s : Bits × Bits) → AreHalves s → ip (finish s) ≡ swap s
unfolding ip finish inverse_ip
ip-finish (ll, rr) (hl, hr) =
    let out = gather inverse_ip_tab (rr ++ ll) in
    let bits : AreBits out =
      AreBits-gather inverse_ip_tab (rr ++ ll) (All-append (λ b. b < 2) rr ll hr.1 hl.1) in
    let e : expand0 (compress0 out) ≡ out =
      expand0-compress0 out (length-gather inverse_ip_tab (rr ++ ll)) bits in
    rw e (
      ap (λ (x : Bits). (x, gather (drop 32 ip_tab) out)) (left_half rr ll hr.0)
      ∙ ap (λ (x : Bits). (rr, x)) (right_half rr ll hr.0 hl.0))

finish-ip : (text : Bytes) → IsBlock text → finish (swap (ip text)) ≡ text
unfolding ip finish inverse_ip
finish-ip text (len, bytes) =
    ap compress0 (whole (expand0 text) (length-expand0 text ∙ ap (λ (n : ℕ). 8 * n) len))
    ∙ compress0-expand0 text bytes len

-- For any round keys and any block of 8 bytes, `discrypt0` gives back the block that `encrypt0`
-- encrypted.
pub discrypt0-encrypt0 :
    (keys : List Bits) (text : Bytes) → IsBlock text → discrypt0 keys (encrypt0 keys text) ≡ text
unfolding discrypt0 encrypt0
discrypt0-encrypt0 keys text h =
    let s = rounds keys (ip text) in
    let halves = AreHalves-rounds keys (ip text) (AreHalves-ip text) in
    ap (λ (x : Bits × Bits). finish (rounds (reverse keys) x)) (ip-finish s halves)
    ∙ ap finish (rounds-reverse keys (ip text) (AreHalves-ip text))
    ∙ finish-ip text h

discrypt0-reverse :
    (keys : List Bits) (text : Bytes) → discrypt0 (reverse keys) text ≡ encrypt0 keys text
unfolding discrypt0 encrypt0
discrypt0-reverse keys text =
    ap (λ (ks : List Bits). finish (rounds ks (ip text))) (reverse-reverse keys)

encrypt0-discrypt0 :
    (keys : List Bits) (text : Bytes) → IsBlock text → encrypt0 keys (discrypt0 keys text) ≡ text
unfolding discrypt0 encrypt0
encrypt0-discrypt0 keys text h =
    sym (discrypt0-reverse keys (discrypt0 keys text)) ∙ discrypt0-encrypt0 (reverse keys) text h

IsBlock-finish : (s : Bits × Bits) → IsBlock (finish s)
unfolding finish
IsBlock-finish (ll, rr) = IsBlock-compress0 (inverse_ip rr ll)

pub IsBlock-des : (key text : Bytes) → IsBlock (des key text)
unfolding des encrypt0
IsBlock-des key text = IsBlock-finish _

pub IsBlock-inverse_des : (key text : Bytes) → IsBlock (inverse_des key text)
unfolding inverse_des discrypt0
IsBlock-inverse_des key text = IsBlock-finish _

pub inverse_des-des : (key text : Bytes) → IsBlock text → inverse_des key (des key text) ≡ text
unfolding des inverse_des
inverse_des-des key text h = discrypt0-encrypt0 (setkeystar (expand0 key)) text h

pub des-inverse_des : (key text : Bytes) → IsBlock text → des key (inverse_des key text) ≡ text
unfolding des inverse_des
des-inverse_des key text h = encrypt0-discrypt0 (setkeystar (expand0 key)) text h

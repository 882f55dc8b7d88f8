-- ===== src/Des/Bytes.antt =====
-- `expand0` and `compress0` undo each other.
use oscshell.Base.{
  ℕ, zero, suc, ◌+◌, ◌*◌, ◌/◌, ◌%◌, ◌<◌, ◌≤◌, Bool, true, ◌&&◌, ◌==◌, ==_iff, Bool-cases, inl, inr,
  [], ◌∷◌, ◌++◌, drop, length, nil_of_length, All-append, ◌≡◌, refl, sym, ap, ◌∙◌, arith,
}
use oscshell.Base.Text.{Bytes}
use oscshell.Des.Blocks.{Bits, bits_loop, expand0, byte_loop, compress_loop, compress0}
use oscshell.Des.Bits.{AreBits, AreBytes}

-- `keeps_all m b`: the bits of `b`, `b + 1`, and so on, `m` numbers in all, give them back.
abbrev keeps_all : ℕ → ℕ → Bool
keeps_all zero b = true
keeps_all (suc m) b = byte_loop 8 128 0 (bits_loop 8 128 b) == b && keeps_all m (suc b)

keeps_all-from :
    (m start c : ℕ)
    → keeps_all m start ≡ true
    → start ≤ c
    → c < start + m
    → byte_loop 8 128 0 (bits_loop 8 128 c) ≡ c
keeps_all-from zero start c found lo hi = absurd (omega arith)
keeps_all-from (suc m) start c found lo hi = elim (Bool-cases (start == c)) [
  | inl same ↦
      let e : start ≡ c = (==_iff start c).0 same in
      rw (sym e) ((==_iff (byte_loop 8 128 0 (bits_loop 8 128 start)) start).0 (ground arith))
  | inr other ↦ keeps_all-from m (suc start) c (ground arith) (ground arith) (omega arith)
]

every_byte : keeps_all 256 0 ≡ true
unfolding byte_loop bits_loop
every_byte = refl

byte_loop-bits_loop : (b : ℕ) → b < 256 → byte_loop 8 128 0 (bits_loop 8 128 b) ≡ b
byte_loop-bits_loop b h = keeps_all-from 256 0 b every_byte (omega arith) h

compress_loop-expand0 : (s : Bytes) → AreBytes s → compress_loop (length s) (expand0 s) ≡ s
unfolding compress_loop expand0 bits_loop byte_loop
compress_loop-expand0 [] h = refl
compress_loop-expand0 (c ∷ s) h =
    ap (λ (x : ℕ). x ∷ compress_loop (length s) (expand0 s)) (byte_loop-bits_loop c h.0)
    ∙ ap (◌∷◌ c) (compress_loop-expand0 s h.1)

pub compress0-expand0 : (s : Bytes) → AreBytes s → length s ≡ 8 → compress0 (expand0 s) ≡ s
unfolding compress0
compress0-expand0 s h e =
    ap (λ (n : ℕ). compress_loop n (expand0 s)) (sym e) ∙ compress_loop-expand0 s h

-- The value of eight bits.
abbrev value : ℕ → ℕ → ℕ → ℕ → ℕ → ℕ → ℕ → ℕ → ℕ
value a b c d e f g h = a * 128 + b * 64 + c * 32 + d * 16 + e * 8 + f * 4 + g * 2 + h

pub length-expand0 : (s : Bytes) → length (expand0 s) ≡ 8 * length s
unfolding expand0 bits_loop
length-expand0 [] = refl
length-expand0 (c ∷ s) = omega (arith, length-expand0 s)

pub AreBits-bits_loop : (n divide b : ℕ) → AreBits (bits_loop n divide b)
unfolding bits_loop
AreBits-bits_loop zero divide b = tt
AreBits-bits_loop (suc n) divide b = (omega arith, AreBits-bits_loop n (divide / 2) b)

pub AreBits-expand0 : (s : Bytes) → AreBits (expand0 s)
unfolding expand0
AreBits-expand0 [] = tt
AreBits-expand0 (c ∷ s) =
    All-append (λ b. b < 2) (bits_loop 8 128 c) (expand0 s) (AreBits-bits_loop 8 128 c)
      (AreBits-expand0 s)

byte_loop-lt : (n times sum : ℕ) (bits : Bits) → sum < 256 → byte_loop n times sum bits < 256
unfolding byte_loop
byte_loop-lt zero times sum bits h = h
byte_loop-lt (suc n) times sum [] h = h
byte_loop-lt (suc n) times sum (b ∷ bits) h = byte_loop-lt n (times / 2) _ bits (omega arith)

-- A block of 8 bytes.
abbrev pub IsBlock : Bytes → Type 0
IsBlock s = (length s ≡ 8) × AreBytes s

pub IsBlock-compress0 : (bits : Bits) → IsBlock (compress0 bits)
unfolding compress0 compress_loop
IsBlock-compress0 bits = (refl, (lt _, (lt _, (lt _, (lt _, (lt _, (lt _, (lt _, (lt _, tt)))))))))
  where
    lt : (x : Bits) → byte_loop 8 128 0 x < 256
    lt x = byte_loop-lt 8 128 0 x (omega arith)

module _ (a b c d e f g h : ℕ) (pa : a < 2) (pb : b < 2) (pc : c < 2) (pd : d < 2) (pe : e < 2)
    (pf : f < 2) (pg : g < 2) (ph : h < 2) where
  byte_loop-value :
      (bits : Bits)
      → byte_loop 8 128 0 (a ∷ b ∷ c ∷ d ∷ e ∷ f ∷ g ∷ h ∷ bits) ≡ value a b c d e f g h
  unfolding byte_loop
  byte_loop-value bits = omega arith

  bits_loop-value : bits_loop 8 128 (value a b c d e f g h) ≡ a ∷ b ∷ c ∷ d ∷ e ∷ f ∷ g ∷ h ∷ []
  unfolding bits_loop
  bits_loop-value =
      let qa : value a b c d e f g h / 128 % 2 ≡ a = omega arith in
      let qb : value a b c d e f g h / 64 % 2 ≡ b = omega arith in
      let qc : value a b c d e f g h / 32 % 2 ≡ c = omega arith in
      let qd : value a b c d e f g h / 16 % 2 ≡ d = omega arith in
      let qe : value a b c d e f g h / 8 % 2 ≡ e = omega arith in
      let qf : value a b c d e f g h / 4 % 2 ≡ f = omega arith in
      let qg : value a b c d e f g h / 2 % 2 ≡ g = omega arith in
      let qh : value a b c d e f g h / 1 % 2 ≡ h = omega arith in
      rw (qa, qb, qc, qd, qe, qf, qg, qh) refl

-- The first eight bits are those of their byte.
octet :
    (bits : Bits) (n : ℕ)
    → length bits ≡ 8 * suc n
    → AreBits bits
    → (bits ≡ bits_loop 8 128 (byte_loop 8 128 0 bits) ++ drop 8 bits)
      × (length (drop 8 bits) ≡ 8 * n)
      × AreBits (drop 8 bits)
octet (a ∷ b ∷ c ∷ d ∷ e ∷ f ∷ g ∷ h ∷ bits) n len
      (pa, (pb, (pc, (pd, (pe, (pf, (pg, (ph, p)))))))) =
    (
      rw (byte_loop-value a b c d e f g h pa pb pc pd pe pf pg ph bits)
          (rw (bits_loop-value a b c d e f g h pa pb pc pd pe pf pg ph) refl),
      omega (arith, len),
      p,
    )
octet [] n len p = absurd (omega (arith, len))
octet (a ∷ []) n len p = absurd (omega (arith, len))
octet (a ∷ b ∷ []) n len p = absurd (omega (arith, len))
octet (a ∷ b ∷ c ∷ []) n len p = absurd (omega (arith, len))
octet (a ∷ b ∷ c ∷ d ∷ []) n len p = absurd (omega (arith, len))
octet (a ∷ b ∷ c ∷ d ∷ e ∷ []) n len p = absurd (omega (arith, len))
octet (a ∷ b ∷ c ∷ d ∷ e ∷ f ∷ []) n len p = absurd (omega (arith, len))
octet (a ∷ b ∷ c ∷ d ∷ e ∷ f ∷ g ∷ []) n len p = absurd (omega (arith, len))

expand0-compress_loop :
    (n : ℕ) (bits : Bits)
    → length bits ≡ 8 * n
    → AreBits bits
    → expand0 (compress_loop n bits) ≡ bits
unfolding expand0 compress_loop
expand0-compress_loop zero bits len p = sym (nil_of_length bits (omega (arith, len)))
expand0-compress_loop (suc n) bits len p =
    let (e, k, q) = octet bits n len p in
    ap (◌++◌ (bits_loop 8 128 (byte_loop 8 128 0 bits))) (expand0-compress_loop n (drop 8 bits) k q)
    ∙ sym e

pub expand0-compress0 :
    (bits : Bits) → length bits ≡ 64 → AreBits bits → expand0 (compress0 bits) ≡ bits
unfolding compress0
expand0-compress0 bits len p = expand0-compress_loop 8 bits len p

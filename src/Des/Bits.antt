-- ===== src/Des/Bits.antt =====
-- Tables and bytes: what `expand0`, `compress0` and the permutations keep.
use oscshell.Base.{
  ℕ, zero, suc, ◌-◌, ◌<◌, Bool, true, ◌&&◌, ltb, List, [], ◌∷◌, ◌++◌, take, drop, All, length,
  length-append, append_assoc, append-nil, ◌≡◌, refl, sym, ap, ◌∙◌, arith,
}
use oscshell.Base.Text.{Bytes}
use oscshell.Des.Tables.{ip_tab, inverse_ip_tab}
use oscshell.Des.Blocks.{Bits, at, gather, range}

-- Each element is 0 or 1.
abbrev pub AreBits : Bits → Type 0
AreBits = All (λ b. b < 2)

-- Bytes.
abbrev pub AreBytes : Bytes → Type 0
AreBytes = All (λ c. c < 256)

pub length-gather : (table : List ℕ) (bits : Bits) → length (gather table bits) ≡ length table
unfolding gather
length-gather [] bits = refl
length-gather (i ∷ table) bits = ap suc (length-gather table bits)

at-AreBits : (bits : Bits) (i : ℕ) → AreBits bits → at bits i < 2
unfolding at
at-AreBits [] i h = omega arith
at-AreBits (b ∷ bits) zero h = h.0
at-AreBits (b ∷ bits) (suc i) h = at-AreBits bits i h.1

pub AreBits-gather : (table : List ℕ) (bits : Bits) → AreBits bits → AreBits (gather table bits)
unfolding gather
AreBits-gather [] bits h = tt
AreBits-gather (i ∷ table) bits h = (at-AreBits bits (i - 1) h, AreBits-gather table bits h)

at-append_left : (xs ys : List ℕ) (i : ℕ) → i < length xs → at (xs ++ ys) i ≡ at xs i
unfolding at
at-append_left [] ys i h = absurd (omega arith)
at-append_left (x ∷ xs) ys zero h = refl
at-append_left (x ∷ xs) ys (suc i) h = at-append_left xs ys i (omega arith)

at-gather :
    (table : List ℕ) (bits : Bits) (i : ℕ)
    → i < length table
    → at (gather table bits) i ≡ at bits (at table i - 1)
unfolding at gather
at-gather [] bits i h = absurd (omega arith)
at-gather (t ∷ table) bits zero h = refl
at-gather (t ∷ table) bits (suc i) h = at-gather table bits i (omega arith)

-- The indices of `outer` are in the range of `inner`.
abbrev Fits : List ℕ → List ℕ → Type 0
Fits outer inner = All (λ i. i - 1 < length inner) outer

gather-gather :
    (outer inner : List ℕ) (bits : Bits)
    → Fits outer inner
    → gather outer (gather inner bits) ≡ gather (gather outer inner) bits
unfolding gather
gather-gather [] inner bits h = refl
gather-gather (i ∷ outer) inner bits h =
    ap (◌∷◌ (at (gather inner bits) (i - 1))) (gather-gather outer inner bits h.1)
    ∙ ap (λ (b : ℕ). b ∷ gather (gather outer inner) bits) (at-gather inner bits (i - 1) h.0)

at-append_right : (xs : List ℕ) (y : ℕ) (ys : List ℕ) → at (xs ++ (y ∷ ys)) (length xs) ≡ y
unfolding at
at-append_right [] y ys = refl
at-append_right (x ∷ xs) y ys = at-append_right xs y ys

-- The entries from the place behind `ps` on, one for each of `qs`.
gather-range :
    (ps qs rs : Bits) → gather (range (suc (length ps)) (length qs)) (ps ++ (qs ++ rs)) ≡ qs
unfolding gather range
gather-range ps [] rs = refl
gather-range ps (q ∷ qs) rs =
    let place : suc (length ps) - 1 ≡ length ps = omega arith in
    let longer : length (ps ++ q ∷ []) ≡ suc (length ps) =
      omega (arith, length-append ps (q ∷ [])) in
    let head : at (ps ++ (q ∷ (qs ++ rs))) (suc (length ps) - 1) ≡ q =
      rw place (at-append_right ps q (qs ++ rs)) in
    let later = gather-range (ps ++ q ∷ []) qs rs in
    let tail : gather (range (suc (suc (length ps))) (length qs)) (ps ++ (q ∷ (qs ++ rs))) ≡ qs =
      rw (longer, append_assoc) at later in
    ap (λ (x : ℕ). x ∷ gather (range (suc (suc (length ps))) (length qs)) (ps ++ (q ∷ (qs ++ rs))))
      head
    ∙ ap (◌∷◌ q) tail

abbrev fits : ℕ → List ℕ → Bool
fits n [] = true
fits n (i ∷ is) = ltb (i - 1) n && fits n is

Fits-fits : (outer inner : List ℕ) → fits (length inner) outer ≡ true → Fits outer inner
Fits-fits [] inner h = tt
Fits-fits (i ∷ outer) inner h = (ground arith, Fits-fits outer inner (ground arith))

-- The two halves of the first permutation read the inverse permutation's two arguments back.
permuted :
    (gather (take 32 ip_tab) inverse_ip_tab ≡ range 1 32)
    × (gather (drop 32 ip_tab) inverse_ip_tab ≡ range 33 32)
    × (gather inverse_ip_tab ip_tab ≡ range 1 64)
unfolding gather at range
permuted = (refl, refl, refl)

permuted_Fits :
    Fits (take 32 ip_tab) inverse_ip_tab
    × Fits (drop 32 ip_tab) inverse_ip_tab
    × Fits inverse_ip_tab ip_tab
permuted_Fits = (
  Fits-fits (take 32 ip_tab) inverse_ip_tab refl,
  Fits-fits (drop 32 ip_tab) inverse_ip_tab refl,
  Fits-fits inverse_ip_tab ip_tab refl,
)

pub left_half :
    (ll rr : Bits)
    → length ll ≡ 32
    → gather (take 32 ip_tab) (gather inverse_ip_tab (ll ++ rr)) ≡ ll
left_half ll rr h =
    gather-gather (take 32 ip_tab) inverse_ip_tab (ll ++ rr) permuted_Fits.0
    ∙ ap (λ (t : List ℕ). gather t (ll ++ rr)) permuted.0
    ∙ ap (λ (n : ℕ). gather (range 1 n) (ll ++ rr)) (sym h)
    ∙ gather-range [] ll rr

pub right_half :
    (ll rr : Bits)
    → length ll ≡ 32
    → length rr ≡ 32
    → gather (drop 32 ip_tab) (gather inverse_ip_tab (ll ++ rr)) ≡ rr
right_half ll rr h k =
    let n : suc (length ll) ≡ 33 = omega (arith, h) in
    gather-gather (drop 32 ip_tab) inverse_ip_tab (ll ++ rr) permuted_Fits.1
    ∙ ap (λ (t : List ℕ). gather t (ll ++ rr)) permuted.1
    ∙ ap (λ (m : ℕ). gather (range m 32) (ll ++ rr)) (sym n)
    ∙ ap (λ (m : ℕ). gather (range (suc (length ll)) m) (ll ++ rr)) (sym k)
    ∙ ap (λ (x : Bits). gather (range (suc (length ll)) (length rr)) (ll ++ x))
        (sym (append-nil rr))
    ∙ gather-range ll rr []

gather-append : (s t : List ℕ) (bits : Bits) → gather (s ++ t) bits ≡ gather s bits ++ gather t bits
unfolding gather
gather-append [] t bits = refl
gather-append (i ∷ s) t bits = ap (◌∷◌ (at bits (i - 1))) (gather-append s t bits)

pub whole :
    (buffer : Bits)
    → length buffer ≡ 64
    → gather inverse_ip_tab (gather (take 32 ip_tab) buffer ++ gather (drop 32 ip_tab) buffer)
      ≡ buffer
whole buffer h =
    ap (gather inverse_ip_tab) (sym (gather-append (take 32 ip_tab) (drop 32 ip_tab) buffer))
    ∙ gather-gather inverse_ip_tab ip_tab buffer permuted_Fits.2
    ∙ ap (λ (t : List ℕ). gather t buffer) permuted.2
    ∙ ap (λ (n : ℕ). gather (range 1 n) buffer) (sym h)
    ∙ ap (λ (x : Bits). gather (range 1 (length buffer)) x) (sym (append-nil buffer))
    ∙ gather-range [] buffer []

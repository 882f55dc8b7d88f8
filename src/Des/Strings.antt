-- ===== src/Des/Strings.antt =====
-- Texts without a 0, as C strings.
use oscshell.Base.{
  ℕ, zero, suc, ◌<◌, false, [], ◌∷◌, ◌++◌, take, drop, ◌==◌, ◌≡◌, refl, ap, arith, All-append,
}
use oscshell.Base.Text.{c_string, Bytes}
use oscshell.Des.Bits.{AreBytes}
use oscshell.Des.Hex.{IsText}

pub c_string-IsText : (s : Bytes) → IsText s → c_string s ≡ s
unfolding c_string
c_string-IsText [] h = refl
c_string-IsText (c ∷ s) h =
    let e : (c == 0) ≡ false = ground (arith, h.0.0) in rw e (ap (◌∷◌ c) (c_string-IsText s h.1))

pub AreBytes-IsText : (s : Bytes) → IsText s → AreBytes s
AreBytes-IsText [] h = tt
AreBytes-IsText (c ∷ s) h = (h.0.1, AreBytes-IsText s h.1)

pub IsText-take : (n : ℕ) (s : Bytes) → IsText s → IsText (take n s)
IsText-take zero s h = tt
IsText-take (suc n) [] h = tt
IsText-take (suc n) (c ∷ s) h = (h.0, IsText-take n s h.1)

pub IsText-drop : (n : ℕ) (s : Bytes) → IsText s → IsText (drop n s)
IsText-drop zero s h = h
IsText-drop (suc n) [] h = tt
IsText-drop (suc n) (c ∷ s) h = IsText-drop n s h.1

pub IsText-append : (s t : Bytes) → IsText s → IsText t → IsText (s ++ t)
IsText-append s t h k = All-append (λ c. (0 < c) × (c < 256)) s t h k

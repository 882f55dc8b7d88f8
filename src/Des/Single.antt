-- ===== src/Des/Single.antt =====
-- `sssDES`, `_sssDES`, `singleDES` and `_singleDES` of DBRecord/datasafe.h: one or two blocks, with a
-- key of one or two blocks, and the result in hexadecimal digits. An output buffer is cleared by the
-- caller, so that a call that writes nothing leaves the empty text, or zeros where bytes are read.
use oscshell.Base.{
  ℕ, zero, suc, ◌*◌, ◌&&◌, ◌||◌, [], ◌∷◌, ◌++◌, Option, none, some, if◌then◌else◌, take, drop,
  length, ◌==◌,
}
use oscshell.Base.Text.{Bytes}
use oscshell.Des.Blocks.{des, inverse_des}
use oscshell.Des.Hex.{bcdtoasc, asctobcd}

-- DES ( k1, in, out ); _DES ( k2, out, out ); DES ( k1, out, out )
unfoldable pub triple : Bytes → Bytes → Bytes → Bytes
triple k1 k2 text = des k1 (inverse_des k2 (des k1 text))

unfoldable pub inverse_triple : Bytes → Bytes → Bytes → Bytes
inverse_triple k1 k2 text = inverse_des k1 (des k2 (inverse_des k1 text))

-- `sssDES`; `none` is the return value -1.
unfoldable pub sss_des : Bytes → Bytes → Option Bytes
sss_des key text =
    if length key == 8
    then (if length text == 16
        then some (triple key key (take 8 text) ++ triple key key (drop 8 text))
        else (if length text == 8 then some (des key text) else none))
    else (if length key == 16
        then (if length text == 8
            then some (triple (take 8 key) (drop 8 key) text)
            else (if length text == 16
                then some (
                    triple (take 8 key) (drop 8 key) (take 8 text)
                    ++ triple (take 8 key) (drop 8 key) (drop 8 text))
                else none))
        else none)

-- `_sssDES`
unfoldable pub inverse_sss_des : Bytes → Bytes → Option Bytes
inverse_sss_des key text =
    if length key == 8
    then (if length text == 16
        then some (inverse_triple key key (take 8 text) ++ inverse_triple key key (drop 8 text))
        else (if length text == 8 then some (inverse_des key text) else none))
    else (if length key == 16
        then (if length text == 8
            then some (inverse_triple (take 8 key) (drop 8 key) text)
            else (if length text == 16
                then some (
                    inverse_triple (take 8 key) (drop 8 key) (take 8 text)
                    ++ inverse_triple (take 8 key) (drop 8 key) (drop 8 text))
                else none))
        else none)

unfoldable pub zeros : ℕ → Bytes
zeros zero = []
zeros (suc n) = 0 ∷ zeros n

unfoldable pub or_else : {A : Type 0} → Option A → A → A
or_else none a = a
or_else (some b) a = b

-- `singleDES`
unfoldable pub single_des : Bytes → Bytes → Bytes
single_des key text =
    if (length key == 8 || length key == 16) && (length text == 8 || length text == 16)
    then bcdtoasc (length text * 2) (or_else (sss_des key text) (zeros 50))
    else []

-- `_singleDES` for `in_length` bytes, which are twice as many digits.
unfoldable pub inverse_single_des : Bytes → ℕ → Bytes → Bytes
inverse_single_des key in_length text =
    if (length key == 8 || length key == 16) && (in_length == 8 || in_length == 16)
    then or_else
        (inverse_sss_des key (or_else (asctobcd (take (in_length * 2) text)) (zeros in_length))) []
    else []

-- ===== src/Des/Password.antt =====
-- `randomDES`, `_randomDES`, `encrypt` and `_encrypts` of DBRecord/datasafe.h: the cipher of
-- passwords. A buffer is cleared before it is written, so that a call that writes nothing leaves the
-- empty text.
use oscshell.Base.{
  ℕ, zero, suc, ◌-◌, ◌/◌, ◌||◌, [], ◌∷◌, ◌++◌, if◌then◌else◌, take, drop, length, ltb, leb, ◌==◌,
}
use oscshell.Base.Text.{Bytes, codes, c_string}
use oscshell.Des.Blocks.{at}
use oscshell.Des.Hex.{int_to_hex, hex_to_int}
use oscshell.Des.Single.{single_des, inverse_single_des, zeros}

abbrev pub des_key : Bytes
des_key = codes "@WSX$RFV"

-- `inlen`: 0 stands for a text of 16 bytes or more.
unfoldable pub inlen_of : Bytes → ℕ
inlen_of text = if leb 16 (length text) then 0 else length text

-- `intxt`: one or two blocks. `random` is what `sss_rn_gen` wrote into a cleared buffer.
unfoldable pub padded : Bytes → Bytes → Bytes
padded random text =
    if leb 16 (length text)
    then take 16 text
    else (if ltb (length text) 8
        then text ++ take (8 - length text) random
        else (if ltb 8 (length text)
            then text ++ take (16 - length text) (random ++ zeros 52)
            else text))

-- `randomKey`
unfoldable pub random_key : Bytes → Bytes → ℕ → Bytes
random_key key random inlen = take 3 (drop 5 random) ++ (int_to_hex inlen ∷ take 4 (drop 4 key))

-- `randomDES`, with the 8 bytes of `sss_rn_gen`.
unfoldable pub random_des : Bytes → Bytes → Bytes → Bytes
random_des key random text =
    if length text == 0
    then []
    else (let rk = random_key key random (inlen_of text) in
        let bcdtxt = single_des rk (c_string (padded random text)) in
        single_des key (take 4 rk ++ take 4 (bcdtxt ++ zeros 4)) ++ drop 4 bcdtxt)

-- `_randomDES`
unfoldable pub inverse_random_des : Bytes → Bytes → Bytes
inverse_random_des key text =
    if length text == 28 || length text == 44
    then (let head = inverse_single_des key 8 (take 16 text) in
        let rk = take 4 head ++ take 4 (drop 4 key) in
        let digits = c_string (take 4 (drop 4 head)) ++ c_string (drop 16 text) in
        let bcdtxt = inverse_single_des rk (length digits / 2) digits in
        let lenkey = hex_to_int (at rk 3) in
        if ltb 0 lenkey then c_string (take lenkey bcdtxt) else c_string bcdtxt)
    else []

-- The loop of `encrypt` over `num` whole blocks, and the rest. `random i` is what call number `i` of
-- `sss_rn_gen` gives.
unfoldable pub encrypt_loop : (ℕ → Bytes) → ℕ → ℕ → Bytes → Bytes
encrypt_loop random i zero text =
    if ltb 0 (length text) then c_string (random_des des_key (random i) (c_string text)) else []
encrypt_loop random i (suc num) text =
    c_string (random_des des_key (random i) (c_string (take 16 text)))
    ++ encrypt_loop random (suc i) num (drop 16 text)

unfoldable pub encrypt : (ℕ → Bytes) → Bytes → Bytes
encrypt random text =
    if ltb (length text) 16
    then random_des des_key (random 0) text
    else encrypt_loop random 0 (length text / 16) text

-- The loop of `_encrypts` over `num` blocks of 44 digits, and the rest.
unfoldable pub encrypts_loop : ℕ → Bytes → Bytes
encrypts_loop zero text =
    if ltb 0 (length text) then c_string (inverse_random_des des_key (c_string text)) else []
encrypts_loop (suc num) text =
    c_string (inverse_random_des des_key (c_string (take 44 text)))
    ++ encrypts_loop num (drop 44 text)

-- `_encrypts`, which decrypts.
unfoldable pub encrypts : Bytes → Bytes
encrypts text =
    if ltb (length text) 44
    then inverse_random_des des_key text
    else encrypts_loop (length text / 44) text

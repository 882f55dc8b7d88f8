-- ===== src/Des/Blocks.antt =====
-- DES of one block of 8 bytes, of DBRecord/datasafe.h: `expand0`, `compress0`, the key schedule of
-- `setkeystar`, the rounds of `F`, and `DES` and `_DES`. An array is a list, and the array `K` of
-- round keys, a global of the source, is an argument.
use oscshell.Base.{
  ℕ, zero, suc, ◌+◌, ◌-◌, ◌*◌, ◌/◌, ◌%◌, List, [], ◌∷◌, ◌++◌, take, drop, map, flat_map,
}
use mathlib.Core.List.{reverse}
use oscshell.Base.Text.{Bytes}
use oscshell.Des.Tables.{
  pc_1_c, pc_1_d, pc_2, ls_count, ip_tab, inverse_ip_tab, e_r, p_tab, s_boxes,
}

-- A list of bits, each 0 or 1.
abbrev pub Bits : Type 0
Bits = List ℕ

-- An element of an array. Every index of the source is in range.
unfoldable pub at : List ℕ → ℕ → ℕ
at [] i = 0
at (x ∷ xs) zero = x
at (x ∷ xs) (suc i) = at xs i

-- for (i) out[i] = in[table[i] - 1]
unfoldable pub gather : List ℕ → Bits → Bits
gather table bits = map (λ i. at bits (i - 1)) table

-- `n` bits of a byte, from that of weight `divide` down.
unfoldable pub bits_loop : ℕ → ℕ → ℕ → Bits
bits_loop zero divide b = []
bits_loop (suc n) divide b = b / divide % 2 ∷ bits_loop n (divide / 2) b

unfoldable pub expand0 : Bytes → Bits
expand0 text = flat_map (bits_loop 8 0x80) text

-- The sum of the next `n` bits with their weights, in an `unsigned char`.
unfoldable pub byte_loop : ℕ → ℕ → ℕ → Bits → ℕ
byte_loop zero times sum bits = sum
byte_loop (suc n) times sum [] = sum
byte_loop (suc n) times sum (b ∷ bits) = byte_loop n (times / 2) ((sum + b * times) % 256) bits

-- The next `n` bytes.
unfoldable pub compress_loop : ℕ → Bits → Bytes
compress_loop zero bits = []
compress_loop (suc n) bits = byte_loop 8 0x80 0 bits ∷ compress_loop n (drop 8 bits)

unfoldable pub compress0 : Bits → Bytes
compress0 bits = compress_loop 8 bits

unfoldable pub range : ℕ → ℕ → List ℕ
range start zero = []
range start (suc n) = start ∷ range (suc start) n

-- `LS`
unfoldable pub rotate : Bits → ℕ → Bits
rotate bits count = map (λ i. at bits ((i + count) % 28)) (range 0 28)

-- `son`
unfoldable pub son : Bits → Bits → Bits
son cc dd = gather pc_2 (cc ++ dd)

-- The loop of `setkeystar` over `ls_count`.
unfoldable pub key_loop : List ℕ → Bits → Bits → List Bits
key_loop [] c d = []
key_loop (count ∷ counts) c d =
    son (rotate c count) (rotate d count) ∷ key_loop counts (rotate c count) (rotate d count)

-- The round keys K[1] to K[16].
unfoldable pub setkeystar : Bits → List Bits
setkeystar bits = key_loop ls_count (gather pc_1_c bits) (gather pc_1_d bits)

-- (a[i] + b[i]) & 1
unfoldable pub add_bits : Bits → Bits → Bits
add_bits [] bs = []
add_bits (a ∷ xs) [] = []
add_bits (a ∷ xs) (b ∷ bs) = (a + b) % 2 ∷ add_bits xs bs

-- The four bits that the box `box` has for six bits from `j` on.
unfoldable pub s_bits : List ℕ → Bits → ℕ → Bits
s_bits box aa j =
    let y = at aa j * 2 + at aa (j + 5) in
    let z = at aa (j + 1) * 8 + at aa (j + 2) * 4 + at aa (j + 3) * 2 + at aa (j + 4) in
    bits_loop 4 0x08 (at box (y * 16 + z))

unfoldable pub s_box : List (List ℕ) → Bits → ℕ → Bits
s_box [] aa j = []
s_box (box ∷ boxes) aa j = s_bits box aa j ++ s_box boxes aa (j + 6)

-- What `F` adds to the left half.
unfoldable pub mix : Bits → Bits → Bits
mix k rr = gather p_tab (s_box s_boxes (add_bits (gather e_r rr) k) 0)

-- `F`: the halves of the next round.
unfoldable pub f : Bits → Bits → Bits → Bits × Bits
f k ll rr = (rr, add_bits (mix k rr) ll)

unfoldable pub ip : Bytes → Bits × Bits
ip text =
    let buffer = expand0 text in (gather (take 32 ip_tab) buffer, gather (drop 32 ip_tab) buffer)

-- `_ip`
unfoldable pub inverse_ip : Bits → Bits → Bits
inverse_ip ll rr = gather inverse_ip_tab (ll ++ rr)

unfoldable pub rounds : List Bits → Bits × Bits → Bits × Bits
rounds [] s = s
rounds (k ∷ keys) (ll, rr) = rounds keys (f k ll rr)

unfoldable pub finish : Bits × Bits → Bytes
finish (ll, rr) = compress0 (inverse_ip rr ll)

unfoldable pub encrypt0 : List Bits → Bytes → Bytes
encrypt0 keys text = finish (rounds keys (ip text))

unfoldable pub discrypt0 : List Bits → Bytes → Bytes
discrypt0 keys mtext = finish (rounds (reverse keys) (ip mtext))

-- `DES`
unfoldable pub des : Bytes → Bytes → Bytes
des key text = encrypt0 (setkeystar (expand0 key)) text

-- `_DES`
unfoldable pub inverse_des : Bytes → Bytes → Bytes
inverse_des key text = discrypt0 (setkeystar (expand0 key)) text

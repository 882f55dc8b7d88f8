-- ===== src/Oracle/AckText.antt =====
-- The message of an error, as `DecodeTnsData0401` reads it.
use oscshell.Base.{
  ℕ, zero, suc, ◌+◌, ◌-◌, ◌≤◌, ◌<◌, Bool, true, false, ◌&&◌, ◌||◌, [], ◌∷◌, ◌++◌, some, map,
  if◌then◌else◌, drop, length, get_elem?, ltb, leb, ◌==◌, ◌≡◌, refl, sym, ap, ◌∙◌, arith,
}
use oscshell.Base.Int.{pos}
use oscshell.Base.Text.{Bytes, Lacks, c_string}
use oscshell.Oracle.Printed.{read_bytes-append}
use oscshell.Oracle.Ack.{
  Peer, length_place, message_place, copy_into, zero_bytes, blank, blanked, is_refused_byte,
  decode_message, decode_tns_data0401,
}

zero_bytes-clear :
    (word size : ℕ) → word ≤ size → zero_bytes word ++ drop word (zero_bytes size) ≡ zero_bytes size
unfolding zero_bytes
zero_bytes-clear zero size h = refl
zero_bytes-clear (suc word) zero h = absurd (omega arith)
zero_bytes-clear (suc word) (suc size) h =
    ap (λ (s : Bytes). 0 ∷ s) (zero_bytes-clear word size (omega arith))

drop-zero_bytes : (n size : ℕ) → n < size → drop n (zero_bytes size) ≡ 0 ∷ zero_bytes (size - n - 1)
unfolding zero_bytes
drop-zero_bytes n zero h = absurd (omega arith)
drop-zero_bytes zero (suc size) h = ap (λ (k : ℕ). 0 ∷ zero_bytes k) (omega arith)
drop-zero_bytes (suc n) (suc size) h =
    drop-zero_bytes n size (omega arith) ∙ ap (λ (k : ℕ). 0 ∷ zero_bytes k) (omega arith)

length-zero_bytes : (n : ℕ) → length (zero_bytes n) ≡ n
unfolding zero_bytes
length-zero_bytes zero = refl
length-zero_bytes (suc n) = ap suc (length-zero_bytes n)

blanked-text : (m t : Bytes) → Lacks 0 m → blanked (m ++ (0 ∷ t)) ≡ some (map blank m ++ (0 ∷ t))
unfolding blanked
blanked-text [] t h = refl
blanked-text (c ∷ m) t h =
    let e : (c == 0) ≡ false = ground (arith, h.0) in rw e (rw (blanked-text m t h.1) refl)

c_string-blank : (m t : Bytes) → Lacks 0 m → c_string (map blank m ++ (0 ∷ t)) ≡ map blank m
unfolding c_string
c_string-blank [] t h = refl
c_string-blank (c ∷ m) t h =
    let e : (blank c == 0) ≡ false = kept in
    rw e (ap (λ (s : Bytes). blank c ∷ s) (c_string-blank m t h.1))
  where
    kept : (blank c == 0) ≡ false
    kept = unfold blank in ground (arith, h.0)

-- An answer with a message in it.
abbrev pub answer_of : Bytes → Bytes → Bytes → Bytes
answer_of head m behind = head ++ (length m ∷ (m ++ behind))

get_elem?-head :
    (head : Bytes) (c : ℕ) (s : Bytes) → get_elem? (head ++ (c ∷ s)) (length head) ≡ some c
get_elem?-head [] c s = refl
get_elem?-head (x ∷ head) c s = get_elem?-head head c s

drop-head : (head : Bytes) (c : ℕ) (s : Bytes) → drop (length head + 1) (head ++ (c ∷ s)) ≡ s
drop-head [] c s = refl
drop-head (x ∷ head) c s = ap (λ (k : ℕ). drop k (x ∷ (head ++ (c ∷ s)))) same ∙ drop-head head c s
  where
    same : suc (length head) + 1 ≡ suc (length head + 1)
    same = omega arith

copy_into-text :
    (array s behind : Bytes)
    → length s ≤ length array
    → copy_into array (length s) (s ++ behind) ≡ some (s ++ drop (length s) array)
unfolding copy_into
copy_into-text array s behind h =
    let e : leb (length s) (length array) ≡ true = ground arith in
    rw (read_bytes-append s behind) (rw e refl)

if-false : {A : Type 0} (b : Bool) (x y : A) → b ≡ false → (if b then x else y) ≡ y
if-false b x y e = rw e refl

message_place-answer_of :
    (peer : Peer) (head m behind : Bytes)
    → 0 < length m
    → length head ≡ length_place peer
    → message_place peer (answer_of head m behind) ≡ some (length_place peer + 1, length m)
unfolding message_place
message_place-answer_of peer head m behind some_byte place =
    let at : get_elem? (answer_of head m behind) (length_place peer) ≡ some (length m) =
      ap (get_elem? (answer_of head m behind)) (sym place)
      ∙ get_elem?-head head (length m) (m ++ behind) in
    let some_length : (peer.is_wide && length m == 0) ≡ false = ground arith in
    rw at (if-false (peer.is_wide && length m == 0) _ _ some_length)

decode_message-answer_of :
    (peer : Peer) (head m behind : Bytes) (c size : ℕ)
    → length head ≡ length_place peer
    → Lacks 0 (c ∷ m)
    → 32 ≤ c
    → c < 128
    → suc (length m) < size
    → peer.word ≤ size
    → decode_message peer (answer_of head (c ∷ m) behind) (zero_bytes size)
      ≡ some (pos 0, map blank (c ∷ m) ++ (0 ∷ zero_bytes (size - suc (length m) - 1)))
unfolding decode_message is_refused_byte
decode_message-answer_of peer head m behind c size place text low high fits word =
    let msg = c ∷ m in
    let t = zero_bytes (size - suc (length m) - 1) in
    let rest : drop (length_place peer + 1) (answer_of head msg behind) ≡ msg ++ behind =
      ap (λ (k : ℕ). drop (k + 1) (answer_of head msg behind)) (sym place)
      ∙ drop-head head (length msg) (msg ++ behind) in
    let cleared = zero_bytes-clear peer.word size word in
    let copied : copy_into (zero_bytes size) (length msg) (msg ++ behind) ≡ some (msg ++ (0 ∷ t)) =
      copy_into-text (zero_bytes size) msg behind (omega (arith, length-zero_bytes size, fits))
      ∙ ap (λ (s : Bytes). some (msg ++ s)) (drop-zero_bytes (suc (length m)) size fits) in
    let printable : ((ltb c 32 || leb 128 c) || suc (length m) == 0) ≡ false = ground arith in
    rw (message_place-answer_of peer head msg behind (omega arith) place)
      (rw rest (rw cleared (rw copied (rw printable (rw (blanked-text msg t text) refl)))))

-- What stands in front of the length: fields of 41 bytes, and a gap that the version decides on.
abbrev pub header_size : Peer → ℕ
header_size peer = 41 + (if peer.is_wide then (if peer.is_nine then 21 else 23) else 53)

header_size-length_place : (peer : Peer) → header_size peer ≡ length_place peer
unfolding length_place
header_size-length_place peer = go peer.is_wide peer.is_nine
  where
    go :
        (wide nine : Bool)
        → 41 + (if wide then (if nine then 21 else 23) else 53)
          ≡ (if wide then (if nine then 62 else 64) else 94)
    go true true = refl
    go true false = refl
    go false nine = refl

-- A message of 1 to 255 bytes, the first of them printable and none of them 0, that stands behind the
-- structure with its length as the last byte, is left as a text in an array of zeros, with spaces for
-- line ends; the array is larger than the message and than a pointer.
pub decode_tns_data0401-answer_of :
    (peer : Peer) (head m behind : Bytes) (c size : ℕ)
    → peer.is_jdbc ≡ false
    → length head ≡ header_size peer
    → Lacks 0 (c ∷ m)
    → 32 ≤ c
    → c < 128
    → suc (length m) < size
    → peer.word ≤ size
    → (out : Bytes) × (decode_tns_data0401 peer (answer_of head (c ∷ m) behind) (zero_bytes size)
        ≡ some (pos 0, out))
      × (c_string out ≡ map blank (c ∷ m))
unfolding decode_tns_data0401
decode_tns_data0401-answer_of peer head m behind c size no_jdbc place text low high fits word =
    let t = zero_bytes (size - suc (length m) - 1) in
    (
      map blank (c ∷ m) ++ (0 ∷ t),
      if-false peer.is_jdbc _ _ no_jdbc
          ∙ decode_message-answer_of peer head m behind c size
              (place ∙ header_size-length_place peer) text low high fits word,
      c_string-blank (c ∷ m) t text,
    )

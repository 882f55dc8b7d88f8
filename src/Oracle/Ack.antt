-- ===== src/Oracle/Ack.antt =====
-- `DecodeTnsData0401` of OracleProxy/oraclefilter.c, which takes the message of an error out of the
-- server's answer. `none` is a byte read behind the packet, or written behind the array.
use oscshell.Base.{
  ℕ, zero, suc, ◌+◌, Bool, ◌&&◌, ◌||◌, [], ◌∷◌, ◌++◌, Option, none, some, if◌then◌else◌, ◌>>=◌,
  drop, length, get_elem?, ltb, leb, ◌==◌,
}
use oscshell.Base.Int.{ℤ, pos, negsuc}
use oscshell.Base.Text.{Bytes, codes, contains}
use oscshell.Oracle.Strings.{until_zero}
use oscshell.Oracle.Cell.{read_bytes}

-- `isjdbc`, bitversion == 64, iversion == 9, and the size of a pointer.
pub record Peer : Type 0 where
  pub is_jdbc : Bool
  pub is_wide : Bool
  pub is_nine : Bool
  pub word : ℕ

-- The place of `uErrMsgLen`, the last byte of the structure.
unfoldable pub length_place : Peer → ℕ
length_place peer = if peer.is_wide then (if peer.is_nine then 62 else 64) else 94

-- Where the message begins, and its length.
unfoldable pub message_place : Peer → Bytes → Option (ℕ × ℕ)
message_place peer packet =
    let start = if peer.is_nine then 77 else 79 in
    let longer = (do
      n ← get_elem? packet 78
      s ← until_zero (drop start packet)
      some (start, if contains s (codes "ORA-01465") then n else 0)) in
    do
      n ← get_elem? packet (length_place peer)
      if peer.is_wide && n == 0 then longer else some (length_place peer + 1, n)

-- `memcpy` into an array.
unfoldable pub copy_into : Bytes → ℕ → Bytes → Option Bytes
copy_into array n s = do
  bytes ← read_bytes n s
  if leb n (length array) then some (bytes ++ drop n array) else none

unfoldable pub zero_bytes : ℕ → Bytes
zero_bytes zero = []
zero_bytes (suc n) = 0 ∷ zero_bytes n

-- Line ends become spaces, up to the first 0.
unfoldable pub blank : ℕ → ℕ
blank c = if c == b'\r' || c == b'\n' then b' ' else c

unfoldable pub blanked : Bytes → Option Bytes
blanked [] = none
blanked (c ∷ s) =
    let rest = (do r ← blanked s; some (blank c ∷ r)) in if c == 0 then some (c ∷ s) else rest

-- *pszQueryStr < 0x20 || *pszQueryStr > 0x80, for a signed byte.
unfoldable pub is_refused_byte : ℕ → Bool
is_refused_byte c = ltb c 32 || leb 128 c

-- The answer to a client without JDBC. `memset` clears as many bytes as a pointer has.
unfoldable pub decode_message : Peer → Bytes → Bytes → Option (ℤ × Bytes)
decode_message peer packet array = do
  (start, n) ← message_place peer packet
  query_str ← copy_into (zero_bytes peer.word ++ drop peer.word array) n (drop start packet)
  first ← get_elem? query_str 0
  out ← (if is_refused_byte first || n == 0 then some query_str else blanked query_str)
  some ((if is_refused_byte first || n == 0 then negsuc 0 else pos 0), out)

-- The answer to a JDBC client, with a length that is a signed byte.
unfoldable pub decode_message_jdbc : Bytes → Bytes → Option (ℤ × Bytes)
decode_message_jdbc packet array = do
  n ← get_elem? packet 30
  query_str ← (if ltb n 128 then copy_into array n (drop 31 packet) else none)
  first ← get_elem? query_str 0
  some ((if is_refused_byte first then negsuc 0 else pos 0), query_str)

-- `DecodeTnsData0401`: the value returned, and the array.
unfoldable pub decode_tns_data0401 : Peer → Bytes → Bytes → Option (ℤ × Bytes)
decode_tns_data0401 peer packet array =
    if peer.is_jdbc then decode_message_jdbc packet array else decode_message peer packet array

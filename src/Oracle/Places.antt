-- ===== src/Oracle/Places.antt =====
-- Where `DecodeTnsData035e` of OracleProxy/oraclefilter.c looks for the statement in a request. A
-- byte behind the packet cannot be read, which is `none`.
use oscshell.Base.{
  ℕ, zero, suc, ◌+◌, ◌-◌, ◌*◌, Bool, true, false, not, ◌&&◌, [], ◌∷◌, Option, none, some,
  if◌then◌else◌, ◌>>=◌, drop, get_elem?, ltb, leb, ◌==◌,
}
use oscshell.Base.Text.{Bytes}

-- The globals that the connection and the first replies have set: `iversion`, `bitversion`,
-- `istoad` and `isplsql`.
pub record Client : Type 0 where
  pub iversion : ℕ
  pub bitversion : ℕ
  pub istoad : Bool
  pub isplsql : Bool

-- The next `n` bytes are 0.
unfoldable pub zeros_next : ℕ → Bytes → Option Bool
zeros_next zero s = some true
zeros_next (suc n) [] = none
zeros_next (suc n) (c ∷ s) = let rest = zeros_next n s in if c == 0 then rest else some false

-- The place behind the first five zeros, from `i` on.
unfoldable pub behind_zeros : ℕ → Bytes → Option ℕ
behind_zeros i [] = none
behind_zeros i (c ∷ s) = do
  hit ← zeros_next 5 (c ∷ s)
  let rest = behind_zeros (suc i) s
  if hit then some (i + 5) else rest

-- `i` before the search.
unfoldable pub first_place : Client → Bytes → Option ℕ
first_place client buf =
    if client.bitversion == 64
    then (if client.iversion == 9
        then some 48
        else (if client.iversion == 11
            then (do i ← behind_zeros 28 (drop 28 buf); some (i + 21))
            else (if client.iversion == 10 then some 31 else some 54)))
    else (if client.iversion == 11 && client.istoad
        then some 113
        else (if client.iversion == 9 then some 81 else some 93))

-- `findfe40`: the first place of 0xfe 0x40, from `j` on, in `n` places; 0 if there is none.
unfoldable pub find_fe40 : ℕ → ℕ → Bytes → Option ℕ
find_fe40 zero j buf = some 0
find_fe40 (suc n) j [] = none
find_fe40 (suc n) j (c ∷ []) = if c == 0xfe then none else find_fe40 n (suc j) []
find_fe40 (suc n) j (c ∷ d ∷ s) =
    let rest = find_fe40 n (suc j) (d ∷ s) in if c == 0xfe && d == 0x40 then some j else rest

-- Two bytes, the higher first.
unfoldable pub word_at : Bytes → ℕ → Option ℕ
word_at buf i = do a ← get_elem? buf i; b ← get_elem? buf (i + 1); some (a * 256 + b)

-- The bytes at `i` are `a` and `b`; the second is read only if the first agrees.
unfoldable pub are_at : Bytes → ℕ → ℕ → ℕ → Option Bool
are_at buf i a b = do
  c ← get_elem? buf i
  let second = do d ← get_elem? buf (i + 1); some (d == b)
  if c == a then second else some false

-- A length of one or two bytes, as `sqllentype` says.
unfoldable pub length_at : ℕ → Bytes → ℕ → Option ℕ
length_at kind buf i = if kind == 1 then get_elem? buf i else word_at buf i

-- What is added to `offset`, and not to `data`, for some versions.
unfoldable pub skipped : Client → ℕ → ℕ
skipped client offset =
    if client.iversion == 10
    then (if client.istoad then offset else (if client.isplsql then offset + 4 - 1 else offset + 4))
    else (if client.iversion == 9 && (not client.istoad && not client.isplsql)
        then offset + 1
        else offset)

-- `data` and `offset` where the length is repeated.
unfoldable pub repeated : Client → Bytes → ℕ → ℕ → Option (ℕ × ℕ)
repeated client buf place offset = do
  one ← are_at buf place 1 0
  let other = do
    zero_one ← are_at buf place 0 1
    if zero_one && (client.iversion == 10 && client.istoad)
        then some (place, offset + 3)
        else some (place, offset)
  if one
      then (if client.bitversion == 64 && (client.iversion == 10 && client.istoad)
          then some (place + 5, offset + 5)
          else some (place + 2, offset + 2))
      else other

-- The place that a length of `kind` bytes at `place` leads to, if the length is repeated.
unfoldable pub place_behind : Client → Bytes → ℕ → ℕ → Option (Option ℕ)
place_behind client buf kind place = do
  sqllen ← length_at kind buf place
  let behind = place + kind + 17
  (again, offset) ← repeated client buf behind (skipped client behind)
  sqllenrel ← length_at kind buf again
  let agrees = if kind == 1 then leb sqllenrel sqllen else sqllenrel == sqllen
  some (if agrees then some offset else none)

-- The search of versions 9 and 10: `none` inside leaves `i`.
unfoldable pub place_by_length : Client → Bytes → ℕ → Option (Option ℕ)
place_by_length client buf query_len = do
  len ← get_elem? buf 1
  let at_mark = do
    marked ← are_at buf (2 + len) 0 1
    let by_kind = do
      kind ← get_elem? buf (4 + len)
      let found = place_behind client buf kind (5 + len)
      if kind == 1 then found else (if kind == 2 then found else some none)
    if marked then by_kind else some none
  if ltb len query_len then at_mark else some none

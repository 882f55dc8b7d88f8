-- ===== src/Audit/Sql.antt =====
-- How a database reads the values of an INSERT statement: a string ends at a quote that is neither
-- doubled nor behind a backslash.
use oscshell.Base.{
  ℕ, zero, suc, ◌+◌, ◌<◌, false, ◌≢◌, List, [], ◌∷◌, ◌++◌, Option, none, some, All, if◌then◌else◌,
  ◌>>=◌, drop, length, ◌==◌, ◌≡◌, refl, ap, ◌∙◌, arith, append_assoc, append-nil,
  drop-length-append, length-append,
}
use oscshell.Base.Text.{Bytes, Lacks, codes, starts_with, starts_with-append, str_eq}
use oscshell.Audit.Statement.{
  Value, quoted, null, time, print_value, print_values, print_tight, insert_into,
}

-- What follows `p`.
abbrev pub strip : Bytes → Bytes → Option Bytes
strip p s = if starts_with p s then some (drop (length p) s) else none

pub strip-append : (p s : Bytes) → strip p (p ++ s) ≡ some s
strip-append p s = rw (starts_with-append p s) (ap some (drop-length-append p s))

abbrev with_byte : ℕ → Option (Bytes × Bytes) → Option (Bytes × Bytes)
with_byte c none = none
with_byte c (some (s, rest)) = some (c ∷ s, rest)

abbrev with_value : Value → Option (List Value) → Option (List Value)
with_value v none = none
with_value v (some vs) = some (v ∷ vs)

abbrev as_value : (Bytes → Value) → Option (Bytes × Bytes) → Option (Value × Bytes)
as_value f none = none
as_value f (some (s, rest)) = some (f s, rest)

-- What follows a value: a comma, with a space or without, and more values, or the end.
abbrev pub read_more : (Bytes → Option (List Value)) → Value → Bytes → Option (List Value)
read_more next v rest = elim (strip (codes ", ") rest) [
  | some more ↦ with_value v (next more)
  | none ↦ elim (strip (codes ",") rest) [
    | some more ↦ with_value v (next more)
    | none ↦ if str_eq rest (codes ");") then some (v ∷ []) else none
  ]
]

-- `escape c` is the byte that a backslash and `c` stand for.
module _ (escape : ℕ → ℕ) where
  -- The string behind an opening quote, and what follows the closing one.
  abbrev pub read_string : Bytes → Option (Bytes × Bytes)
  read_string [] = none
  read_string (c ∷ []) = if c == b'\'' then some ([], []) else none
  read_string (c ∷ (d ∷ s)) =
      let skipped = read_string s in
      let next = read_string (d ∷ s) in
      if c == b'\''
      then (if d == b'\'' then with_byte c skipped else some ([], d ∷ s))
      else (if c == b'\\' then with_byte (escape d) skipped else with_byte c next)

  abbrev pub read_value : Bytes → Option (Value × Bytes)
  read_value s =
      if starts_with (codes "'") s
      then as_value quoted (read_string (drop 1 s))
      else (if starts_with (codes "null") s then some (null, drop 4 s) else (do
        inside ← strip (codes "to_date('") s
        (t, behind) ← read_string inside
        rest ← strip (codes ",'yyyy-mm-dd hh24:mi:ss')") behind
        some (time t, rest)))

  -- Values up to the end of the statement.
  abbrev pub read_values : ℕ → Bytes → Option (List Value)
  read_values zero s = none
  read_values (suc n) s = do (v, rest) ← read_value s; read_more (read_values n) v rest

  abbrev pub read_insert : Bytes → Bytes → Option (List Value)
  read_insert table sql = do
    named ← strip (codes "INSERT INTO ") sql
    behind ← strip table named
    values ← strip (codes " VALUES (") behind
    read_values (length values) values

-- No byte of the text means anything inside quotes.
pub record IsPlain (s : Bytes) : Type 0 where
  pub no_quote : Lacks b'\'' s
  pub no_backslash : Lacks b'\\' s

abbrev pub IsPlainValue : Value → Type 0
IsPlainValue (quoted s) = IsPlain s
IsPlainValue null = Unit
IsPlainValue (time s) = IsPlain s

module _ (escape : ℕ → ℕ) where
  read_string-plain :
      (s rest : Bytes) (e : ℕ)
      → Lacks b'\'' s
      → Lacks b'\\' s
      → e ≢ b'\''
      → read_string escape (s ++ (b'\'' ∷ (e ∷ rest))) ≡ some (s, e ∷ rest)
  read_string-plain [] rest e q b h = let f : (e == b'\'') ≡ false = ground arith in rw f refl
  read_string-plain (c ∷ []) rest e q b h =
      let f : (c == b'\'') ≡ false = ground (arith, q.0) in
      let g : (c == b'\\') ≡ false = ground (arith, b.0) in
      rw f (rw g (rw (read_string-plain [] rest e q.1 b.1 h) refl))
  read_string-plain (c ∷ (d ∷ s)) rest e q b h =
      let f : (c == b'\'') ≡ false = ground (arith, q.0) in
      let g : (c == b'\\') ≡ false = ground (arith, b.0) in
      rw f (rw g (rw (read_string-plain (d ∷ s) rest e q.1 b.1 h) refl))

  pub read_value-print_value :
      (v : Value) (rest : Bytes) (e : ℕ)
      → IsPlainValue v
      → e ≢ b'\''
      → read_value escape (print_value v ++ (e ∷ rest)) ≡ some (v, e ∷ rest)
  unfolding print_value
  read_value-print_value (quoted s) rest e h ne =
      rw (append_assoc s (codes "'") (e ∷ rest))
        (rw (read_string-plain s rest e h.no_quote h.no_backslash ne) refl)
  read_value-print_value null rest e h ne = refl
  read_value-print_value (time s) rest e h ne =
      rw (append_assoc s (codes "','yyyy-mm-dd hh24:mi:ss')") (e ∷ rest)) (
        rw
          (read_string-plain s (codes "'yyyy-mm-dd hh24:mi:ss')" ++ (e ∷ rest)) b',' h.no_quote
            h.no_backslash (omega arith))
          refl)

  read_more-tight :
      (next : Bytes → Option (List Value)) (v w : Value) (t : Bytes)
      → read_more next v (b',' ∷ (print_value w ++ t)) ≡ with_value v (next (print_value w ++ t))
  unfolding print_value
  read_more-tight next v (quoted s) t = refl
  read_more-tight next v null t = refl
  read_more-tight next v (time s) t = refl

  read_values-print_tight :
      (n : ℕ) (v : Value) (ws : List Value)
      → length ws < n
      → IsPlainValue v
      → All IsPlainValue ws
      → read_values escape n (print_value v ++ print_tight ws) ≡ some (v ∷ ws)
  unfolding print_tight
  read_values-print_tight zero v ws h p ps = absurd (omega arith)
  read_values-print_tight (suc n) v [] h p ps =
      rw (read_value-print_value v (codes ";") b')' p (omega arith)) refl
  read_values-print_tight (suc n) v (w ∷ ws) h p ps =
      let rest = print_value w ++ print_tight ws in
      rw (read_value-print_value v rest b',' p (omega arith)) (
        rw (read_more-tight (read_values escape n) v w (print_tight ws))
          (rw (read_values-print_tight n w ws (omega arith) ps.0 ps.1) refl))

  read_values-print_values :
      (n : ℕ) (v : Value) (vs ws : List Value)
      → length vs + length ws < n
      → IsPlainValue v
      → All IsPlainValue vs
      → All IsPlainValue ws
      → read_values escape n (print_values (v ∷ vs) (print_tight ws)) ≡ some ((v ∷ vs) ++ ws)
  unfolding print_values
  read_values-print_values zero v vs ws h p ps qs = absurd (omega arith)
  read_values-print_values (suc n) v [] ws h p ps qs =
      read_values-print_tight (suc n) v ws (omega arith) p qs
  read_values-print_values (suc n) v (w ∷ vs) ws h p ps qs =
      let rest = print_values (w ∷ vs) (print_tight ws) in
      rw (read_value-print_value v (b' ' ∷ rest) b',' p (omega arith))
        (rw (read_values-print_values n w vs ws (omega arith) ps.0 ps.1 qs) refl)

  length-print_tight : (ws : List Value) → length ws < length (print_tight ws)
  unfolding print_tight
  length-print_tight [] = omega arith
  length-print_tight (w ∷ ws) =
      omega (arith, length-append (print_value w) (print_tight ws), length-print_tight ws)

  length-print_values :
      (v : Value) (vs ws : List Value)
      → length vs + length ws < length (print_values (v ∷ vs) (print_tight ws))
  unfolding print_values
  length-print_values v [] ws =
      omega (arith, length-append (print_value v) (print_tight ws), length-print_tight ws)
  length-print_values v (w ∷ vs) ws =
      let rest = print_values (w ∷ vs) (print_tight ws) in
      omega (arith, length-append (print_value v) (codes ", " ++ rest), length-print_values w vs ws)

  -- A statement of plain values is read back as the values it was made of.
  pub read_insert-print_values :
      (table : Bytes) (v : Value) (vs ws : List Value)
      → All IsPlainValue (v ∷ vs)
      → All IsPlainValue ws
      → read_insert escape table (
          codes "INSERT INTO "
          ++ (table ++ (codes " VALUES (" ++ print_values (v ∷ vs) (print_tight ws))))
        ≡ some ((v ∷ vs) ++ ws)
  read_insert-print_values table v vs ws p q =
      let text = print_values (v ∷ vs) (print_tight ws) in
      rw (strip-append table (codes " VALUES (" ++ text))
        (read_values-print_values (length text) v vs ws (length-print_values v vs ws) p.0 p.1 q)

  pub read_insert-insert_into :
      (table : Bytes) (v : Value) (vs : List Value)
      → All IsPlainValue (v ∷ vs)
      → read_insert escape table (insert_into table (v ∷ vs)) ≡ some (v ∷ vs)
  unfolding insert_into print_tight
  read_insert-insert_into table v vs p =
      read_insert-print_values table v vs [] p tt ∙ ap some (append-nil (v ∷ vs))

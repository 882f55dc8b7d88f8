-- ===== src/Oracle/Rounds.antt =====
-- `DecodeTnsData` ends: each command takes at least two bytes of the length given.
use oscshell.Base.{
  ℕ, zero, suc, ◌-◌, ◌≤◌, ◌<◌, [], ◌∷◌, Option, none, some, take, drop, ltb, leb, Bool-cases, inl,
  inr, arith,
}
use oscshell.Base.Int.{ℤ, pos, negsuc}
use oscshell.Base.Text.{Bytes}
use oscshell.Oracle.Places.{Client}
use oscshell.Oracle.Query.{int_minus}
use oscshell.Oracle.Session.{Machine, State, bytes_of}
use oscshell.Oracle.Request.{
  Outcome, decoded, fault, out_of_rounds, to_outcome, behind, and_then, Request, nested, statement,
  close, login, piggyback, skip, other, request_of, last_035e, next_command, size_or, after_mark,
  after_flush, after_login, handle, flush, decode_tns_data035e, decode_tns_data0376,
  decode_tns_data,
}

-- The decoder came to an end, with a packet or with a fault.
abbrev pub Ends : Outcome → Type 0
Ends (decoded st buf) = Unit
Ends fault = Unit
Ends out_of_rounds = ⊥

Ends-behind : (front : Bytes) (o : Outcome) → Ends o → Ends (behind front o)
unfolding behind
Ends-behind front (decoded st buf) h = tt
Ends-behind front fault h = tt
Ends-behind front out_of_rounds h = absurd h

Ends-and_then :
    (o : Outcome) (f : State → Bytes → Outcome)
    → Ends o
    → ((st : State) (buf : Bytes) → Ends (f st buf))
    → Ends (and_then o f)
unfolding and_then
Ends-and_then (decoded st buf) f h e = e st buf
Ends-and_then fault f h e = tt
Ends-and_then out_of_rounds f h e = absurd h

Ends-to_outcome : (o : Option (State × Bytes)) → Ends (to_outcome o)
unfolding to_outcome
Ends-to_outcome none = tt
Ends-to_outcome (some (st, buf)) = tt

Ends-after_login : (buf : Bytes) (o : Option State) → Ends (after_login buf o)
unfolding after_login
Ends-after_login buf none = tt
Ends-after_login buf (some st) = tt

-- A decoder that ends on at most `bound` bytes.
module _ (again : Bytes → ℤ → State → Outcome) (bound : ℕ)
    (ends : (buf : Bytes) (len : ℤ) (st : State)
      → bytes_of len ≤ bound
      → Ends (again buf len st)) where
  Ends-next_command :
      (n size : ℕ) (st : State) (buf : Bytes) → n ≤ bound → Ends (next_command again n size st buf)
  unfolding next_command bytes_of
  Ends-next_command n size st buf h = elim (Bool-cases (ltb size n)) [
    | inl e ↦ rw e (
        Ends-behind (take size buf) (again (drop size buf) (pos (n - size)) st)
          (ends (drop size buf) (pos (n - size)) st (omega arith)))
    | inr e ↦ rw e tt
  ]

  Ends-after_mark :
      (n : ℕ) (st : State) (buf : Bytes) (o : Option (Option ℕ))
      → n ≤ bound
      → Ends (after_mark again n st buf o)
  unfolding after_mark
  Ends-after_mark n st buf none h = tt
  Ends-after_mark n st buf (some found) h = Ends-next_command n (size_or 13 found) st buf h

  Ends-after_flush :
      (n : ℕ) (buf : Bytes) (o : Option State) → n ≤ bound → Ends (after_flush again n buf o)
  unfolding after_flush
  Ends-after_flush n buf none h = tt
  Ends-after_flush n buf (some st) h = Ends-next_command n 1 st buf h

  int_minus_small : (n k : ℕ) → bytes_of (int_minus n k) ≤ n
  unfolding int_minus bytes_of
  int_minus_small n k = elim (Bool-cases (leb k n)) [
    | inl e ↦ rw e (omega arith)
    | inr e ↦ rw e (omega arith)
  ]

  Ends-handle :
      (m : Machine) (client : Client) (r : Request) (n : ℕ) (st : State) (buf : Bytes)
      → n ≤ bound
      → Ends (handle again m client r n st buf)
  unfolding handle
  Ends-handle m client nested n st buf h =
      Ends-and_then (behind (take 9 buf) (again (drop 9 buf) (int_minus n 9) st))
        (next_command again n 0)
        (Ends-behind (take 9 buf) (again (drop 9 buf) (int_minus n 9) st)
          (ends (drop 9 buf) (int_minus n 9) st (omega (arith, int_minus_small n 9))))
        (λ s b. Ends-next_command n 0 s b h)
  Ends-handle m client statement n st buf h =
      Ends-to_outcome (decode_tns_data035e m client buf n st)
  Ends-handle m client close n st buf h = Ends-after_flush n buf (flush m st) h
  Ends-handle m client login n st buf h = Ends-after_login buf (decode_tns_data0376 buf n st)
  Ends-handle m client piggyback zero st buf h = tt
  Ends-handle m client piggyback (suc n) st buf h =
      Ends-after_mark (suc n) st buf (last_035e n 0 buf none) h
  Ends-handle m client (skip size) n st buf h = Ends-next_command n size st buf h
  Ends-handle m client other n st buf h = tt

-- With more rounds than the length has bytes, the decoder of a client's packet comes to an end,
-- although it calls itself twice for a command 0x03 0x02.
pub decode_tns_data-Ends :
    (rounds : ℕ) (m : Machine) (client : Client) (buf : Bytes) (len : ℤ) (st : State)
    → bytes_of len < rounds
    → Ends (decode_tns_data rounds m client buf len st)
unfolding decode_tns_data bytes_of
decode_tns_data-Ends zero m client buf len st h = absurd (omega arith)
decode_tns_data-Ends (suc rounds) m client buf (negsuc len) st h = tt
decode_tns_data-Ends (suc rounds) m client [] (pos len) st h = elim (Bool-cases (ltb len 2)) [
  | inl e ↦ rw e tt
  | inr e ↦ rw e tt
]
decode_tns_data-Ends (suc rounds) m client (c ∷ []) (pos len) st h = elim (Bool-cases (ltb len 2)) [
  | inl e ↦ rw e tt
  | inr e ↦ rw e tt
]
decode_tns_data-Ends (suc rounds) m client (c ∷ d ∷ buf) (pos len) st h =
    elim (Bool-cases (ltb len 2)) [
      | inl e ↦ rw e tt
      | inr e ↦ rw e (
          Ends-behind (c ∷ d ∷ [])
            (handle (decode_tns_data rounds m client) m client (request_of c d) (len - 2) st buf)
            (Ends-handle (decode_tns_data rounds m client) (len - 2)
              (λ b l s small. decode_tns_data-Ends rounds m client b l s (ground arith)) m client
              (request_of c d) (len - 2) st buf (omega arith)))
    ]

-- ===== src/Oracle/Rewritten.antt =====
-- The packet that a client gets for a redirect packet of the server.
use oscshell.Base.{
  inl, ℕ, ◌+◌, ◌<◌, true, false, [], ◌∷◌, ◌++◌, some, length, ltb, ◌==◌, ◌≡◌, refl, ap, arith,
  length-append, drop-exact,
}
use oscshell.Base.Int.{ℤ, pos}
use oscshell.Base.Text.{Bytes, Lacks, codes, strstr}
use oscshell.Base.Print.{print_int}
use oscshell.Oracle.Address.{
  Address, cut_at, field_at, host_or, port_or, read_address, connect_text,
}
use oscshell.Base.Decimal.{atoi-print_int, print_int-port}

cut_at-append : (c : ℕ) (s t : Bytes) → Lacks c s → cut_at c (s ++ (c ∷ t)) ≡ s
unfolding cut_at
cut_at-append c [] t h = let e : (c == c) ≡ true = ground arith in rw e refl
cut_at-append c (d ∷ s) t h =
    let e : (d == c) ≡ false = ground (arith, h.0) in rw e (ap (◌∷◌ d) (cut_at-append c s t h.1))

-- A text without the first byte of the text sought is passed over.
strstr-skip : (s t p : Bytes) (c : ℕ) → Lacks c s → strstr (s ++ t) (c ∷ p) ≡ strstr t (c ∷ p)
unfolding strstr
strstr-skip [] t p c h = refl
strstr-skip (d ∷ s) t p c h =
    let e : (c == d) ≡ false = ground (arith, h.0) in rw e (strstr-skip s t p c h.1)

-- A host name that a connect string can hold.
pub record IsHost (host : Bytes) : Type 0 where
  pub no_open : Lacks b'(' host
  pub no_close : Lacks b')' host
  pub short : length host < 200

field_at-mark :
    (mark s t : Bytes)
    → length mark ≡ 6
    → Lacks b')' s
    → length s + length t < 255
    → field_at (some (mark ++ (s ++ (b')' ∷ t)))) ≡ some (some s)
unfolding field_at
field_at-mark mark s t n h short =
    let fits : ltb (length (s ++ (b')' ∷ t))) 256 ≡ true =
      ground (arith, length-append s (b')' ∷ t)) in
    rw (drop-exact 6 mark (s ++ (b')' ∷ t)) n)
      (rw fits (ap (λ (x : Bytes). some (some x)) (cut_at-append b')' s t h)))

-- What stands behind the two marks in the connect string.
abbrev behind_host : Bytes → ℕ → Bytes
behind_host host port =
    codes "(HOST=" ++ (host ++ (b')' ∷ (codes "(PORT=" ++ (print_int (pos port) ++ codes "))"))))

abbrev behind_port : ℕ → Bytes
behind_port port = codes "(PORT=" ++ (print_int (pos port) ++ (b')' ∷ codes ")"))

strstr-host :
    (host : Bytes) (port : ℕ)
    → strstr (connect_text host (pos port)) (codes "(HOST=") ≡ some (behind_host host port)
unfolding strstr connect_text
strstr-host host port = refl

strstr-port :
    (host : Bytes) (port : ℕ)
    → Lacks b'(' host
    → strstr (connect_text host (pos port)) (codes "(PORT=") ≡ some (behind_port port)
unfolding strstr connect_text
strstr-port host port h = strstr-skip host (b')' ∷ behind_port port) (codes "PORT=") b'(' h

-- Whatever address was known before, the connect string for the client reads as the address of the
-- proxy.
pub read_address-connect_text :
    (a : Address) (host : Bytes) (port : ℕ)
    → IsHost host
    → port < 100000
    → read_address a (connect_text host (pos port))
      ≡ some (record { new_host = host; new_port = pos port })
unfolding read_address host_or port_or
read_address-connect_text a host port h p =
    let digits = print_int (pos port) in
    let (lacks, short) = print_int-port port b')' p (inl (omega arith)) in
    let host_there : field_at (some (behind_host host port)) ≡ some (some host) =
      field_at-mark (codes "(HOST=") host (codes "(PORT=" ++ (digits ++ codes "))")) refl h.no_close
        (omega (arith, h.short, length-append digits (codes "))"), short)) in
    let port_there : field_at (some (behind_port port)) ≡ some (some digits) =
      field_at-mark (codes "(PORT=") digits (codes ")") refl lacks (omega (arith, short)) in
    rw (strstr-host host port) (
      rw host_there (
        rw (strstr-port host port h.no_open) (
          rw port_there (
            ap (λ (n : ℤ). some (record { new_host = host; new_port = n }))
              (atoi-print_int port p)))))

-- ===== src/Oracle/Relayed.antt =====
-- A redirect packet, and what a proxy makes of it.
use oscshell.Base.{
  inl, ℕ, ◌+◌, ◌*◌, ◌/◌, ◌%◌, ◌<◌, true, false, ◌≢◌, [], ◌∷◌, ◌++◌, some, All-append, length, take,
  ltb, leb, ◌==◌, ◌≡◌, refl, ap, arith, length-append, take-all,
}
use oscshell.Base.Int.{pos}
use oscshell.Base.Text.{Bytes, Lacks, codes, strcpy_fits, c_string}
use oscshell.Oracle.Places.{word_at}
use oscshell.Base.Print.{print_int}
use oscshell.Oracle.Address.{Address, read_address, connect_text}
use oscshell.Base.Decimal.{print_int-port}
use oscshell.Oracle.Redirect.{htons, Proxy, redirect_plain, redirect}
use oscshell.Oracle.Rewritten.{IsHost, read_address-connect_text}

-- The bytes of the header behind its length: two checksums, the type and the flag.
pub record Head : Type 0 where
  pub sum_high : ℕ
  pub sum_low : ℕ
  pub kind : ℕ
  pub flag : ℕ
  pub head_high : ℕ
  pub head_low : ℕ

-- A redirect packet with the connect string `content` in it.
abbrev pub packet_of : Head → Bytes → Bytes
packet_of h content =
    htons (10 + length content)
    ++ (h.sum_high
        ∷ h.sum_low
        ∷ h.kind
        ∷ h.flag
        ∷ h.head_high
        ∷ h.head_low
        ∷ (htons (length content) ++ content))

c_string-Lacks : (s : Bytes) → Lacks 0 s → c_string s ≡ s
unfolding c_string
c_string-Lacks [] h = refl
c_string-Lacks (c ∷ s) h =
    let e : (c == 0) ≡ false = ground (arith, h.0) in rw e (ap (◌∷◌ c) (c_string-Lacks s h.1))

word_value : (n : ℕ) → n < 65536 → n / 256 % 256 * 256 + n % 256 ≡ n
word_value n h = omega arith

lengths_at :
    (h : Head) (content : Bytes)
    → length content < 1024
    → (word_at (packet_of h content) 0 ≡ some (10 + length content))
      × (word_at (packet_of h content) 8 ≡ some (length content))
unfolding word_at htons
lengths_at h content short = (
  ap some (word_value (10 + length content) (omega arith)),
  ap some (word_value (length content) (omega arith)),
)

-- The connect string of a proxy fits its array, and has no 0.
connect_text-short :
    (host : Bytes) (port : ℕ)
    → length host < 200
    → Lacks 0 host
    → port < 100000
    → (length (connect_text host (pos port)) < 1024) × Lacks 0 (connect_text host (pos port))
unfolding connect_text
connect_text-short host port h l p =
    let digits = print_int (pos port) in
    let (lacks, short) = print_int-port port 0 p (inl (omega arith)) in
    let tail = codes ")(PORT=" ++ (digits ++ codes "))") in
    (
      omega (arith, length-append host tail, length-append digits (codes "))"), short, h),
      All-append (λ c. c ≢ 0) (codes "(ADDRESS=(PROTOCOL=tcp)(HOST=") (host ++ tail) (omega arith)
          (All-append (λ c. c ≢ 0) host tail l
            (All-append (λ c. c ≢ 0) (codes ")(PORT=") (digits ++ codes "))") (omega arith)
              (All-append (λ c. c ≢ 0) digits (codes "))") lacks (omega arith)))),
    )

redirect-packet_of :
    (proxy : Proxy) (a : Address) (h : Head) (content : Bytes) (address : Address)
    → length content < 1024
    → Lacks 0 content
    → read_address a content ≡ some address
    → length (connect_text proxy.proxy_host proxy.port) < 1024
    → redirect proxy a (packet_of h content)
      ≡ some (record {
        address = address;
        client_port = some proxy.port;
        outdata = some (packet_of h (connect_text proxy.proxy_host proxy.port));
      })
unfolding redirect redirect_plain htons
redirect-packet_of proxy a h content address short text reads fits =
    let connect = connect_text proxy.proxy_host proxy.port in
    let (len, oldlen) = lengths_at h content short in
    let inside : ltb (10 + length content) (length content) ≡ false = ground arith in
    let enough : leb (10 + length content) (length (packet_of h content)) ≡ true = ground arith in
    let all : take (length content) content ≡ content =
      take-all (length content) content (omega arith) in
    rw len (
      rw oldlen (
        rw inside (
          rw enough (
            rw all (
              rw (strcpy_fits 1024 content short) (
                rw (c_string-Lacks content text)
                  (rw reads (rw (strcpy_fits 1024 connect fits) refl))))))))

-- A redirect packet with a connect string of less than 1024 bytes other than 0, from which an address
-- is read, goes to a proxy that has a port below 100000 and an address of less than 200 bytes without
-- parentheses and the byte 0. It is answered with a packet of the same
-- form, whose lengths are right and whose connect string has the address of the proxy; the address
-- that was read is kept for the new connection. Another proxy that gets this packet, and whose own
-- connect string is less than 1024 bytes, keeps the address of the first proxy, whatever it kept
-- before.
pub redirect-redirect :
    (host : Bytes) (port : ℕ) (other : Proxy) (a b server : Address) (h : Head) (content : Bytes)
    → length content < 1024
    → Lacks 0 content
    → read_address a content ≡ some server
    → IsHost host
    → Lacks 0 host
    → port < 100000
    → length (connect_text other.proxy_host other.port) < 1024
    → (redirect (record { proxy_host = host; port = pos port }) a (packet_of h content)
        ≡ some (record {
          address = server;
          client_port = some (pos port);
          outdata = some (packet_of h (connect_text host (pos port)));
        }))
      × (redirect other b (packet_of h (connect_text host (pos port)))
          ≡ some (record {
            address = record { new_host = host; new_port = pos port };
            client_port = some other.port;
            outdata = some (packet_of h (connect_text other.proxy_host other.port));
          }))
redirect-redirect host port other a b server h content short text reads is_host some_host p fits =
    let (small, clean) = connect_text-short host port is_host.short some_host p in
    (
      redirect-packet_of (record { proxy_host = host; port = pos port }) a h content server short
          text reads small,
      redirect-packet_of other b h (connect_text host (pos port))
          (record { new_host = host; new_port = pos port }) small clean
          (read_address-connect_text b host port is_host p) fits,
    )

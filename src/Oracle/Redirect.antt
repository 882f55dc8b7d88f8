-- ===== src/Oracle/Redirect.antt =====
-- `OracleFitler` of OracleProxy/oraclefilter.c: redirect packets, connect packets, and the data that
-- a client sends. `port` is what `getNewProt` returns.
use oscshell.Base.{
  ℕ, suc, ◌+◌, ◌/◌, ◌%◌, true, [], ◌∷◌, ◌++◌, Option, none, some, if◌then◌else◌, ◌>>=◌, take, drop,
  length, get_elem?, ltb, leb, ◌==◌,
}
use oscshell.Base.Int.{ℤ}
use oscshell.Base.Text.{Bytes, codes, c_string, contains, strcpy}
use oscshell.Oracle.Strings.{until_zero}
use oscshell.Oracle.Places.{Client, word_at}
use oscshell.Oracle.Query.{int_minus}
use oscshell.Oracle.Session.{Machine, State}
use oscshell.Oracle.Request.{Outcome, decoded, fault, out_of_rounds, decode_tns_data}
use oscshell.Oracle.Address.{Address, read_address, connect_text}

-- htons: the two bytes of an `unsigned short`, the higher first.
unfoldable pub htons : ℕ → Bytes
htons n = n / 256 % 256 ∷ n % 256 ∷ []

-- What the proxy knows of its own place, and the port of `getNewProt`.
pub record Proxy : Type 0 where
  pub proxy_host : Bytes
  pub port : ℤ

-- A packet for the client, with the address that was read from the packet of the server, and the new
-- `clientPort`. `none` in `outdata` is the return value 0; in `client_port` the port stays.
pub record Redirected : Type 0 where
  pub address : Address
  pub client_port : Option ℤ
  pub outdata : Option Bytes

-- The connect string stands in the packet itself.
unfoldable pub redirect_plain : Proxy → Address → Bytes → ℕ → Option Redirected
redirect_plain proxy a indata oldlen = do
  copy ← (if leb (10 + oldlen) (length indata) then some (take oldlen (drop 10 indata)) else none)
  content ← strcpy 1024 copy
  address ← read_address a (c_string content)
  connect ← strcpy 1024 (connect_text proxy.proxy_host proxy.port)
  let outlen = 10 + length connect
  some (record {
    address = address;
    client_port = some proxy.port;
    outdata =
        some (htons outlen ++ (take 6 (drop 2 indata) ++ (htons (length connect) ++ connect)));
  })

-- The connect string stands in a data packet behind it, with a second string, which is kept.
unfoldable pub redirect_data : Proxy → Address → Bytes → Option Redirected
redirect_data proxy a indata = do
  kind ← get_elem? indata 14
  let rewritten = do
    old ← until_zero (drop 20 indata)
    content ← strcpy 1024 old
    kept ← until_zero (drop (21 + length content) indata)
    address ← read_address a content
    connect ← strcpy 1024 (connect_text proxy.proxy_host proxy.port)
    let n = length connect + 1 + length kept
    some (record {
      address = address;
      client_port = some proxy.port;
      outdata = some (
          htons 10
          ++ (take 6 (drop 2 indata)
              ++ (htons n
                  ++ (htons (n + 10)
                      ++ (take 6 (drop 12 indata) ++ (htons 0x40 ++ (connect ++ (0 ∷ kept))))))));
    })
  if kind == 6 then rewritten else some (record { address = a; client_port = none; outdata = none })

-- TNS_TYPE_REDIRECT
unfoldable pub redirect : Proxy → Address → Bytes → Option Redirected
redirect proxy a indata = do
  len ← word_at indata 0
  oldlen ← word_at indata 8
  let inside = redirect_plain proxy a indata oldlen
  let behind = redirect_data proxy a indata
  if ltb len oldlen then behind else inside

-- TNS_TYPE_CONNECT: the program of the client.
unfoldable pub connect_client : Client → Bytes → Option Client
connect_client client indata = do
  connect ← until_zero (drop 58 indata)
  some (
      if contains connect (codes "Toad")
      then record client { istoad = true }
      else (if contains connect (codes "plsqldev")
          then record client { isplsql = true }
          else client))

-- What `OracleFitler` leaves of a session: `outdata` is `none` if it returns 0.
pub record Filtered : Type 0 where
  pub state : State
  pub client : Client
  pub address : Address
  pub client_port : Option ℤ
  pub indata : Bytes
  pub outdata : Option Bytes

unfoldable pub filtered : State → Client → Address → Bytes → Filtered
filtered st client a indata = record {
  state = st;
  client = client;
  address = a;
  client_port = none;
  indata = indata;
  outdata = none;
}

unfoldable pub of_outcome : Client → Address → Bytes → Outcome → Option Filtered
of_outcome client a front (decoded st buf) = some (filtered st client a (front ++ buf))
of_outcome client a front fault = none
of_outcome client a front out_of_rounds = none

-- The three kinds of packets. The lengths that a redirect overwrites in `indata` itself are left out.
unfoldable pub by_type :
    Machine → Proxy → State → Client → Address → Bytes → ℕ → ℕ → Option Filtered
by_type m proxy st client a indata len kind =
    let data_packet =
      of_outcome client a (take 10 indata)
        (decode_tns_data (suc len) m client (drop 10 indata) (int_minus len 10) st) in
    let connect_packet = (do c ← connect_client client indata; some (filtered st c a indata)) in
    let redirect_packet = (do
      r ← redirect proxy a indata
      some (record (filtered st client r.address indata) {
        client_port = r.client_port;
        outdata = r.outdata;
      })) in
    if kind == 6
    then data_packet
    else (if kind == 1
        then connect_packet
        else (if kind == 5 then redirect_packet else some (filtered st client a indata)))

-- `OracleFitler` with `isclient`, for `inlen` bytes in `indata`.
unfoldable pub oracle_fitler :
    Machine → Proxy → State → Client → Address → Bytes → ℕ → Option Filtered
oracle_fitler m proxy st client a indata inlen =
    let rest = (do
      len ← word_at indata 0
      kind ← get_elem? indata 4
      by_type m proxy st client a indata len kind) in
    if inlen == 8 then some (filtered st client a indata) else rest

-- `RecvOracleDBClient` of OracleProxy/oracleproxy.c, which always returns 0: what `indata` has
-- become goes on to the server.
unfoldable pub recv_oracle_db_client :
    Machine → Proxy → State → Client → Address → Bytes → ℕ → Option Filtered
recv_oracle_db_client m proxy st client a indata inlen = do
  f ← oracle_fitler m proxy st client a indata inlen
  some (record f { outdata = none })

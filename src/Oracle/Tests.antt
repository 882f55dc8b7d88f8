-- ===== src/Oracle/Tests.antt =====
-- A session of the proxy, and the theorems at it.
use oscshell.Base.{
  ℕ, zero, suc, true, false, [], ◌∷◌, ◌++◌, Option, some, is_some, ◌≡◌, ◌↔◌, refl, arith,
}
use oscshell.Base.Int.{pos, atoi}
use oscshell.Base.Text.{Bytes, codes, strstr}
use oscshell.Policy.{Policy}
use oscshell.Database.Cleared.{no_auth_access_res}
use oscshell.Access.{no_policy}
use oscshell.Access.Session.{ProxyInfo}
use oscshell.Access.Sample.{session}
use oscshell.Oracle.Pieces.{pieces_sent}
use oscshell.Oracle.Places.{Client, first_place}
use oscshell.Oracle.Query.{Query, query_of}
use oscshell.Oracle.Marked.{query_of-pieces_sent}
use oscshell.Oracle.Session.{Machine, State, first_byte, bytes_of, find_sql}
use oscshell.Oracle.Spoiled.{IsSpoiled, find_sql-IsSpoiled}
use oscshell.Oracle.Request.{decode_tns_data}
use oscshell.Oracle.Rounds.{Ends, decode_tns_data-Ends}
use oscshell.Oracle.Recorded.{tested}
use oscshell.Base.Print.{decimal, print_int}
use oscshell.Oracle.Address.{
  Address, cut_at, field_at, host_or, port_or, read_address, connect_text,
}
use oscshell.Oracle.Redirect.{Proxy, redirect}
use oscshell.Oracle.Relayed.{Head, packet_of, redirect-redirect}
use oscshell.Oracle.Conn.{ConnVer, find_ver, IsFirst, find_ver_returns_iff}

abbrev sixty_four : Bytes
sixty_four = codes "select name, first_name, department, salary from employees where"

abbrev second_piece : Bytes
second_piece = codes " id = 7"

abbrev zeros_of : ℕ → Bytes
zeros_of zero = []
zeros_of (suc n) = 0 ∷ zeros_of n

-- A client of an unknown version.
abbrev client : Client
client = record { iversion = 0; bitversion = 32; istoad = false; isplsql = false }

query_of-pieces_sent_example :
    query_of client false
      (zeros_of 93 ++ (0xfe ∷ (pieces_sent (sixty_four ∷ second_piece ∷ []) ++ [])))
      200
    ≡ some (record {
      query_str = sixty_four ++ (7 ∷ (second_piece ++ []));
      query_str_len = 71;
      place = 93;
      oracle_flag = false;
    })
unfolding first_place
query_of-pieces_sent_example =
    query_of-pieces_sent client false (zeros_of 93) sixty_four (second_piece ∷ []) [] 200 93 refl
      (omega arith) (omega arith) refl (omega arith) (omega arith) (omega arith) (omega arith)

abbrev conn : ConnVer
conn = record { conn = codes "ann"; uc_ver = 1 ∷ 57 ∷ [] }

find_ver_returns_iff_example :
    (is_some (find_ver 10 (conn ∷ []) (codes "bob")) ≡ true) ↔ IsFirst (codes "bob") (conn ∷ [])
find_ver_returns_iff_example = find_ver_returns_iff 9 (conn ∷ []) (codes "bob")

abbrev drop_policy : Policy
drop_policy = record no_policy {
  ccl = record { pr_command = codes "DROP"; pr_type = pos 1; pr_table = codes "T1" } ∷ [];
}

abbrev audited : ProxyInfo
audited = record session {
  auth = record no_auth_access_res { pr_audit_flag = pos 1; pr_cmd_flag = pos 1 };
  policy = drop_policy ∷ [];
}

abbrev machine : Machine
machine = record { word = 8; cmd_size = 4096; line_size = 4096; new_id = λ n. codes "1" }

abbrev start : State
start = record {
  info = audited;
  userlog_id = [];
  line_out_len = 0;
  sql_reslut = [];
  isquery = false;
  n_glob_max_col_num = 0;
  oracle_flag = true;
  logs = [];
}

abbrev request : Bytes
request = zeros_of 93 ++ (codes "drop table t1" ++ zeros_of 3)

abbrev query : Query
query = record {
  query_str = codes "drop table t1";
  query_str_len = 13;
  place = 93;
  oracle_flag = true;
}

decode_tns_data-Ends_example : Ends (decode_tns_data 112 machine client request (pos 111) start)
unfolding bytes_of
decode_tns_data-Ends_example =
    decode_tns_data-Ends 112 machine client request (pos 111) start (omega arith)

find_sql-IsSpoiled_example :
    (packet : Bytes) × (place : Option ℕ) × (find_sql
        (codes "xx drop table")
        (pos 13)
        (codes "drop")
      ≡ some (packet, place))
    × IsSpoiled 13 b'd' (codes "xx drop table") packet
unfolding bytes_of first_byte
find_sql-IsSpoiled_example =
    find_sql-IsSpoiled (codes "xx drop table") (pos 13) (codes "drop") (omega arith)

abbrev expected_cmd : Bytes
expected_cmd = tested machine query

abbrev no_address : Address
no_address = record { new_host = []; new_port = pos 0 }

abbrev head : Head
head = record { sum_high = 0; sum_low = 0; kind = 5; flag = 0; head_high = 0; head_low = 0 }

abbrev rac : Bytes
rac = codes "(ADDRESS=(PROTOCOL=tcp)(HOST=10.0.0.7)(PORT=1521))"

abbrev rac_address : Address
rac_address = record { new_host = codes "10.0.0.7"; new_port = pos 1521 }

abbrev second_proxy : Proxy
second_proxy = record { proxy_host = codes "10.0.0.2"; port = pos 10501 }

rac_read : read_address no_address rac ≡ some rac_address
unfolding read_address field_at strstr cut_at host_or port_or atoi
rac_read = refl

redirect-redirect_example :
    (redirect
        (record { proxy_host = codes "10.0.0.1"; port = pos 10500 })
        no_address
        (packet_of head rac)
      ≡ some (record {
        address = rac_address;
        client_port = some (pos 10500);
        outdata = some (packet_of head (connect_text (codes "10.0.0.1") (pos 10500)));
      }))
    × (redirect second_proxy no_address
          (packet_of head (connect_text (codes "10.0.0.1") (pos 10500)))
        ≡ some (record {
          address = record { new_host = codes "10.0.0.1"; new_port = pos 10500 };
          client_port = some (pos 10501);
          outdata = some (packet_of head (connect_text (codes "10.0.0.2") (pos 10501)));
        }))
unfolding connect_text print_int decimal
redirect-redirect_example =
    redirect-redirect (codes "10.0.0.1") 10500 second_proxy no_address no_address rac_address head
      rac (omega arith) (omega arith) rac_read
      (record { no_open = omega arith; no_close = omega arith; short = omega arith }) (omega arith)
      (omega arith) (omega arith)

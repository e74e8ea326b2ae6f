-- ===== src/Daytime/Tests.antt =====
-- The daytime programs in small sessions.
use network_pragramming.Prelude.{
  arith, ◌≡◌, refl, true, false, List, [], ◌∷◌, ◌++◌, Bytes, codes, replicate,
}
use network_pragramming.Sys.{Errno, failed, gave, Call, returns, exits, waits}
use network_pragramming.Daytime.Addresses.{Address, try_socket, search_list, search_found, decide}
use network_pragramming.Daytime.Tcp.{
  Family, Round, Forks, tcp_listen, serve_rounds, daytime_tcp_server, daytime_tcp_server_daemon,
  time_text,
}
use network_pragramming.Daytime.Tcp.Listens.{Binds, Succeeds, tcp_listen-listens, tcp_listen-stuck}
use network_pragramming.Sys.Trace.{printed}
use network_pragramming.Daytime.Session.{print_all-serve_rounds}
use network_pragramming.Daytime.Client.{daytime_tcp_client, print_all}
use network_pragramming.Daytime.Udp.{Datagram, daytime_udp_client, daytime_udp_server}

-- An address on which bind fails, and one on which it succeeds.
abbrev taken : Address
taken = record { sockets = gave 3 ∷ []; reuse = gave tt; joined = failed Errno.other }

abbrev free : Address
free = record { sockets = failed Errno.other ∷ gave 4 ∷ []; reuse = gave tt; joined = gave tt }

abbrev before_bind : List Call
before_bind =
    Call.resolve (codes "13")
    ∷ Call.socket
    ∷ Call.set_reuseaddr 3
    ∷ Call.bind 3
    ∷ Call.close 3
    ∷ Call.socket
    ∷ Call.socket
    ∷ Call.set_reuseaddr 4
    ∷ []

listen_calls :
    tcp_listen (codes "13") (gave (record { first = taken; others = free ∷ [] })) (gave tt)
    ≡ returns (before_bind ++ (Call.bind 4 ∷ Call.listen 4 10 ∷ [])) 4
unfolding tcp_listen search_found search_list try_socket decide
listen_calls = refl

tcp_listen-listens_example :
    ((ds : List Call) × (before_bind ++ (Call.bind 4 ∷ Call.listen 4 10 ∷ [])
        ≡ ds ++ (Call.bind 4 ∷ Call.listen 4 10 ∷ [])))
    × Binds (taken ∷ free ∷ []) 4
    × Succeeds {A = Unit {0}} (gave tt)
tcp_listen-listens_example =
    tcp_listen-listens (codes "13") (gave (record { first = taken; others = free ∷ [] })) (gave tt)
      (before_bind ++ (Call.bind 4 ∷ Call.listen 4 10 ∷ [])) 4 listen_calls

-- A machine without IPv6, whose first address is one of IPv6.
abbrev no_family : Address
no_family = record {
  sockets = failed Errno.einval ∷ failed Errno.einval ∷ failed Errno.einval ∷ [];
  reuse = gave tt;
  joined = gave tt;
}

tcp_listen-stuck_example :
    tcp_listen (codes "13") (gave (record { first = no_family; others = taken ∷ [] })) (gave tt)
    ≡ waits (Call.resolve (codes "13") ∷ replicate 4 Call.socket)
tcp_listen-stuck_example =
    tcp_listen-stuck (codes "13") (record { first = no_family; others = taken ∷ [] }) (gave tt) tt

-- Three clients: one is served, one interrupted, and one of another family.
abbrev now : Bytes
now = codes "Thu Jan  1 00:00:00 1970"

abbrev clients : List Round
clients =
    record { accepted = gave (5, Family.inet); now = now; written = gave 26 }
    ∷ record { accepted = gave (5, Family.inet6); now = now; written = failed Errno.eintr }
    ∷ record { accepted = gave (6, Family.unknown); now = now; written = gave 26 }
    ∷ []

abbrev client_calls : List Call
client_calls =
    Call.accept 4
    ∷ Call.write 5 (time_text now)
    ∷ Call.accepted 5 (time_text now)
    ∷ Call.close 5
    ∷ Call.accept 4
    ∷ Call.write 5 (time_text now)
    ∷ Call.accept 4
    ∷ Call.accept 4
    ∷ []

-- One of the three connections is left open.
clients_served : serve_rounds 4 clients ≡ waits client_calls
unfolding serve_rounds
clients_served = refl

abbrev second_child : Forks
second_child = record { first = gave 0; session = gave tt; second = gave 0 }

-- Without arguments the servers only print their usage, and the client too, with status 0.
server_usage : daytime_tcp_server [] (failed Errno.other) (gave tt) [] ≡ exits [] 1
unfolding daytime_tcp_server
server_usage = refl

daemon_usage :
    daytime_tcp_server_daemon [] second_child (failed Errno.other) (gave tt) [] ≡ exits [] 1
unfolding daytime_tcp_server_daemon
daemon_usage = refl

client_usage : daytime_tcp_client [] false (failed Errno.other) (gave true) [] ≡ exits [] 0
unfolding daytime_tcp_client
client_usage = refl

udp_client_usage : daytime_udp_client [] (failed Errno.other) (gave []) ≡ exits [] 1
unfolding daytime_udp_client
udp_client_usage = refl

udp_server_usage : daytime_udp_server [] (failed Errno.other) [] ≡ exits [] 1
unfolding daytime_udp_server
udp_server_usage = refl

-- Two datagrams, each answered with the time.
abbrev datagrams : List Datagram
datagrams =
    record { received = gave (codes "hi"); now = now }
    ∷ record { received = gave []; now = now }
    ∷ []

-- The connection cuts the answer of the server into two pieces.
print_all-serve_rounds_example :
    (cs : List Call) × (print_all 4
        (gave (codes "Thu Jan  1 ") ∷ gave (codes "00:00:00 1970" ++ (13 ∷ 10 ∷ [])) ∷ gave [] ∷ [])
      ≡ exits cs 0)
    × (printed cs ≡ time_text now)
unfolding serve_rounds
print_all-serve_rounds_example =
    print_all-serve_rounds 3 5 4 26 now
      (codes "Thu Jan  1 " ∷ (codes "00:00:00 1970" ++ (13 ∷ 10 ∷ [])) ∷ []) refl (omega arith)
      (codes "00:00:00 1970" ++ (13 ∷ 10 ∷ []), refl, ([], refl, refl))

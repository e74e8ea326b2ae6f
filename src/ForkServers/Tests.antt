-- ===== src/ForkServers/Tests.antt =====
-- The forking servers on concrete connections.
use network_pragramming.Prelude.{
  ℕ, ◌≡◌, refl, false, List, [], ◌∷◌, ◌++◌, ◌==◌, if◌then◌else◌, Bytes, codes, arith, replicate,
}
use network_pragramming.Sys.{Errno, failed, gave, Call, returns, exits, waits, FdSet, fd_set}
use network_pragramming.Sys.Trace.{writes_to, closes, closes_of}
use network_pragramming.Sys.Closing.{Leaves}
use network_pragramming.ForkServers.Accept.{Round, rounds}
use network_pragramming.ForkServers.Accept.Closes.{rounds-closes}
use network_pragramming.ForkServers.Loop.{Turn, loop}
use network_pragramming.ForkServers.Echo
use network_pragramming.ForkServers.Echo.Echoes.{str_echo-echoes}
use network_pragramming.ForkServers.Unix
use network_pragramming.ForkServers.Credentials
use network_pragramming.ForkServers.Credentials.{Cred, Control}
use network_pragramming.ForkServers.Credentials.SameWrites.{plain, str_echo-writes_to}
use network_pragramming.Sys.{trace}
use network_pragramming.Decimal.{decimal}
use network_pragramming.Prelude.{true, none, some}
use network_pragramming.ForkServers.Multi.{multi_conn_server, events, request}
use network_pragramming.ForkServers.Multi.Signals.{until_signal, behind, events-sigchld}
use network_pragramming.ForkServers.TcpUdp
use network_pragramming.ForkServers.TcpUdp.{
  process, response, udp_part, echo_back, select_tcp_udp_server,
}
use network_pragramming.ForkServers.TcpUdp.Echo.{Holds, udp_part-echoes}

-- Two lines, a signal between them, and the end of the file.
abbrev talk : List Turn
talk =
    record { read = gave (codes "ab"); written = gave 2 }
    ∷ record { read = failed Errno.eintr; written = gave 0 }
    ∷ record { read = gave (codes "c"); written = gave 1 }
    ∷ record { read = gave []; written = gave 0 }
    ∷ []

str_echo-echoes_example :
    (cs : List Call) × (Echo.str_echo 4 talk
      ≡ returns (cs ++ (Call.read 4 255 ∷ Call.received 4 [] ∷ Call.close 4 ∷ [])) tt)
    × (writes_to 4 cs ≡ codes "ab" ∷ codes "c" ∷ [])
    × (closes cs ≡ 0)
str_echo-echoes_example =
    str_echo-echoes 4 talk ((2, refl), ((0, refl), ((1, refl), ((0, refl), tt)))) refl

abbrev lines : List Turn
lines =
    record { read = gave (codes "hi"); written = gave 13 }
    ∷ record { read = gave []; written = gave 11 }
    ∷ []

abbrev incoming_talk : ℕ → Round (List Turn)
incoming_talk pid = record { accepted = gave 4; forked = gave pid; work = talk }

fork_failed-Leaves :
    (d fd : ℕ) → Leaves (closes_of d) 0 (if fd == d then 1 else 0) (Echo.fork_failed fd)
unfolding Echo.fork_failed
fork_failed-Leaves d fd = ground arith

abbrev parent_calls : List Call
parent_calls =
    Call.accept 3
    ∷ Call.fork
    ∷ Call.close 4
    ∷ Call.accept 3
    ∷ Call.fork
    ∷ Call.close 4
    ∷ Call.accept 3
    ∷ []

parent_run :
    rounds Echo.str_echo Echo.fork_failed 3
      (incoming_talk 70 ∷ record (incoming_talk 71) { forked = failed Errno.eagain } ∷ [])
    ≡ waits parent_calls
unfolding rounds Echo.fork_failed
parent_run = refl

rounds-closes_example : 2 ≡ closes_of 4 parent_calls
rounds-closes_example =
    rounds-closes Echo.str_echo Echo.fork_failed 4 (fork_failed-Leaves 4) 3
      (incoming_talk 70 ∷ record (incoming_talk 71) { forked = failed Errno.eagain } ∷ [])
      parent_calls (omega arith, (tt, tt)) parent_run

events-sigchld_example :
    events 3 (
      until_signal
        (record {
          accepted = gave 4;
          forked = gave 70;
          work = request (record { read = gave (codes "x"); written = gave 18 });
        }
          ∷ [])
        (gave 70 ∷ failed Errno.other ∷ [])
        [])
    ≡ behind 3
        (record {
          accepted = gave 4;
          forked = gave 70;
          work = request (record { read = gave (codes "x"); written = gave 18 });
        }
          ∷ [])
        (exits (Call.accept 3 ∷ Call.wait_child ∷ Call.wait_child ∷ []) 0)
events-sigchld_example =
    events-sigchld 3
      (record {
        accepted = gave 4;
        forked = gave 70;
        work = request (record { read = gave (codes "x"); written = gave 18 });
      }
        ∷ [])
      (gave 70 ∷ []) (failed Errno.other) [] [] (omega arith, tt) tt

-- "ab" behind "xyz" is answered with "abz".
udp_part-echoes_example :
    (udp_part 5 (codes "xyz" ++ replicate 253 0) (gave (codes "ab"))
      ≡ returns
          (Call.recv_from 5 256 ∷ Call.send_to 5 (codes "ECHO BACK : abz") ∷ [])
          (codes "abz" ++ replicate 253 0))
    × Holds (codes "abz") (codes "abz" ++ replicate 253 0)
udp_part-echoes_example =
    udp_part-echoes 5 (codes "xyz") (codes "xyz" ++ replicate 253 0) (codes "ab")
      (record {
        nulls = 252;
        stored = refl;
        size = refl;
        plain = (omega arith, (omega arith, (omega arith, tt)));
        short = omega arith;
      })
      (omega arith, (omega arith, tt)) (omega arith)

echo_server :
    Echo.basic_tcp_server (record { socket = gave 3; bound = gave tt }) (incoming_talk 0 ∷ [])
    ≡ exits
        (Call.socket
          ∷ Call.set_reuseaddr 3
          ∷ Call.bind 3
          ∷ Call.listen 3 5
          ∷ Call.accept 3
          ∷ Call.fork
          ∷ Call.close 3
          ∷ Call.read 4 255
          ∷ Call.received 4 (codes "ab")
          ∷ Call.write 4 (codes "ab")
          ∷ Call.accepted 4 (codes "ab")
          ∷ Call.read 4 255
          ∷ Call.read 4 255
          ∷ Call.received 4 (codes "c")
          ∷ Call.write 4 (codes "c")
          ∷ Call.accepted 4 (codes "c")
          ∷ Call.read 4 255
          ∷ Call.received 4 []
          ∷ Call.close 4
          ∷ [])
        0
unfolding Echo.basic_tcp_server Echo.str_echo rounds loop
echo_server = refl

-- A read that fails leads to undefined behaviour.
echo_broken :
    Echo.str_echo 4 (record { read = failed Errno.other; written = gave 0 } ∷ [])
    ≡ exits (Call.read 4 255 ∷ []) 134
unfolding Echo.str_echo loop
echo_broken = refl

unix_server :
    Unix.unix_stream_server (record { socket = gave 3; bound = failed Errno.other }) []
    ≡ exits (Call.socket ∷ Call.unlink (codes "/tmp/unix_domain_sockfd") ∷ Call.bind 3 ∷ []) 1
unfolding Unix.unix_stream_server
unix_server = refl

-- A line of 245 bytes does not fit.
unix_long :
    Unix.str_echo 4 (record { read = gave (replicate 245 97); written = gave 0 } ∷ [])
    ≡ exits (Call.read 4 256 ∷ Call.received 4 (replicate 245 97) ∷ []) 134
unfolding Unix.str_echo loop
unix_long = refl

multi_server :
    multi_conn_server (record { socket = gave 3; bound = gave tt; listening = gave tt }) []
    ≡ waits (Call.socket ∷ Call.bind 3 ∷ Call.listen 3 10 ∷ Call.accept 3 ∷ [])
unfolding multi_conn_server
multi_server = refl

abbrev nothing : FdSet
nothing fd = false

abbrev datagram : Bytes → TcpUdp.Round
datagram bytes = record {
  selected = gave (1, fd_set 4 nothing);
  accepted = failed Errno.other;
  forked = failed Errno.other;
  work = [];
  datagram = gave bytes;
}

tcp_udp_server :
    select_tcp_udp_server nothing
      (record {
        tcp_socket = gave 3;
        reused = gave tt;
        tcp_bound = gave tt;
        listening = gave tt;
        udp_socket = gave 4;
        udp_bound = gave tt;
      })
      (datagram (codes "xyz") ∷ datagram (codes "ab") ∷ [])
    ≡ waits (
        Call.socket
        ∷ Call.set_reuseaddr 3
        ∷ Call.bind 3
        ∷ Call.listen 3 5
        ∷ Call.socket
        ∷ Call.bind 4
        ∷ Call.select
        ∷ Call.recv_from 4 256
        ∷ Call.send_to 4 (codes "ECHO BACK : xyz")
        ∷ Call.select
        ∷ Call.recv_from 4 256
        ∷ Call.send_to 4 (codes "ECHO BACK : abz")
        ∷ Call.select
        ∷ [])
unfolding select_tcp_udp_server
tcp_udp_server = refl

abbrev daniel : Cred
daniel = record {
  pid = 70;
  uid = 1000;
  gid = 100;
  euid = 1000;
  ngroups = 2;
  groups = 100 ∷ 27 ∷ [];
}

abbrev from_daniel : Control
from_daniel = record { short = false; is_socket_level = true; is_creds = true; cred = daniel }

-- A line with credentials, and one without.
abbrev two_lines : List Credentials.Turn
two_lines =
    record { received = gave (codes "hi"); control = some from_daniel; written = gave 13 }
    ∷ record { received = gave (codes "ho"); control = none; written = gave 13 }
    ∷ []

str_echo-writes_to_example :
    writes_to 4 (trace (Credentials.str_echo 4 two_lines))
    ≡ writes_to 4 (trace (Unix.str_echo 4 (plain two_lines)))
str_echo-writes_to_example =
    str_echo-writes_to 4 two_lines ((refl, refl, refl, omega arith), (tt, tt))

-- A message of another type ends the child.
other_type :
    Credentials.str_echo 4 (
      record {
        received = gave (codes "hi");
        control = some (record from_daniel { is_creds = false });
        written = gave 13;
      }
      ∷ [])
    ≡ exits (Call.recv_msg 4 256 ∷ Call.received 4 (codes "hi") ∷ []) 1
unfolding Credentials.str_echo
other_type = refl

-- What is printed of the credentials, and the answer behind it.
credentials_printed :
    Credentials.str_echo 4
      (record { received = gave (codes "hi"); control = some from_daniel; written = gave 13 } ∷ [])
    ≡ waits (
        Call.recv_msg 4 256
        ∷ Call.received 4 (codes "hi")
        ∷ Call.put (codes "PID of sender = 70\n")
        ∷ Call.put (codes "real user ID = 1000\n")
        ∷ Call.put (codes "real group ID = 100\n")
        ∷ Call.put (codes "effective user ID = 1000\n")
        ∷ Call.put (codes "1 groups:")
        ∷ Call.put (codes "27")
        ∷ Call.put (codes "\n")
        ∷ Call.write 4 (codes "[response] hi")
        ∷ Call.accepted 4 (codes "[response] hi")
        ∷ Call.recv_msg 4 256
        ∷ [])
unfolding Credentials.str_echo decimal Unix.respond
credentials_printed = refl

-- The program ends when the name is bound already.
credentials_start :
    Credentials.credential_server (record { socket = gave 3; bound = failed Errno.other }) []
    ≡ exits (Call.socket ∷ Call.unlink (codes "/tmp/unix_domain_sockfd") ∷ Call.bind 3 ∷ []) 1
unfolding Credentials.credential_server
credentials_start = refl

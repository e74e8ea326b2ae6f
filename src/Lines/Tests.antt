-- ===== src/Lines/Tests.antt =====
-- The line clients and the datagram servers on concrete lines.
use network_pragramming.Prelude.{◌≡◌, refl, List, [], ◌∷◌, codes, arith}
use network_pragramming.Sys.{Errno, failed, gave, Call, returns, exits, waits}
use network_pragramming.Sys.Trace.{writes_to, printed}
use network_pragramming.ForkServers.Loop
use network_pragramming.ForkServers.Echo.{str_echo}
use network_pragramming.Lines.Clients.{
  Turn, Setup, tcp_client, asks, basic_tcp_client, unix_stream_client, basic_udp_client,
  unix_dgram_client,
}
use network_pragramming.Lines.Session.{asks-str_echo}
use network_pragramming.Lines.Servers.{basic_udp_server, unix_dgram_server}

-- Two lines, and their echo.
abbrev typed : List Turn
typed =
    record { line = codes "ab\n"; sent = gave 3; reply = gave (codes "ab\n") }
    ∷ record { line = codes "c\n"; sent = gave 2; reply = gave (codes "c\n") }
    ∷ []

abbrev served : List Loop.Turn
served =
    record { read = gave (codes "ab\n"); written = gave 3 }
    ∷ record { read = gave (codes "c\n"); written = gave 2 }
    ∷ record { read = gave []; written = gave 0 }
    ∷ []

asks-str_echo_example :
    (cs : List Call) × (asks tcp_client 3 typed ≡ returns cs tt)
    × (writes_to 3 cs ≡ codes "ab\n" ∷ codes "c\n" ∷ [])
    × (printed cs ≡ codes "ab\nc\n")
unfolding str_echo Loop.loop
asks-str_echo_example =
    asks-str_echo 3 4 typed served
      (
        record { taken = 3; writes = refl; some_bytes = omega arith; short = omega arith },
        (record { taken = 2; writes = refl; some_bytes = omega arith; short = omega arith }, tt),
      )
      ((3, refl), ((2, refl), ((0, refl), tt))) refl (refl, (refl, tt))

abbrev calls_succeed : Setup
calls_succeed = record { socket = gave 3; resolved = gave tt; bound = gave tt; connected = gave tt }

tcp_server_gone :
    basic_tcp_client
      (codes "host")
      calls_succeed
      (record { line = codes "x\n"; sent = gave 2; reply = gave [] } ∷ typed)
    ≡ exits
        (Call.socket
          ∷ Call.resolve (codes "host")
          ∷ Call.connect 3
          ∷ Call.write 3 (codes "x\n")
          ∷ Call.read 3 255
          ∷ Call.received 3 []
          ∷ Call.close 3
          ∷ [])
        1
unfolding basic_tcp_client
tcp_server_gone = refl

-- A line whose write is interrupted is not sent again.
unix_interrupted :
    unix_stream_client calls_succeed
      (record { line = codes "x\n"; sent = failed Errno.eintr; reply = gave [] } ∷ [])
    ≡ exits (Call.socket ∷ Call.connect 3 ∷ Call.write 3 (codes "x\n") ∷ []) 0
unfolding unix_stream_client
unix_interrupted = refl

udp_talk :
    basic_udp_client
      (codes "host")
      calls_succeed
      (record { line = codes "x"; sent = gave 1; reply = gave (codes "y") } ∷ [])
    ≡ exits
        (Call.socket
          ∷ Call.resolve (codes "host")
          ∷ Call.connect 3
          ∷ Call.write 3 (codes "x")
          ∷ Call.put (codes "[client] send_msg = x.\n")
          ∷ Call.read 3 256
          ∷ Call.received 3 (codes "y")
          ∷ Call.put (codes "[client] recv_msg = y.\n")
          ∷ [])
        0
unfolding basic_udp_client
udp_talk = refl

dgram_unbound :
    unix_dgram_client (record calls_succeed { bound = failed Errno.other }) typed
    ≡ exits (Call.socket ∷ Call.bind 3 ∷ Call.close 3 ∷ []) 1
unfolding unix_dgram_client
dgram_unbound = refl

udp_server_run :
    basic_udp_server
      (record { socket = gave 3; bound = gave tt })
      (record { received = gave (codes "z"); sent = failed Errno.other } ∷ [])
    ≡ waits (
        Call.socket
        ∷ Call.bind 3
        ∷ Call.recv_from 3 256
        ∷ Call.send_to 3 (codes "ECHO BACK : z")
        ∷ Call.recv_from 3 256
        ∷ [])
unfolding basic_udp_server
udp_server_run = refl

dgram_server_run :
    unix_dgram_server
      (record { socket = gave 3; bound = gave tt })
      (record { received = failed Errno.other; sent = gave 0 } ∷ [])
    ≡ exits
        (Call.socket
          ∷ Call.unlink (codes "/tmp/unix_domain_sockfd")
          ∷ Call.bind 3
          ∷ Call.recv_from 3 256
          ∷ Call.close 3
          ∷ [])
        1
unfolding unix_dgram_server
dgram_server_run = refl

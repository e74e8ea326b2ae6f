-- ===== src/Basics/Tests.antt =====
-- The first examples on concrete answers.
use network_pragramming.Prelude.{◌≡◌, refl, List, ◌++◌, arith, true, none, some, [], ◌∷◌, codes}
use network_pragramming.Sys.{Errno, failed, gave, Call, exits}
use network_pragramming.Basics.Clients.{Setup, basic_client, select_client, select_cli_better}
use network_pragramming.Basics.Clients.Session.{server_reply, select_client-chat}
use network_pragramming.SelectServer.{accept_msg}
use network_pragramming.Sys.Trace.{printed}
use network_pragramming.Basics.Server.{basic_server}
use network_pragramming.Basics.Times.{
  asked, sigint, Peer, daytime_client, daytime_server, daytime_inetd,
}

abbrev calls_succeed : Setup
calls_succeed = record { socket = gave 3; resolved = gave tt; connected = gave tt }

basic_talk :
    basic_client (codes "h") calls_succeed (
      record { line = some (codes "a\n"); written = gave 2; reply = gave (codes "b") }
      ∷ record { line = some (codes "exit\n"); written = gave 0; reply = gave [] }
      ∷ [])
    ≡ exits
        (Call.socket
          ∷ Call.resolve (codes "h")
          ∷ Call.connect 3
          ∷ Call.write 3 (codes "a\n")
          ∷ Call.accepted 3 (codes "a\n")
          ∷ Call.read 3 256
          ∷ Call.received 3 (codes "b")
          ∷ Call.put (codes "Receive message: b.\n")
          ∷ Call.close 3
          ∷ [])
        0
unfolding basic_client
basic_talk = refl

select_refused :
    select_client
      (codes "h")
      calls_succeed
      (record { line = none; written = gave 0; reply = gave (codes "Refuse!") } ∷ [])
    ≡ exits
        (Call.socket
          ∷ Call.resolve (codes "h")
          ∷ Call.connect 3
          ∷ Call.read 3 255
          ∷ Call.received 3 (codes "Refuse!")
          ∷ Call.close 3
          ∷ [])
        0
unfolding select_client
select_refused = refl

-- The socket is closed when connect fails, and then written to.
exchange_closed :
    select_cli_better
      (record calls_succeed { connected = failed Errno.other })
      (failed Errno.other ∷ [])
    ≡ exits
        (Call.socket
          ∷ Call.resolve (codes "127.0.0.1")
          ∷ Call.connect 3
          ∷ Call.close 3
          ∷ Call.write 3 (codes "test string")
          ∷ [])
        0
unfolding select_cli_better
exchange_closed = refl

one_request :
    basic_server (record {
      socket = gave 3;
      bound = gave tt;
      accepted = gave 4;
      request = gave (codes "hi");
      written = gave 2;
    })
    ≡ exits
        (Call.socket
          ∷ Call.bind 3
          ∷ Call.listen 3 5
          ∷ Call.accept 3
          ∷ Call.read 4 255
          ∷ Call.received 4 (codes "hi")
          ∷ Call.write 4 (codes "hi")
          ∷ Call.accepted 4 (codes "hi")
          ∷ [])
        0
unfolding basic_server
one_request = refl

invalid_address :
    daytime_client (record { socket = gave 3; valid = true; connected = failed Errno.other }) []
    ≡ exits (Call.socket ∷ Call.connect 3 ∷ []) 1
unfolding daytime_client
invalid_address = refl

server_stopped :
    daytime_server
      (record { socket = gave 3; reused = gave tt; bound = gave tt })
      (asked (gave 4) (codes "now") (gave 5) ∷ sigint ∷ [])
    ≡ exits
        (Call.socket
          ∷ Call.set_reuseaddr 3
          ∷ Call.bind 3
          ∷ Call.listen 3 0
          ∷ Call.accept 3
          ∷ Call.write 4 (codes "now\r\n")
          ∷ Call.accepted 4 (codes "now\r\n")
          ∷ Call.close 4
          ∷ Call.accept 3
          ∷ Call.close 3
          ∷ [])
        0
unfolding daytime_server
server_stopped = refl

inetd_interrupted :
    daytime_inetd (Peer.inet true) (codes "now") (failed Errno.eintr)
    ≡ exits (Call.write 0 (codes "now\r\n") ∷ []) 1
unfolding daytime_inetd
inetd_interrupted = refl

select_client-chat_example :
    (cs : List Call) × (select_client (codes "h") calls_succeed (
        record { line = some (codes "hi"); written = gave 2; reply = gave accept_msg }
        ∷ record {
          line = some (codes "exit\n");
          written = gave 0;
          reply = gave (server_reply 4 (codes "hi"));
        }
        ∷ [])
      ≡ exits cs 0)
    × (printed cs
        ≡ codes "Receive message: Accept, connection established!.\n"
          ++ codes "Receive message: ECHO BACK : hi.\n")
select_client-chat_example =
    select_client-chat 3 4 (codes "h") (codes "hi" ∷ [])
      ((refl, omega arith, refl), omega arith, tt)

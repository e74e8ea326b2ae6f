-- ===== src/Ameba/Tests.antt =====
-- The programs for the Ameba board on concrete answers.
use network_pragramming.Prelude.{◌≡◌, refl, [], ◌∷◌, codes}
use network_pragramming.Sys.{Errno, failed, gave, Call, exits, waits}
use network_pragramming.SelectSrvBetter.{select_srv_better}
use network_pragramming.Ameba.{tcp_client, udp_client, send_tests, udp_server, tcp_select_server}

refused_turn :
    tcp_client (
      record {
        socket = gave 3;
        resolved = gave tt;
        connected = failed Errno.other;
        written = gave 0;
      }
      ∷ [])
    ≡ waits (Call.socket ∷ Call.resolve (codes "127.0.0.1") ∷ Call.connect 3 ∷ Call.close 3 ∷ [])
unfolding tcp_client
refused_turn = refl

two_messages :
    udp_client (gave 3) 2
    ≡ waits (
        Call.socket
        ∷ Call.send_to 3 (codes "test udp message")
        ∷ Call.send_to 3 (codes "test udp message")
        ∷ [])
unfolding udp_client send_tests
two_messages = refl

empty_datagram :
    udp_server (gave 3) (gave tt) (gave [] ∷ [])
    ≡ exits (Call.socket ∷ Call.bind 3 ∷ Call.recv_from 3 256 ∷ Call.close 3 ∷ []) 255
unfolding udp_server
empty_datagram = refl

no_socket :
    tcp_select_server
      (record {
        socket = failed Errno.other;
        reuse = gave tt;
        bound = gave tt;
        listening = gave tt;
      })
      []
    ≡ select_srv_better
        (record {
          socket = failed Errno.other;
          reuse = gave tt;
          bound = gave tt;
          listening = gave tt;
        })
        []
unfolding tcp_select_server
no_socket = refl

-- ===== src/Ameba.antt =====
-- The programs for the Ameba board: ameba/tcp_client.c, ameba/udp_client.c, ameba/udp_server.c and
-- ameba/tcp_select_server.c.
mod Tests
use network_pragramming.Prelude.{ℕ, zero, suc, List, [], ◌∷◌, Bytes, codes, take}
use network_pragramming.Sys.{
  Answer, failed, gave, Call, Prog, returns, exits, waits, exit_minus_one, call, call_or_exit,
  after, ◌>>=◌, ◌>>◌,
}
use network_pragramming.SelectSrvBetter
use network_pragramming.SelectSrvBetter.{select_srv_better}

-- EXCHANGE_SERVER_IP and STR
abbrev exchange_server_ip : Bytes
exchange_server_ip = codes "127.0.0.1"

abbrev str : Bytes
str = codes "test string"

-- What the calls of one turn of the TCP client's loop answer.
pub record Turn : Type 0 where
  pub socket : Answer ℕ
  pub resolved : Answer (Unit {0})
  pub connected : Answer (Unit {0})
  pub written : Answer ℕ

-- connect and write. Their failure, and that of gethostbyname, goes to `exit`, which closes the
-- socket too; the result of write only makes a message.
connected_case : ℕ → Answer (Unit {0}) → Prog (Unit {0})
connected_case sockfd (failed e) = returns [] tt
connected_case sockfd (gave ok) = call (Call.write sockfd str)

resolved_case : ℕ → Turn → Answer (Unit {0}) → Prog (Unit {0})
unfolding connected_case
resolved_case sockfd t (failed e) = returns [] tt
resolved_case sockfd t (gave server) =
    after (Call.connect sockfd ∷ []) (connected_case sockfd t.connected)

-- One turn; when socket fails, close gets -1 and closes nothing.
turn : Turn → Answer ℕ → Prog (Unit {0})
unfolding resolved_case
turn t (failed e) = call Call.socket
turn t (gave sockfd) = do
  call Call.socket
  call (Call.resolve exchange_server_ip)
  resolved_case sockfd t t.resolved
  call (Call.close sockfd)

-- main of ameba/tcp_client.c, over the turns that it has time for.
unfoldable pub tcp_client : List Turn → Prog (Unit {0})
unfolding turn
tcp_client [] = waits []
tcp_client (t ∷ ts) = turn t t.socket >> tcp_client ts

-- main of ameba/udp_client.c, for so many rounds; the result of sendto is not looked at.
unfoldable pub send_tests : ℕ → ℕ → Prog (Unit {0})
send_tests sockfd zero = waits []
send_tests sockfd (suc n) =
    after (Call.send_to sockfd (codes "test udp message") ∷ []) (send_tests sockfd n)

unfoldable pub udp_client : Answer ℕ → ℕ → Prog (Unit {0})
unfolding send_tests
udp_client socket rounds = do
  sockfd ← call_or_exit Call.socket exit_minus_one socket
  send_tests sockfd rounds

-- recvfrom answers -1 or 0, or stores a datagram.
received_case : ℕ → Bytes → Prog (Unit {0})
received_case sockfd [] = exits (Call.close sockfd ∷ []) exit_minus_one
received_case sockfd (b ∷ bytes) = returns [] tt

datagram_case : ℕ → Answer Bytes → Prog (Unit {0})
unfolding received_case
datagram_case sockfd (failed e) = exits (Call.close sockfd ∷ []) exit_minus_one
datagram_case sockfd (gave bytes) = received_case sockfd (take 256 bytes)

datagrams : ℕ → List (Answer Bytes) → Prog (Unit {0})
unfolding datagram_case
datagrams sockfd [] = waits (Call.recv_from sockfd 256 ∷ [])
datagrams sockfd (a ∷ more) =
    after (Call.recv_from sockfd 256 ∷ []) (datagram_case sockfd a) >> datagrams sockfd more

-- main of ameba/udp_server.c: an empty datagram ends it.
unfoldable pub udp_server : Answer ℕ → Answer (Unit {0}) → List (Answer Bytes) → Prog (Unit {0})
unfolding datagrams
udp_server socket bound answers = do
  sockfd ← call_or_exit Call.socket exit_minus_one socket
  ok ← call_or_exit (Call.bind sockfd) exit_minus_one bound
  datagrams sockfd answers

-- main of ameba/tcp_select_server.c, which is that of C/select_srv_better.c with other messages. It
-- returns no status; 0 stands for that.
unfoldable pub tcp_select_server :
    SelectSrvBetter.Setup → List SelectSrvBetter.Round → Prog (Unit {0})
tcp_select_server a rs = select_srv_better a rs

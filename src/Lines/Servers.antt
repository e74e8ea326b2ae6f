-- ===== src/Lines/Servers.antt =====
-- C/basic_udp_server.c and C/unix_dgram_server.c: their loops are one, but for the calls that fail.
pub mod Answers
use network_pragramming.Prelude.{
  ℕ, ◌+◌, List, [], ◌∷◌, ◌++◌, Bytes, codes, length, take, leb, if◌then◌else◌,
}
use network_pragramming.Sys.{
  Errno, is_eintr, Answer, failed, gave, Call, Prog, returns, waits, exit, exit_failure,
  exit_minus_one, call, call_or_exit, after, ◌>>=◌, ◌>>◌, c_string,
}

-- BUF_SIZE
abbrev pub buf_size : ℕ
buf_size = 256

abbrev undefined : ℕ
undefined = 134

-- "ECHO BACK : %s"
abbrev pub echo_back : Bytes → Bytes
echo_back text = codes "ECHO BACK : " ++ text

-- What recvfrom and sendto answer in one round.
pub record Datagram : Type 0 where
  pub received : Answer Bytes
  pub sent : Answer ℕ

-- What happens when recvfrom or sendto fails; the loop goes on if it returns.
pub record Server : Type 0 where
  pub receive_failed : ℕ → Errno → Prog (Unit {0})
  pub send_failed : ℕ → Errno → Prog (Unit {0})

sent_case : Server → ℕ → Answer ℕ → Prog (Unit {0})
sent_case v fd (failed e) = v.send_failed fd e
sent_case v fd (gave n) = returns [] tt

-- sprintf and sendto. With more than 243 bytes in front of a null byte the text does not fit, and
-- without a null byte in recv_msg sprintf reads behind it.
send_back : Server → ℕ → Bytes → Answer ℕ → Prog (Unit {0})
unfolding sent_case
send_back v fd text a =
    if leb (length (echo_back text) + 1) buf_size
    then after (Call.send_to fd (echo_back text) ∷ []) (sent_case v fd a)
    else exit undefined

received_case : Server → ℕ → Datagram → Answer Bytes → Prog (Unit {0})
unfolding send_back
received_case v fd d (failed e) = v.receive_failed fd e
received_case v fd d (gave bytes) = send_back v fd (c_string (take buf_size bytes)) d.sent

pub round : Server → ℕ → Datagram → Prog (Unit {0})
unfolding received_case
round v fd d = after (Call.recv_from fd buf_size ∷ []) (received_case v fd d d.received)

-- dg_echo
pub dg_echo : Server → ℕ → List Datagram → Prog (Unit {0})
unfolding round
dg_echo v fd [] = waits (Call.recv_from fd buf_size ∷ [])
dg_echo v fd (d ∷ ds) = round v fd d >> dg_echo v fd ds

close_and_exit : ℕ → ℕ → Prog (Unit {0})
close_and_exit fd status = call (Call.close fd) >> exit status

-- The result of sendto is not looked at.
pub udp_server : Server
unfolding close_and_exit
udp_server = record {
  receive_failed = λ fd e. close_and_exit fd exit_minus_one;
  send_failed = λ fd e. returns [] tt;
}

-- With EINTR the loop goes on.
dgram_server : Server
unfolding close_and_exit
dgram_server = record {
  receive_failed = λ fd e. if is_eintr e then returns [] tt else close_and_exit fd exit_failure;
  send_failed = λ fd e. if is_eintr e then returns [] tt else close_and_exit fd exit_failure;
}

pub record Setup : Type 0 where
  pub socket : Answer ℕ
  pub bound : Answer (Unit {0})

-- main of C/basic_udp_server.c
unfoldable pub basic_udp_server : Setup → List Datagram → Prog (Unit {0})
unfolding dg_echo udp_server
basic_udp_server a ds = do
  fd ← call_or_exit Call.socket exit_minus_one a.socket
  bound ← call_or_exit (Call.bind fd) exit_minus_one a.bound
  dg_echo udp_server fd ds

-- main of C/unix_dgram_server.c
unfoldable pub unix_dgram_server : Setup → List Datagram → Prog (Unit {0})
unfolding dg_echo dgram_server
unix_dgram_server a ds = do
  fd ← call_or_exit Call.socket exit_failure a.socket
  call (Call.unlink (codes "/tmp/unix_domain_sockfd"))
  bound ← call_or_exit (Call.bind fd) exit_failure a.bound
  dg_echo dgram_server fd ds

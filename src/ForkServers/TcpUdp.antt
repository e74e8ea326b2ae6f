-- ===== src/ForkServers/TcpUdp.antt =====
-- C/select_tcp_udp_server.c: a server that answers over TCP and over UDP, in one loop on select.
pub mod Answers
pub mod Echo
use network_pragramming.Prelude.{
  ℕ, ◌+◌, true, false, List, [], ◌∷◌, ◌++◌, Bytes, codes, length, take, drop, replicate, leb, ◌==◌,
  if◌then◌else◌,
}
use network_pragramming.Sys.{
  is_eintr, Answer, failed, gave, Call, Prog, returns, exits, waits, exit, exit_minus_one, call,
  call_or_exit, after, ◌>>=◌, ◌>>◌, Input, read_error, end_of_file, input, write_some, FdSet,
  fd_set, fd_ready, c_string, overlay,
}
use network_pragramming.ForkServers.Accept.{forked_case}
use network_pragramming.ForkServers.Loop.{Turn, loop}

-- BUF_SIZE
abbrev pub buf_size : ℕ
buf_size = 256

abbrev undefined : ℕ
undefined = 134

abbrev pub response : Bytes
response = codes "I got your message"

written_case : Answer ℕ → Prog (Unit {0}) → Prog (Unit {0})
written_case (failed e) later = exit exit_minus_one
written_case (gave n) later = later

-- What follows read.
pub process_case : ℕ → Input → Answer ℕ → Prog (Unit {0}) → Prog (Unit {0})
unfolding written_case
process_case fd (read_error e) w later =
    if is_eintr e then later else (call (Call.close fd) >> exit exit_minus_one)
process_case fd end_of_file w later = call (Call.close fd)
process_case fd (input bytes) w later = write_some fd response w >>= λ r. written_case r later

pub process : ℕ → List Turn → Prog (Unit {0})
unfolding process_case
process fd ts = loop 255 process_case fd ts

-- What the calls of one turn of the loop answer: select with its result and what is ready, accept
-- and fork with the child's reads, and recvfrom.
pub record Round : Type 0 where
  pub selected : Answer (ℕ × FdSet)
  pub accepted : Answer ℕ
  pub forked : Answer ℕ
  pub work : List Turn
  pub datagram : Answer Bytes

fork_failed : ℕ → Prog (Unit {0})
fork_failed fd = exit exit_minus_one

tcp_part : ℕ → Round → Prog (Unit {0})
unfolding process fork_failed
tcp_part listenfd r = do
  new_sock ← call_or_exit (Call.accept listenfd) exit_minus_one r.accepted
  forked_case process fork_failed listenfd new_sock r.work r.forked

-- "ECHO BACK : %s"
abbrev pub echo_back : Bytes → Bytes
echo_back text = codes "ECHO BACK : " ++ text

-- sprintf and sendto, whose result is not looked at. A text of 243 bytes fills udp_send_buf with its
-- null byte; a longer one is written behind its end.
pub send_back : ℕ → Bytes → Prog Bytes
send_back udpfd buf =
    if leb (length (echo_back (c_string buf)) + 1) buf_size
    then returns (Call.send_to udpfd (echo_back (c_string buf)) ∷ []) buf
    else exit undefined

pub udp_part : ℕ → Bytes → Answer Bytes → Prog Bytes
unfolding send_back
udp_part udpfd buf (failed e) =
    exits (Call.recv_from udpfd buf_size ∷ Call.close udpfd ∷ []) exit_minus_one
udp_part udpfd buf (gave bytes) =
    after (Call.recv_from udpfd buf_size ∷ []) (send_back udpfd (overlay (take buf_size bytes) buf))

-- rfds and udp_recv_buf.
pub record State : Type 0 where
  pub rfds : FdSet
  pub udp_recv_buf : Bytes

-- The cases of the result of select.
selected_case : ℕ → ℕ → State → Round → ℕ → Prog State
unfolding tcp_part udp_part
selected_case listenfd udpfd s r count = if count == 0 then returns [] s else do
  (if s.rfds listenfd then tcp_part listenfd r else returns [] tt)
  buf ←
      (if s.rfds udpfd then udp_part udpfd s.udp_recv_buf r.datagram else returns [] s.udp_recv_buf)
  returns [] (record s { udp_recv_buf = buf })

ready_case : ℕ → ℕ → State → Round → Answer (ℕ × FdSet) → Prog State
unfolding selected_case
ready_case listenfd udpfd s r (failed e) = if is_eintr e then returns [] s else exit exit_minus_one
ready_case listenfd udpfd s r (gave (count, ready)) =
    selected_case listenfd udpfd (record s { rfds = fd_ready s.rfds ready }) r count

round : ℕ → ℕ → State → Round → Prog State
unfolding ready_case
round listenfd udpfd s r = after (Call.select ∷ []) (
    ready_case listenfd udpfd (record s { rfds = fd_set udpfd (fd_set listenfd s.rfds) }) r
      r.selected)

rounds : ℕ → ℕ → State → List Round → Prog (Unit {0})
unfolding round
rounds listenfd udpfd s [] = waits (Call.select ∷ [])
rounds listenfd udpfd s (r ∷ rs) = round listenfd udpfd s r >>= λ s'. rounds listenfd udpfd s' rs

-- What the calls before the loop answer.
pub record Setup : Type 0 where
  pub tcp_socket : Answer ℕ
  pub reused : Answer (Unit {0})
  pub tcp_bound : Answer (Unit {0})
  pub listening : Answer (Unit {0})
  pub udp_socket : Answer ℕ
  pub udp_bound : Answer (Unit {0})

-- main; `rfds` is what is in the set of descriptors before it is first used.
unfoldable pub select_tcp_udp_server : FdSet → Setup → List Round → Prog (Unit {0})
unfolding rounds
select_tcp_udp_server rfds a rs = do
  listenfd ← call_or_exit Call.socket exit_minus_one a.tcp_socket
  reused ← call_or_exit (Call.set_reuseaddr listenfd) exit_minus_one a.reused
  bound ← call_or_exit (Call.bind listenfd) exit_minus_one a.tcp_bound
  listening ← call_or_exit (Call.listen listenfd 5) exit_minus_one a.listening
  udpfd ← call_or_exit Call.socket exit_minus_one a.udp_socket
  udp_bound ← call_or_exit (Call.bind udpfd) exit_minus_one a.udp_bound
  rounds listenfd udpfd (record { rfds = rfds; udp_recv_buf = replicate buf_size 0 }) rs

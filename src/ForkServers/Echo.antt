-- ===== src/ForkServers/Echo.antt =====
-- C/basic_tcp_server.c: an echo server.
pub mod Echoes
use network_pragramming.Prelude.{ℕ, List, [], ◌∷◌, Bytes, if◌then◌else◌}
use network_pragramming.Sys.{
  is_eintr, Answer, failed, gave, Call, Prog, returns, exits, waits, exit, exit_failure, call,
  call_or_exit, after, ◌>>=◌, ◌>>◌, Input, read_error, end_of_file, input, write_some,
}
use network_pragramming.ForkServers.Accept.{Round, rounds}
use network_pragramming.ForkServers.Loop.{Turn, loop}

-- sizeof(buf) - 1
abbrev pub room : ℕ
room = 255

-- The behaviour of the program is undefined from here on.
abbrev pub undefined : ℕ
undefined = 134

-- What follows read. After an error other than EINTR, the code goes on to write(sockfd, buf, -1),
-- whose size is converted to the largest size_t.
pub echo_case : ℕ → Input → Answer ℕ → Prog (Unit {0}) → Prog (Unit {0})
echo_case fd (read_error e) w later = if is_eintr e then later else exit undefined
echo_case fd end_of_file w later = call (Call.close fd)
echo_case fd (input bytes) w later = write_some fd bytes w >>= λ _. later

unfoldable pub str_echo : ℕ → List Turn → Prog (Unit {0})
unfolding echo_case
str_echo fd ts = loop room echo_case fd ts

-- fork answers -1: the code takes it for the parent.
unfoldable pub fork_failed : ℕ → Prog (Unit {0})
fork_failed fd = call (Call.close fd)

-- What the calls before the loop answer; the results of setsockopt and listen are not looked at.
pub record Setup : Type 0 where
  pub socket : Answer ℕ
  pub bound : Answer (Unit {0})

-- main
unfoldable pub basic_tcp_server : Setup → List (Round (List Turn)) → Prog (Unit {0})
unfolding str_echo fork_failed
basic_tcp_server a rs = do
  fd ← call_or_exit Call.socket exit_failure a.socket
  call (Call.set_reuseaddr fd)
  bound ← call_or_exit (Call.bind fd) exit_failure a.bound
  call (Call.listen fd 5)
  rounds str_echo fork_failed fd rs

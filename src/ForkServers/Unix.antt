-- ===== src/ForkServers/Unix.antt =====
-- C/unix_stream_server.c: a server on a Unix socket that answers each read.
pub mod Replies
use network_pragramming.Prelude.{
  ℕ, ◌+◌, ◌≤◌, List, [], ◌∷◌, ◌++◌, Bytes, codes, length, leb, if◌then◌else◌,
}
use network_pragramming.Sys.{
  is_eintr, Answer, failed, gave, Call, Prog, returns, exits, waits, exit, exit_failure, call,
  call_or_exit, after, ◌>>=◌, ◌>>◌, Input, read_error, end_of_file, input, write_some, c_string,
}
use network_pragramming.ForkServers.Accept.{Round, rounds}
use network_pragramming.ForkServers.Loop.{Turn, loop}

-- BUF_SIZE
abbrev pub buf_size : ℕ
buf_size = 256

abbrev pub undefined : ℕ
undefined = 134

-- "[response] %s" of what is in recvline: the bytes up to the first null byte.
abbrev pub response : Bytes → Bytes
response bytes = codes "[response] " ++ c_string bytes

written_case : Answer ℕ → Prog (Unit {0}) → Prog (Unit {0})
written_case (failed e) later = exit exit_failure
written_case (gave n) later = later

-- sprintf into sendline, and write. With more than 244 bytes in front of a null byte the text and
-- its own null byte do not fit, and without a null byte in recvline sprintf reads behind it.
unfoldable pub respond : ℕ → Bytes → Answer ℕ → Prog (Unit {0}) → Prog (Unit {0})
unfolding written_case
respond fd bytes w later =
    if leb (length (response bytes) + 1) buf_size
    then (write_some fd (response bytes) w >>= λ r. written_case r later)
    else exit undefined

-- What follows read: the end of the file, n = 0, is answered like an empty line.
unfoldable pub unix_case : ℕ → Input → Answer ℕ → Prog (Unit {0}) → Prog (Unit {0})
unfolding respond
unix_case fd (read_error e) w later = if is_eintr e then later else exit exit_failure
unix_case fd end_of_file w later = respond fd [] w later
unix_case fd (input bytes) w later = respond fd bytes w later

unfoldable pub str_echo : ℕ → List Turn → Prog (Unit {0})
unfolding unix_case
str_echo fd ts = loop buf_size unix_case fd ts

pub fork_failed : ℕ → Prog (Unit {0})
fork_failed fd = exit exit_failure

-- UNIX_DOMAIN_PATH
abbrev pub unix_domain_path : Bytes
unix_domain_path = codes "/tmp/unix_domain_sockfd"

-- What the calls before the loop answer; the results of unlink and listen are not looked at.
pub record Setup : Type 0 where
  pub socket : Answer ℕ
  pub bound : Answer (Unit {0})

-- main
unfoldable pub unix_stream_server : Setup → List (Round (List Turn)) → Prog (Unit {0})
unfolding str_echo fork_failed
unix_stream_server a rs = do
  fd ← call_or_exit Call.socket exit_failure a.socket
  call (Call.unlink unix_domain_path)
  bound ← call_or_exit (Call.bind fd) exit_failure a.bound
  call (Call.listen fd 5)
  rounds str_echo fork_failed fd rs

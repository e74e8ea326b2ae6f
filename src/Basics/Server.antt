-- ===== src/Basics/Server.antt =====
-- C/basic_server.c: one connection, one message.
use network_pragramming.Prelude.{ℕ, [], Bytes}
use network_pragramming.Sys.{
  Answer, failed, gave, Call, Prog, exit, exit_failure, call, call_or_exit, ◌>>=◌, ◌>>◌, Input,
  read_error, end_of_file, input, read_some, write_some, c_string,
}

pub record Answers : Type 0 where
  pub socket : Answer ℕ
  pub bound : Answer (Unit {0})
  pub accepted : Answer ℕ
  pub request : Answer Bytes
  pub written : Answer ℕ

written_case : Answer ℕ → Prog (Unit {0})
written_case (failed e) = exit exit_failure
written_case (gave n) = exit 0

-- Behind read: the text of recv_buf is sent back, an empty one too.
request_case : ℕ → Answer ℕ → Input → Prog (Unit {0})
unfolding written_case
request_case fd w (read_error e) = exit exit_failure
request_case fd w end_of_file = write_some fd [] w >>= written_case
request_case fd w (input bytes) = write_some fd (c_string bytes) w >>= written_case

-- main; the result of listen is not looked at.
unfoldable pub basic_server : Answers → Prog (Unit {0})
unfolding request_case
basic_server a = do
  master_sock ← call_or_exit Call.socket exit_failure a.socket
  bound ← call_or_exit (Call.bind master_sock) exit_failure a.bound
  call (Call.listen master_sock 5)
  new_sock ← call_or_exit (Call.accept master_sock) exit_failure a.accepted
  i ← read_some new_sock 255 a.request
  request_case new_sock a.written i

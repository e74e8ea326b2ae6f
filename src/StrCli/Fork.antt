-- ===== src/StrCli/Fork.antt =====
-- fork_str_cli and main of C/nonblock_stream_client.c: the parent sends what is typed, and the child
-- prints what the server sends.
pub mod Moves
pub mod Stops
use network_pragramming.Prelude.{
  ℕ, ◌&&◌, Option, none, some, List, [], ◌∷◌, Bytes, length, ltb, ◌==◌, if◌then◌else◌,
}
use network_pragramming.Sys.{
  is_eintr, Answer, failed, gave, Call, Prog, returns, exits, waits, exit, exit_failure,
  call_or_exit, after, ◌>>=◌, ◌>>◌, Input, read_error, end_of_file, input, read_some, write_some,
  c_string, overlay,
}
use network_pragramming.StrCli.{max_size}

abbrev undefined : ℕ
undefined = 134

-- fputs(recvline, stdout): without a null byte in recvline it reads behind its end.
put_line : Bytes → (Bytes → Prog (Unit {0})) → Prog (Unit {0})
put_line recvline later =
    if ltb (length (c_string recvline)) (length recvline)
    then after (Call.put (c_string recvline) ∷ []) (later recvline)
    else exit undefined

-- What follows read in the child; the bytes that it stores are not ended by a null byte.
received_case : Bytes → Input → (Bytes → Prog (Unit {0})) → Prog (Unit {0})
unfolding put_line
received_case recvline (read_error e) later =
    if is_eintr e then later recvline else exit exit_failure
received_case recvline end_of_file later = exit 0
received_case recvline (input bytes) later =
    after (Call.kill_parent ∷ []) (put_line (overlay bytes recvline) later)

-- The child.
unfoldable pub show_lines : ℕ → Bytes → List (Answer Bytes) → Prog (Unit {0})
unfolding received_case
show_lines fd recvline [] = waits (Call.read fd max_size ∷ [])
show_lines fd recvline (a ∷ more) =
    read_some fd max_size a >>= λ i. received_case recvline i (λ buf. show_lines fd buf more)

-- A line that fgets has stored, and what write answers for it.
pub record Line : Type 0 where
  pub sendline : Bytes
  pub written : Answer ℕ

-- The parent, over the results of fgets. No handler is installed, so pause does not return.
unfoldable pub send_lines : ℕ → List (Option Line) → Prog (Unit {0})
send_lines fd [] = waits []
send_lines fd (none ∷ more) = waits (Call.shutdown_wr fd ∷ Call.pause ∷ [])
send_lines fd (some l ∷ more) =
    let later = send_lines fd more in write_some fd (c_string l.sendline) l.written >>= λ _. later

-- What the calls of both processes answer; `recvline` is what is in the child's array at first.
pub record Answers : Type 0 where
  pub forked : Answer ℕ
  pub recvline : Bytes
  pub reads : List (Answer Bytes)
  pub typed : List (Option Line)

-- When fork fails, with -1, the code goes on as the parent.
forked_case : ℕ → Answers → Answer ℕ → Prog (Unit {0})
unfolding show_lines send_lines
forked_case fd a (failed e) = send_lines fd a.typed
forked_case fd a (gave pid) =
    if pid == 0 then show_lines fd a.recvline a.reads else send_lines fd a.typed

fork_str_cli : ℕ → Answers → Prog (Unit {0})
unfolding forked_case
fork_str_cli fd a = after (Call.fork ∷ []) (forked_case fd a a.forked)

connected_main : Answer ℕ → Answer (Unit {0}) → Answers → Prog (Unit {0})
unfolding fork_str_cli
connected_main sock connected a = do
  fd ← call_or_exit Call.socket exit_failure sock
  ok ← call_or_exit (Call.connect fd) exit_failure connected
  fork_str_cli fd a
  exit 0

-- main, with its argc.
unfoldable pub client_main : ℕ → Answer ℕ → Answer (Unit {0}) → Answers → Prog (Unit {0})
unfolding connected_main
client_main argc sock connected a =
    if argc == 2 then connected_main sock connected a else exit exit_failure

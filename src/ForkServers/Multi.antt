-- ===== src/ForkServers/Multi.antt =====
-- C/multi_conn_server.c: a server that answers one message of each connection.
pub mod Signals
use network_pragramming.Prelude.{ℕ, List, [], ◌∷◌, Bytes, codes, if◌then◌else◌}
use network_pragramming.Sys.{
  Answer, failed, gave, Call, Prog, returns, exits, waits, exit, exit_failure, call, call_or_exit,
  after, ◌>>=◌, ◌>>◌, Input, read_error, end_of_file, input, read_some, write_some,
}
use network_pragramming.ForkServers.Accept.{Round, round}
use network_pragramming.ForkServers.Loop.{Turn}
use network_pragramming.ForkServers.Reap.{reap}

abbrev response : Bytes
response = codes "I got your message"

written_case : Answer ℕ → Prog (Unit {0})
written_case (failed e) = exit exit_failure
written_case (gave n) = returns [] tt

-- What follows read: the end of the file is answered too.
read_case : ℕ → Answer ℕ → Input → Prog (Unit {0})
unfolding written_case
read_case fd w (read_error e) = exit exit_failure
read_case fd w end_of_file = write_some fd response w >>= written_case
read_case fd w (input bytes) = write_some fd response w >>= written_case

process : ℕ → Turn → Prog (Unit {0})
unfolding read_case
process fd t = read_some fd 255 t.read >>= read_case fd t.written

-- The handler of SIGINT in a child.
sig_int_child : ℕ → Prog (Unit {0})
sig_int_child new_sock = call (Call.close new_sock) >> exit 0

-- What a child gets: an answer to read, or SIGINT while it waits in read.
pub data Work : Type 0 where
  request : Turn → Work
  interrupted : Work

child_work : ℕ → Work → Prog (Unit {0})
unfolding process sig_int_child
child_work fd (request t) = process fd t
child_work fd interrupted = after (Call.read fd 255 ∷ []) (sig_int_child fd)

fork_failed : ℕ → Prog (Unit {0})
fork_failed fd = call (Call.close fd) >> exit exit_failure

-- The handlers of the parent.
sig_child : List (Answer ℕ) → Prog (Unit {0})
unfolding reap
sig_child pids = reap pids >> exit 0

sig_int_parent : ℕ → Prog (Unit {0})
sig_int_parent master_sock = call (Call.close master_sock) >> exit 0

-- What happens to the parent in its loop: a round, or a signal while it waits in accept.
pub data Event : Type 0 where
  incoming : Round Work → Event
  sigchld : List (Answer ℕ) → Event
  sigint : Event

pub event : ℕ → Event → Prog (Unit {0})
unfolding child_work fork_failed sig_child sig_int_parent
event master_sock (incoming r) = round child_work fork_failed master_sock r
event master_sock (sigchld pids) = after (Call.accept master_sock ∷ []) (sig_child pids)
event master_sock sigint = after (Call.accept master_sock ∷ []) (sig_int_parent master_sock)

pub events : ℕ → List Event → Prog (Unit {0})
unfolding event
events master_sock [] = waits (Call.accept master_sock ∷ [])
events master_sock (e ∷ es) = event master_sock e >> events master_sock es

-- What the calls before the loop answer.
pub record Setup : Type 0 where
  pub socket : Answer ℕ
  pub bound : Answer (Unit {0})
  pub listening : Answer (Unit {0})

-- main
unfoldable pub multi_conn_server : Setup → List Event → Prog (Unit {0})
unfolding events
multi_conn_server a es = do
  fd ← call_or_exit Call.socket exit_failure a.socket
  bound ← call_or_exit (Call.bind fd) exit_failure a.bound
  listening ← call_or_exit (Call.listen fd 10) exit_failure a.listening
  events fd es

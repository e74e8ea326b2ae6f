-- ===== src/Basics/Times.antt =====
-- C/daytime_client.c, C/daytime_server.c and C/daytime_inetd.c. The text of ctime is an argument.
use network_pragramming.Prelude.{ℕ, Bool, List, [], ◌∷◌, ◌++◌, Bytes, codes, take, if◌then◌else◌}
use network_pragramming.Sys.{
  is_eintr, Answer, failed, gave, Call, Prog, returns, exits, waits, exit, exit_failure, call,
  call_or_exit, after, ◌>>=◌, ◌>>◌, Input, read_error, end_of_file, input, read_some, write_some,
  c_string,
}

-- A read of the client's loop, and whether fputs succeeds.
pub record Line : Type 0 where
  pub read : Answer Bytes
  pub printed : Bool

-- recvline has room for the null byte behind 256 others.
line_case : Bool → Input → Prog (Unit {0}) → Prog (Unit {0})
line_case printed (read_error e) later = exit exit_failure
line_case printed end_of_file later = exit 0
line_case printed (input bytes) later =
    after (Call.put (c_string bytes) ∷ []) (if printed then later else exit exit_failure)

print_lines : ℕ → List Line → Prog (Unit {0})
unfolding line_case
print_lines fd [] = waits (Call.read fd 256 ∷ [])
print_lines fd (l ∷ ls) =
    let later = print_lines fd ls in read_some fd 256 l.read >>= λ i. line_case l.printed i later

-- What the calls before the client's loop answer; inet_pton takes the address, or does not.
pub record Connecting : Type 0 where
  pub socket : Answer ℕ
  pub valid : Bool
  pub connected : Answer (Unit {0})

connecting : Connecting → ℕ → Prog (Unit {0})
connecting a fd =
    if a.valid
    then (call_or_exit (Call.connect fd) exit_failure a.connected >>= λ ok. returns [] tt)
    else exit exit_failure

-- main of C/daytime_client.c, behind the test of argc.
unfoldable pub daytime_client : Connecting → List Line → Prog (Unit {0})
unfolding connecting print_lines
daytime_client a ls = do
  fd ← call_or_exit Call.socket exit_failure a.socket
  connecting a fd
  print_lines fd ls

-- "%.24s\r\n"
time_text : Bytes → Bytes
time_text date = take 24 (c_string date) ++ codes "\r\n"

-- A turn of the server's loop: accept and write with the time between them, or SIGINT while it
-- waits in accept.
pub data Turn : Type 0 where
  asked : Answer ℕ → Bytes → Answer ℕ → Turn
  sigint : Turn

-- The result of write is not looked at.
answer : ℕ → Bytes → Answer ℕ → Prog (Unit {0})
unfolding time_text
answer connfd date w = do n ← write_some connfd (time_text date) w; call (Call.close connfd)

-- A failed accept ends the server with EXIT_SUCCESS.
turn : ℕ → Turn → Prog (Unit {0})
unfolding answer
turn listenfd (asked (failed e) date w) = exits (Call.accept listenfd ∷ []) 0
turn listenfd (asked (gave connfd) date w) =
    after (Call.accept listenfd ∷ []) (answer connfd date w)
turn listenfd sigint = exits (Call.accept listenfd ∷ Call.close listenfd ∷ []) 0

turns : ℕ → List Turn → Prog (Unit {0})
unfolding turn
turns listenfd [] = waits (Call.accept listenfd ∷ [])
turns listenfd (t ∷ ts) = turn listenfd t >> turns listenfd ts

pub record Listening : Type 0 where
  pub socket : Answer ℕ
  pub reused : Answer (Unit {0})
  pub bound : Answer (Unit {0})

-- main of C/daytime_server.c
unfoldable pub daytime_server : Listening → List Turn → Prog (Unit {0})
unfolding turns
daytime_server a ts = do
  listenfd ← call_or_exit Call.socket exit_failure a.socket
  reused ← call_or_exit (Call.set_reuseaddr listenfd) exit_failure a.reused
  bound ← call_or_exit (Call.bind listenfd) exit_failure a.bound
  call (Call.listen listenfd 0)
  turns listenfd ts

-- What getpeername answers: nothing, an address that inet_ntop can print or not, or one of
-- another family.
pub data Peer : Type 0 where
  unknown : Peer
  inet inet6 : Bool → Peer
  other_family : Peer

-- print_connection_info, whose text goes to the log.
log_peer : Peer → Prog (Unit {0})
log_peer Peer.unknown = exit exit_failure
log_peer (Peer.inet printable) = if printable then returns [] tt else exit exit_failure
log_peer (Peer.inet6 printable) = if printable then returns [] tt else exit exit_failure
log_peer Peer.other_family = exit exit_failure

-- Only a write that a signal interrupts ends the program with a failure.
written_case : Answer ℕ → Prog (Unit {0})
written_case (failed e) = if is_eintr e then exit exit_failure else returns [] tt
written_case (gave n) = returns [] tt

-- main of C/daytime_inetd.c: inetd has made the connection descriptor 0.
unfoldable pub daytime_inetd : Peer → Bytes → Answer ℕ → Prog (Unit {0})
unfolding log_peer written_case time_text
daytime_inetd peer date w = do
  log_peer peer
  n ← write_some 0 (time_text date) w
  written_case n
  call (Call.close 0)
  exit 0

-- ===== src/StrCli.antt =====
-- The select loop of C/nonblock_stream_client.c, str_cli: two buffers of MAX_SIZE bytes between
-- non-blocking descriptors, stdin to the socket and the socket to stdout. One round of the
-- `while (1)` is a function of the state and of what select, read and write answer in that round.
pub mod Flow
pub mod Invariant
pub mod Relay
pub mod Flush
pub mod Fork
pub mod Time
mod Tests
use network_pragramming.Prelude.{
  ℕ, ◌+◌, ◌-◌, ◌≤◌, ◌<◌, ◌≡◌, Bool, true, false, not, ◌&&◌, Option, none, some, List, [], ◌∷◌, ◌++◌,
  Bytes, length, drop, ltb, ◌==◌, if◌then◌else◌,
}
use network_pragramming.Sys.{
  is_eagain, Input, read_error, end_of_file, input, read_some, write_some, Answer, failed, gave,
  Call, Prog, returns, exits, waits, after, exit, call, ◌>>=◌, ◌>>◌, exit_failure,
}

abbrev pub max_size : ℕ
max_size = 1024

abbrev pub stdin : ℕ
stdin = 0

abbrev pub stdout : ℕ
stdout = 1

-- `to` or `fr`: the bytes below the input pointer, and the offset of the output pointer.
pub record Buffer : Type 0 where
  pub stored : Bytes
  pub out : ℕ

abbrev pub empty : Buffer
empty = record { stored = []; out = 0 }

-- The bytes between the output and the input pointer.
abbrev pub pending : Buffer → Bytes
pending b = drop b.out b.stored

-- The room behind the input pointer.
abbrev pub room : Buffer → ℕ
room b = max_size - length b.stored

-- friptr - froptr, toiptr - tooptr
abbrev pub backlog : Buffer → ℕ
backlog b = length b.stored - b.out

pub record State : Type 0 where
  pub to : Buffer
  pub fr : Buffer
  pub stdineof : Bool

-- rset and wset, at the descriptors that are ever put into them.
pub record Sets : Type 0 where
  pub r_stdin : Bool
  pub r_sock : Bool
  pub w_sock : Bool
  pub w_stdout : Bool

-- What the calls of one round answer; select answers with the descriptors that are ready.
pub record Round : Type 0 where
  pub ready : Answer Sets
  pub stdin_read : Answer Bytes
  pub sock_read : Answer Bytes
  pub stdout_write : Answer ℕ
  pub sock_write : Answer ℕ

prepare : State → Sets
prepare s = record {
  r_stdin = not s.stdineof && ltb (length s.to.stored) max_size;
  r_sock = ltb (length s.fr.stored) max_size;
  w_sock = not (s.to.out == length s.to.stored);
  w_stdout = not (s.fr.out == length s.fr.stored);
}

-- select leaves in the sets those that are ready; when it fails, the sets are unmodified, and the
-- code does not look at its result.
select_sets : Sets → Answer Sets → Sets
select_sets q (failed e) = q
select_sets q (gave r) = record {
  r_stdin = q.r_stdin && r.r_stdin;
  r_sock = q.r_sock && r.r_sock;
  w_sock = q.w_sock && r.w_sock;
  w_stdout = q.w_stdout && r.w_stdout;
}

abbrev append : Buffer → Bytes → Buffer
append b bytes = record b { stored = b.stored ++ bytes }

abbrev is_drained : Buffer → Bool
is_drained b = b.out == length b.stored

shutdown_if : Bool → ℕ → Prog (Unit {0})
shutdown_if true sock = call (Call.shutdown_wr sock)
shutdown_if false sock = returns [] tt

stdin_input : ℕ → State → Sets → Input → Prog (State × Sets)
unfolding shutdown_if
stdin_input sock s q (read_error e) = if is_eagain e then returns [] (s, q) else exit exit_failure
stdin_input sock s q end_of_file = do
  shutdown_if (is_drained s.to) sock
  returns [] (record s { stdineof = true }, q)
stdin_input sock s q (input bytes) =
    returns [] (record s { to = append s.to bytes }, record q { w_sock = true })

-- `if (FD_ISSET(STDIN_FILENO, &rset))`
pub read_stdin : ℕ → State → Sets → Answer Bytes → Prog (State × Sets)
unfolding stdin_input
read_stdin sock s q a =
    if q.r_stdin
    then (do i ← read_some stdin (room s.to) a; stdin_input sock s q i)
    else returns [] (s, q)

-- `none`: str_cli returns.
sock_input : State → Sets → Input → Prog (Option (State × Sets))
sock_input s q (read_error e) = if is_eagain e then returns [] (some (s, q)) else exit exit_failure
sock_input s q end_of_file = if s.stdineof then returns [] none else exit exit_failure
sock_input s q (input bytes) =
    returns [] (some (record s { fr = append s.fr bytes }, record q { w_stdout = true }))

-- `if (FD_ISSET(sockfd, &rset))`
pub read_sock : ℕ → State → Sets → Answer Bytes → Prog (Option (State × Sets))
unfolding sock_input
read_sock sock s q a =
    if q.r_sock
    then (do i ← read_some sock (room s.fr) a; sock_input s q i)
    else returns [] (some (s, q))

-- `froptr += nwritten`, and both pointers back to the start once they meet.
pub advance : Buffer → ℕ → Buffer
advance b n = let b' = record b { out = b.out + n } in if is_drained b' then empty else b'

stdout_written : State → Answer ℕ → Prog State
unfolding advance
stdout_written s (failed e) = if is_eagain e then returns [] s else exit exit_failure
stdout_written s (gave n) = returns [] (record s { fr = advance s.fr n })

-- `if (FD_ISSET(STDOUT_FILENO, &wset) && (n = friptr - froptr) > 0)`
pub write_stdout : State → Sets → Answer ℕ → Prog State
unfolding stdout_written
write_stdout s q a =
    if q.w_stdout && ltb 0 (backlog s.fr)
    then (do r ← write_some stdout (pending s.fr) a; stdout_written s r)
    else returns [] s

sock_written : ℕ → State → Answer ℕ → Prog State
unfolding advance shutdown_if
sock_written sock s (failed e) = if is_eagain e then returns [] s else exit exit_failure
sock_written sock s (gave n) = do
  shutdown_if (is_drained (record (s.to) { out = s.to.out + n }) && s.stdineof) sock
  returns [] (record s { to = advance s.to n })

-- `if (FD_ISSET(sockfd, &wset) && (n = toiptr - tooptr) > 0)`
pub write_sock : ℕ → State → Sets → Answer ℕ → Prog State
unfolding sock_written
write_sock sock s q a =
    if q.w_sock && ltb 0 (backlog s.to)
    then (do r ← write_some sock (pending s.to) a; sock_written sock s r)
    else returns [] s

write_both : ℕ → Round → Option (State × Sets) → Prog (Option State)
unfolding write_stdout write_sock
write_both sock r none = returns [] none
write_both sock r (some (s, q)) = do
  s' ← write_stdout s q r.stdout_write
  s'' ← write_sock sock s' q r.sock_write
  returns [] (some s'')

-- One round of the loop on the socket `sock`; `none` when str_cli returns.
pub round : ℕ → State → Round → Prog (Option State)
unfolding prepare select_sets read_stdin read_sock write_both
round sock s r = do
  call Call.select
  (s', q') ← read_stdin sock s (select_sets (prepare s) r.ready) r.stdin_read
  next ← read_sock sock s' q' r.sock_read
  write_both sock r next

abbrev pub start : State
start = record { to = empty; fr = empty; stdineof = false }

-- The `while (1)`, over the answers of its rounds. It waits where they end.
pub rounds : ℕ → Option State → List Round → Prog (Unit {0})
unfolding round
rounds sock none rs = returns [] tt
rounds sock (some s) [] = waits (Call.select ∷ [])
rounds sock (some s) (r ∷ rs) = round sock s r >>= λ next. rounds sock next rs

-- str_cli, with the calls of fcntl that make the descriptors non-blocking.
pub str_cli : ℕ → List Round → Prog (Unit {0})
unfolding rounds
str_cli sock rs = do
  call (Call.set_nonblock sock)
  call (Call.set_nonblock stdin)
  call (Call.set_nonblock stdout)
  rounds sock (some start) rs

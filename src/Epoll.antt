-- ===== src/Epoll.antt =====
-- C/epoll_server.c: a server that prints what its clients send, over edge-triggered epoll.
pub mod Drain
pub mod Guarded
pub mod Shows
mod Tests
use network_pragramming.Prelude.{
  ℕ, Bool, true, false, not, ◌||◌, Option, none, some, List, [], ◌∷◌, Bytes, ◌==◌, if◌then◌else◌,
}
use network_pragramming.Sys.{
  is_eagain, Answer, failed, gave, Call, Prog, returns, exits, waits, exit, exit_failure, call,
  call_or_exit, after, ◌>>=◌, ◌>>◌, Input, read_error, end_of_file, input, read_some, write_some,
}

abbrev pub stdout : ℕ
stdout = 1

-- sizeof buf
abbrev pub buf_size : ℕ
buf_size = 512

-- SOMAXCONN
abbrev pub backlog : ℕ
backlog = 4096

-- The status of a process that abort has ended.
abbrev pub aborted : ℕ
aborted = 134

-- What fcntl answers to F_GETFL and to F_SETFL.
pub record Flags : Type 0 where
  pub got : Answer (Unit {0})
  pub set : Answer (Unit {0})

-- The result of F_SETFL: 0 or -1.
set_flags : ℕ → Answer (Unit {0}) → Prog Bool
set_flags fd (failed e) = returns (Call.set_nonblock fd ∷ []) false
set_flags fd (gave u) = returns (Call.set_nonblock fd ∷ Call.nonblocking fd ∷ []) true

-- make_socket_non_blocking; `true` is 0, and `false` is -1.
pub make_socket_non_blocking : ℕ → Flags → Prog Bool
unfolding set_flags
make_socket_non_blocking fd a = flags a.got
  where
    flags : Answer (Unit {0}) → Prog Bool
    flags (failed e) = returns (Call.get_flags fd ∷ []) false
    flags (gave u) = after (Call.get_flags fd ∷ []) (set_flags fd a.set)

-- An address that getaddrinfo found, with what socket and bind answer on it.
pub record Address : Type 0 where
  pub socket : Answer ℕ
  pub bound : Answer (Unit {0})

-- bind, and close if it fails.
bind_or_close : ℕ → Answer (Unit {0}) → Prog (Option ℕ)
bind_or_close fd (gave u) = returns (Call.bind fd ∷ []) (some fd)
bind_or_close fd (failed e) = returns (Call.bind fd ∷ Call.close fd ∷ []) none

-- One turn of the loop over the addresses: the bound socket, or `none` to go on.
try_address : Answer ℕ → Answer (Unit {0}) → Prog (Option ℕ)
unfolding bind_or_close
try_address (failed e) b = returns (Call.socket ∷ []) none
try_address (gave fd) b = after (Call.socket ∷ []) (bind_or_close fd b)

-- The loop stops at the first socket that is bound.
or_else : Option ℕ → Prog (Option ℕ) → Prog (Option ℕ)
or_else none p = p
or_else (some fd) p = returns [] (some fd)

-- `for (rp = result; rp != NULL; rp = rp->ai_next)`; `none` stands for rp == NULL behind it.
pub bind_first : List Address → Prog (Option ℕ)
unfolding try_address or_else
bind_first [] = returns [] none
bind_first (a ∷ rest) =
    let later = bind_first rest in try_address a.socket a.bound >>= λ r. or_else r later

-- create_and_bind; `none` is -1.
pub create_and_bind : Bytes → Answer (List Address) → Prog (Option ℕ)
unfolding bind_first
create_and_bind port (failed e) = returns (Call.resolve port ∷ []) none
create_and_bind port (gave found) = after (Call.resolve port ∷ []) (bind_first found)

-- An accept, and the calls that the new descriptor takes.
pub record Accepted : Type 0 where
  pub accept : Answer ℕ
  pub flags : Flags
  pub added : Answer (Unit {0})

abort_unless : Bool → Prog (Unit {0})
abort_unless true = returns [] tt
abort_unless false = exit aborted

-- The new socket made non-blocking and added to the descriptors that are monitored.
watch : ℕ → ℕ → Accepted → Prog (Unit {0})
unfolding make_socket_non_blocking abort_unless
watch efd fd a = do
  ok ← make_socket_non_blocking fd a.flags
  abort_unless ok
  call_or_exit (Call.epoll_add efd fd) aborted a.added

-- The inner loop of the listening socket: it ends when accept fails, with EAGAIN or otherwise.
pub accept_all : ℕ → ℕ → List Accepted → Prog (Unit {0})
unfolding watch
accept_all sfd efd [] = waits (Call.accept sfd ∷ [])
accept_all sfd efd (a ∷ rest) = let later = accept_all sfd efd rest in next a.accept later
  where
    next : Answer ℕ → Prog (Unit {0}) → Prog (Unit {0})
    next (failed e) later = returns (Call.accept sfd ∷ []) tt
    next (gave fd) later = after (Call.accept sfd ∷ []) (watch efd fd a >> later)

-- A read, and the write of what it has stored.
pub record Got : Type 0 where
  pub read : Answer Bytes
  pub written : Answer ℕ

-- The result of write is only tested for -1.
written : Answer ℕ → Prog (Unit {0})
written (failed e) = exit aborted
written (gave n) = returns [] tt

-- What follows one read, with the rest of the loop; the result is `done`.
read_case : Input → Answer ℕ → Prog Bool → Prog Bool
unfolding written
read_case (read_error e) w later = returns [] (not (is_eagain e))
read_case end_of_file w later = returns [] true
read_case (input bytes) w later = write_some stdout bytes w >>= λ r. written r >> later

-- The inner loop of a client: it reads until there is no more data.
pub read_all : ℕ → List Got → Prog Bool
unfolding read_case
read_all fd [] = waits (Call.read fd buf_size ∷ [])
read_all fd (g ∷ rest) =
    let later = read_all fd rest in
    read_some fd buf_size g.read >>= λ i. read_case i g.written later

close_if : Bool → ℕ → Prog (Unit {0})
close_if true fd = call (Call.close fd)
close_if false fd = returns [] tt

-- An entry of `events`: EPOLLERR, EPOLLHUP and EPOLLIN, and what the calls for it answer.
pub record Event : Type 0 where
  pub fd : ℕ
  pub err : Bool
  pub hup : Bool
  pub readable : Bool
  pub accepts : List Accepted
  pub reads : List Got

-- The body of `for (i = 0; i < n; i++)`.
pub handle_event : ℕ → ℕ → Event → Prog (Unit {0})
unfolding accept_all read_all close_if
handle_event sfd efd e =
    if e.err || (e.hup || not e.readable)
    then call (Call.close e.fd)
    else if sfd == e.fd
    then accept_all sfd efd e.accepts
    else (read_all e.fd e.reads >>= λ done. close_if done e.fd)

pub handle_events : ℕ → ℕ → List Event → Prog (Unit {0})
unfolding handle_event
handle_events sfd efd [] = returns [] tt
handle_events sfd efd (e ∷ es) = handle_event sfd efd e >> handle_events sfd efd es

-- What epoll_wait answers; when it fails, n is -1 and the loop over the events does nothing.
abbrev pub events_of : Answer (List Event) → List Event
events_of (failed e) = []
events_of (gave es) = es

-- The event loop; it waits in epoll_wait where its answers end.
pub event_loop : ℕ → ℕ → List (Answer (List Event)) → Prog (Unit {0})
unfolding handle_events
event_loop sfd efd [] = waits (Call.epoll_wait efd ∷ [])
event_loop sfd efd (w ∷ ws) =
    after (Call.epoll_wait efd ∷ []) (handle_events sfd efd (events_of w) >> event_loop sfd efd ws)

-- What the calls before the loop answer.
pub record Setup : Type 0 where
  pub addresses : Answer (List Address)
  pub flags : Flags
  pub listening : Answer (Unit {0})
  pub epoll : Answer ℕ
  pub added : Answer (Unit {0})

-- `if (sfd == -1) abort ();`
or_abort : Option ℕ → Prog ℕ
or_abort none = exit aborted
or_abort (some fd) = returns [] fd

-- main from a bound socket on.
pub serve : Setup → List (Answer (List Event)) → ℕ → Prog (Unit {0})
unfolding make_socket_non_blocking abort_unless event_loop
serve a ws sfd = do
  ok ← make_socket_non_blocking sfd a.flags
  abort_unless ok
  listening ← call_or_exit (Call.listen sfd backlog) aborted a.listening
  efd ← call_or_exit Call.epoll_create aborted a.epoll
  added ← call_or_exit (Call.epoll_add efd sfd) aborted a.added
  event_loop sfd efd ws

-- main over argv[1], argv[2], ...
unfoldable pub epoll_server : List Bytes → Setup → List (Answer (List Event)) → Prog (Unit {0})
unfolding create_and_bind or_abort serve
epoll_server (port ∷ []) a ws =
    create_and_bind port a.addresses >>= λ found. or_abort found >>= λ sfd. serve a ws sfd
epoll_server argv a ws = exit exit_failure

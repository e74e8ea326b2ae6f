-- ===== src/Daytime/Tcp.antt =====
-- C/daytime_tcp_server.c and C/daytime_tcp_server_daemon.c: tcp_listen, daemon_init, and the loop
-- that answers each connection with the time.
pub mod Listens
pub mod Leaks
pub mod Daemon
use network_pragramming.Prelude.{
  ℕ, zero, suc, ◌+◌, Bool, true, false, Option, none, some, List, [], ◌∷◌, ◌++◌, Bytes, codes, take,
  ltb, if◌then◌else◌,
}
use network_pragramming.Sys.{
  is_eintr, Answer, failed, gave, Call, Prog, returns, exits, waits, exit, exit_failure, call,
  call_or_exit, after, ◌>>=◌, ◌>>◌, write_some,
}
use network_pragramming.Daytime.Addresses.{Address, Found, search_found}

-- bind; 0 leaves the loop.
bind_case : ℕ → Answer (Unit {0}) → Prog Bool
bind_case fd (gave u) = returns (Call.bind fd ∷ []) true
bind_case fd (failed e) = returns (Call.bind fd ∷ []) false

-- The body of the loop of tcp_listen behind socket.
pub join_tcp : Address → ℕ → Prog Bool
unfolding bind_case
join_tcp a fd = do
  reuse ← call_or_exit (Call.set_reuseaddr fd) exit_failure a.reuse
  bind_case fd a.joined

-- The status of a process that a null pointer has ended: where no address could be bound, `res`
-- is NULL, and `res->ai_addrlen` is read.
abbrev crashed : ℕ
crashed = 139

-- What follows listen.
listened : ℕ × Bool → Prog ℕ
listened (fd, true) = returns [] fd
listened (fd, false) = exit crashed

-- tcp_listen with a place for the length of the address, as both programs call it.
unfoldable pub tcp_listen : Bytes → Answer Found → Answer (Unit {0}) → Prog ℕ
unfolding search_found join_tcp listened
tcp_listen serv (failed e) listening = exits (Call.resolve serv ∷ []) exit_failure
tcp_listen serv (gave found) listening = do
  call (Call.resolve serv)
  r ← search_found join_tcp found
  ok ← call_or_exit (Call.listen r.0 10) exit_failure listening
  listened r

-- The family of a client's address: AF_INET, AF_INET6 or another.
pub data Family : Type 0 where
  inet inet6 unknown : Family

-- What the calls of one round answer; `now` is what ctime makes of the time.
pub record Round : Type 0 where
  pub accepted : Answer (ℕ × Family)
  pub now : Bytes
  pub written : Answer ℕ

-- "%.24s\r\n"
abbrev pub time_text : Bytes → Bytes
time_text now = take 24 now ++ (13 ∷ 10 ∷ [])

-- What follows write: close, unless it failed.
write_case : ℕ → Answer ℕ → Prog (Unit {0})
write_case fd (gave n) = call (Call.close fd)
write_case fd (failed e) = if is_eintr e then returns [] tt else exit exit_failure

-- The answer to a client; one of an unknown family gets none.
pub serve_family : Round → ℕ → Family → Prog (Unit {0})
unfolding write_case
serve_family r fd Family.unknown = returns [] tt
serve_family r fd family = write_some fd (time_text r.now) r.written >>= λ w. write_case fd w

serve_accepted : Round → Answer (ℕ × Family) → Prog (Unit {0})
unfolding serve_family
serve_accepted r (failed e) = if is_eintr e then returns [] tt else exit exit_failure
serve_accepted r (gave (fd, family)) = serve_family r fd family

-- One round of the loop of main.
pub serve_round : ℕ → Round → Prog (Unit {0})
unfolding serve_accepted
serve_round listenfd r = call (Call.accept listenfd) >> serve_accepted r r.accepted

-- The loop of main; it waits in accept where its answers end.
unfoldable pub serve_rounds : ℕ → List Round → Prog (Unit {0})
unfolding serve_round
serve_rounds listenfd [] = waits (Call.accept listenfd ∷ [])
serve_rounds listenfd (r ∷ rs) = serve_round listenfd r >> serve_rounds listenfd rs

-- The service among argv[1], argv[2], …: the last of one or two arguments.
pub service_of : List Bytes → Option Bytes
service_of (serv ∷ []) = some serv
service_of (host ∷ serv ∷ []) = some serv
service_of argv = none

with_service : Option Bytes → Answer Found → Answer (Unit {0}) → List Round → Prog (Unit {0})
unfolding tcp_listen serve_rounds
with_service none found listening rs = exit exit_failure
with_service (some serv) found listening rs =
    tcp_listen serv found listening >>= λ fd. serve_rounds fd rs

-- main of C/daytime_tcp_server.c
unfoldable pub daytime_tcp_server :
    List Bytes → Answer Found → Answer (Unit {0}) → List Round → Prog (Unit {0})
unfolding with_service service_of
daytime_tcp_server argv found listening rs = with_service (service_of argv) found listening rs

-- What fork and setsid answer in daemon_init; fork answers 0 in the child.
pub record Forks : Type 0 where
  pub first : Answer ℕ
  pub session : Answer (Unit {0})
  pub second : Answer ℕ

-- MAX_FD
abbrev pub max_fd : ℕ
max_fd = 64

-- `for (i = 0; i < MAX_FD; i++) close(i);` from `i` on, with `left` descriptors left.
pub close_from : ℕ → ℕ → List Call
close_from i zero = []
close_from i (suc left) = Call.close i ∷ close_from (suc i) left

-- The part of daemon_init that the second child runs.
pub detach : List Call
unfolding close_from
detach =
    Call.chdir (codes "/") ∷ close_from 0 max_fd
    ++ (Call.open_file (codes "/dev/null")
        ∷ Call.open_file (codes "/dev/null")
        ∷ Call.open_file (codes "/dev/null")
        ∷ [])

-- A fork whose parent exits; `false` is -1.
fork_once : Answer ℕ → Prog Bool
fork_once (failed e) = returns (Call.fork ∷ []) false
fork_once (gave pid) = if ltb 0 pid then exits (Call.fork ∷ []) 0 else returns (Call.fork ∷ []) true

-- The second fork and what the second child does.
second_fork : Answer ℕ → Prog Bool
unfolding fork_once detach
second_fork a = fork_once a >>= λ ok. if ok then returns detach true else returns [] false

-- setsid and the second fork.
new_session : Answer (Unit {0}) → Answer ℕ → Prog Bool
unfolding second_fork
new_session (failed e) a = returns (Call.setsid ∷ []) false
new_session (gave u) a = after (Call.setsid ∷ []) (second_fork a)

-- daemon_init; `true` is 0 and `false` is -1. The process that goes on is the second child.
unfoldable pub daemon_init : Forks → Prog Bool
unfolding fork_once new_session
daemon_init f =
    let later = new_session f.session f.second in
    fork_once f.first >>= λ ok. if ok then later else returns [] false

as_daemon : Option Bytes → Forks → Answer Found → Answer (Unit {0}) → List Round → Prog (Unit {0})
unfolding daemon_init tcp_listen serve_rounds
as_daemon none f found listening rs = exit exit_failure
as_daemon (some serv) f found listening rs =
    daemon_init f >>= λ _. tcp_listen serv found listening >>= λ fd. serve_rounds fd rs

-- main of C/daytime_tcp_server_daemon.c, which does not look at the result of daemon_init.
unfoldable pub daytime_tcp_server_daemon :
    List Bytes → Forks → Answer Found → Answer (Unit {0}) → List Round → Prog (Unit {0})
unfolding as_daemon service_of
daytime_tcp_server_daemon argv f found listening rs =
    as_daemon (service_of argv) f found listening rs

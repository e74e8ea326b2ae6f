-- ===== src/SelectSrvBetter.antt =====
-- C/select_srv_better.c: a server for at most ten clients, which bounds its loop over the clients
-- by the highest slot ever used and by the number of ready descriptors.
pub mod Loop
pub mod Complete
pub mod Reference
pub mod Invariant
pub mod Conserved
mod Tests
use network_pragramming.Prelude.{
  ℕ, zero, suc, ◌+◌, ◌-◌, Bool, true, false, ◌&&◌, Option, none, some, List, [], ◌∷◌, ◌++◌, Bytes,
  length, take, replicate, ltb, leb, ◌==◌, if◌then◌else◌,
}
use network_pragramming.Sys.{
  Answer, failed, gave, Call, Prog, returns, exits, waits, exit, call, call_or_exit, after, ◌>>=◌,
  ◌>>◌, FdSet, fd_set, fd_clr, fd_ready,
}
use network_pragramming.Slots.{Slots, store, first_free}

abbrev pub max_connections : ℕ
max_connections = 10

abbrev pub recv_buf_size : ℕ
recv_buf_size = 256

-- `limit` is maxi + 1: the loop over the clients runs below it.
pub record Server : Type 0 where
  pub master_sock : ℕ
  pub cli_socks : Slots
  pub limit : ℕ
  pub max_sd : ℕ
  pub active_fds : FdSet

-- nready with the descriptors that are ready.
pub record Selected : Type 0 where
  pub nready : ℕ
  pub fds : FdSet

-- What the calls of one round answer; `received` is what read answers on a descriptor.
pub record Round : Type 0 where
  pub selected : Answer Selected
  pub accepted : Answer ℕ
  pub received : ℕ → Answer Bytes

-- The bytes that a read of at most `n` bytes stores; none stand for -1 and 0, which the code
-- treats alike.
abbrev pub stored : ℕ → Answer Bytes → Bytes
stored n (failed e) = []
stored n (gave bytes) = take n bytes

-- What a part of the loop over the clients leaves: its calls, slots and watched descriptors.
pub record Table : Type 0 where
  pub calls : List Call
  pub slots : Slots
  pub active : FdSet

-- The body of `if (FD_ISSET(sockfd, &rfds))` up to the count, for the slot of `sd`.
read_client : ℕ → FdSet → Bytes → Table
read_client sd active [] = record {
  calls = Call.read sd (recv_buf_size - 1) ∷ Call.close sd ∷ [];
  slots = none ∷ [];
  active = fd_clr sd active;
}
read_client sd active (b ∷ bytes) = record {
  calls = Call.read sd (recv_buf_size - 1) ∷ Call.received sd (b ∷ bytes) ∷ [];
  slots = some sd ∷ [];
  active = active;
}

abbrev pub join : Table → Table → Table
join t u = record { calls = t.calls ++ u.calls; slots = t.slots ++ u.slots; active = u.active }

abbrev pub untouched : Slots → FdSet → Table
untouched ss active = record { calls = []; slots = ss; active = active }

-- `for (i = 0; i <= maxi; i++)`: `left` slots are still below the limit, and the loop breaks when
-- `--nready <= 0`.
pub clients : Round → FdSet → ℕ → ℕ → Slots → FdSet → Table
clients r rfds zero n ss active = untouched ss active
clients r rfds (suc left) n [] active = untouched [] active
clients r rfds (suc left) n (none ∷ ss) active =
    join (untouched (none ∷ []) active) (clients r rfds left n ss active)
clients r rfds (suc left) n (some sd ∷ ss) active =
    let t = read_client sd active (stored (recv_buf_size - 1) (r.received sd)) in
    let more = join t (clients r rfds left (n - 1) ss t.active) in
    let skip = join (untouched (some sd ∷ []) active) (clients r rfds left n ss active) in
    if rfds sd then if leb n 1 then join t (untouched ss t.active) else more else skip

serve_clients : Round → FdSet → ℕ → Server → Prog Server
serve_clients r rfds n s =
    let t = clients r rfds s.limit n s.cli_socks s.active_fds in
    returns t.calls (record s { cli_socks = t.slots; active_fds = t.active })

-- The new connection in the first free slot.
add_client : ℕ → Server → Server
add_client new s = record s {
  cli_socks = store new s.cli_socks;
  active_fds = fd_set new s.active_fds;
  limit = if leb s.limit (first_free s.cli_socks) then first_free s.cli_socks + 1 else s.limit;
  max_sd = if ltb s.max_sd new then new else s.max_sd;
}

-- FD_SET on -1 is undefined; the model stops there with this status.
abbrev undefined : ℕ
undefined = 134

-- The branch of the listening socket. When accept fails, the code goes on with -1 as the new
-- descriptor: with a free slot it comes to FD_SET(-1, …), and without one it only closes -1.
new_connection : Round → FdSet → ℕ → Answer ℕ → Server → Prog Server
unfolding add_client serve_clients
new_connection r rfds n (failed e) s =
    if first_free s.cli_socks == max_connections then returns [] s else exit undefined
new_connection r rfds n (gave new) s =
    if first_free s.cli_socks == max_connections
    then (do call (Call.close new); returns [] s)
    else if leb n 1
    then returns [] (add_client new s)
    else serve_clients r rfds (n - 1) (add_client new s)

handle_ready : Round → FdSet → ℕ → Server → Prog Server
unfolding new_connection serve_clients
handle_ready r rfds n s =
    if rfds s.master_sock
    then (do call (Call.accept s.master_sock); new_connection r rfds n r.accepted s)
    else serve_clients r rfds n s

handle_selected : Round → Server → Answer Selected → Prog Server
unfolding handle_ready
handle_selected r s (failed e) = returns [] s
handle_selected r s (gave q) =
    if q.nready == 0 then returns [] s else handle_ready r (fd_ready s.active_fds q.fds) q.nready s

-- One round of the `while (1)`.
unfoldable pub round : Server → Round → Prog Server
unfolding clients read_client handle_selected
round s r = do call Call.select; handle_selected r s r.selected

-- What the calls before the loop answer.
pub record Setup : Type 0 where
  pub socket : Answer ℕ
  pub reuse : Answer (Unit {0})
  pub bound : Answer (Unit {0})
  pub listening : Answer (Unit {0})

-- The state before the first round, on the listening socket.
pub start : ℕ → Server
start fd = record {
  master_sock = fd;
  cli_socks = replicate max_connections none;
  limit = 0;
  max_sd = fd;
  active_fds = fd_set fd (λ d. false);
}

-- `goto exit` leaves main with status 0.
setup : Setup → Prog Server
unfolding start
setup a = do
  fd ← call_or_exit Call.socket 0 a.socket
  reuse ← call_or_exit (Call.set_reuseaddr fd) 0 a.reuse
  bound ← call_or_exit (Call.bind fd) 0 a.bound
  listening ← call_or_exit (Call.listen fd 20) 0 a.listening
  returns [] (start fd)

-- The `while (1)` over the answers of its rounds. It waits in select where they end.
rounds : Server → List Round → Prog (Unit {0})
unfolding round
rounds s [] = waits (Call.select ∷ [])
rounds s (r ∷ rs) = round s r >>= λ s'. rounds s' rs

-- main
pub select_srv_better : Setup → List Round → Prog (Unit {0})
unfolding setup rounds
select_srv_better a rs = setup a >>= λ s. rounds s rs

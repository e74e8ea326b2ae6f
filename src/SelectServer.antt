-- ===== src/SelectServer.antt =====
-- C/select_server.c: a server for at most three clients on one thread. One round of its
-- `while (1)` is a function of the table and of what the calls of that round answer.
pub mod Loop
pub mod Invariant
pub mod Starved
pub mod Echoes
mod Tests
use network_pragramming.Prelude.{
  ℕ, zero, suc, ◌+◌, ◌-◌, ◌≤◌, ◌<◌, ◌≡◌, refl, Bool, true, false, not, ◌&&◌, Option, none, some,
  List, [], ◌∷◌, ◌++◌, Bytes, length, codes, replicate, ltb, ◌==◌, if◌then◌else◌,
}
use network_pragramming.Sys.{
  Errno, is_eintr, Input, read_error, end_of_file, input, read_some, Answer, failed, gave, Call,
  Prog, returns, exits, waits, after, exit, call, call_or_exit, ◌>>=◌, ◌>>◌, exit_minus_one, FdSet,
  fd_set, fd_clr, fd_ready, c_string,
}
use network_pragramming.Slots.{Slots, store}

abbrev pub max_clients_num : ℕ
max_clients_num = 3

abbrev pub buf_size : ℕ
buf_size = 256

abbrev pub accept_msg : Bytes
accept_msg = codes "Accept, connection established!"

abbrev pub refuse_msg : Bytes
refuse_msg = codes "Refuse, connection numbers reach the upper limit!"

pub record Server : Type 0 where
  pub master_sock : ℕ
  pub cli_socks : Slots
  pub cur_conn_cnt : ℕ
  pub max_sd : ℕ
  pub active_fds : FdSet

-- The return value of select that is not -1: 0, or the set of ready descriptors.
pub data Selected : Type 0 where
  timeout : Selected
  ready : FdSet → Selected

-- What the calls of one round answer; `received` is what recv answers on a descriptor.
pub record Round : Type 0 where
  pub selected : Answer Selected
  pub accepted : Answer ℕ
  pub received : ℕ → Answer Bytes

-- sprintf(send_buf, "ECHO BACK : %s", recv_buf)
pub echo_text : Bytes → Bytes
echo_text bytes = codes "ECHO BACK : " ++ c_string bytes

-- What one turn of the loop over the clients leaves: its slot, the count of connections, and the
-- descriptors that are watched.
pub record Turn : Type 0 where
  pub slot : Option ℕ
  pub count : ℕ
  pub active : FdSet

-- close(sd), FD_CLR(sd, &active_fds), cli_socks[i] = -1, cur_conn_cnt--
drop_client : ℕ → ℕ → FdSet → Prog Turn
drop_client sd cnt active = do
  call (Call.close sd)
  returns [] (record { slot = none; count = cnt - 1; active = fd_clr sd active })

-- The status of a program that has written behind an array.
abbrev pub undefined : ℕ
undefined = 134

-- The reply to what was received: sprintf writes behind send_buf unless the text and its null byte
-- fit.
echo_back : ℕ → ℕ → FdSet → Bytes → Prog Turn
unfolding echo_text
echo_back sd cnt active bytes =
    if ltb (length (echo_text bytes)) buf_size
    then (do
      call (Call.write sd (echo_text bytes))
      returns [] (record { slot = some sd; count = cnt; active = active }))
    else exit undefined

-- The switch on the result of recv, and the reply that follows it on every branch.
recv_client : ℕ → ℕ → FdSet → Input → Prog Turn
unfolding echo_text drop_client echo_back
recv_client sd cnt active (read_error e) = do
  t ← drop_client sd cnt active
  call (Call.write sd (echo_text []))
  returns [] t
recv_client sd cnt active end_of_file = do
  t ← drop_client sd cnt active
  call (Call.write sd (echo_text []))
  returns [] t
recv_client sd cnt active (input bytes) = echo_back sd cnt active bytes

-- One turn of the loop, on the slot `slot`.
unfoldable pub client : Round → FdSet → Option ℕ → ℕ → FdSet → Prog Turn
unfolding recv_client
client r rfds none cnt active = returns [] (record { slot = none; count = cnt; active = active })
client r rfds (some sd) cnt active =
    if rfds sd
    then (do i ← read_some sd (buf_size - 1) (r.received sd); recv_client sd cnt active i)
    else returns [] (record { slot = some sd; count = cnt; active = active })

-- The table after the loop, from some index on.
pub record Table : Type 0 where
  pub slots : Slots
  pub count : ℕ
  pub active : FdSet

-- `for (i = 0; i < cur_conn_cnt; i++)` from index `i` on. A turn changes its own slot only, and
-- may lower the count that bounds the loop.
pub clients : Round → FdSet → ℕ → Slots → ℕ → FdSet → Prog Table
clients r rfds i [] cnt active = returns [] (record { slots = []; count = cnt; active = active })
clients r rfds i (slot ∷ ss) cnt active =
    let turn = client r rfds slot cnt active >>= λ t.
    clients r rfds (suc i) ss t.count t.active >>= λ u.
    returns [] (record u { slots = t.slot ∷ u.slots }) in
    if ltb i cnt
    then turn
    else returns [] (record { slots = slot ∷ ss; count = cnt; active = active })

-- A connection below the limit: the first free slot, max_sd, FD_SET and the count.
add_client : ℕ → Server → Prog Server
add_client new s = do
  call (Call.write new accept_msg)
  returns [] (record s {
    cli_socks = store new s.cli_socks;
    max_sd = if ltb s.max_sd new then new else s.max_sd;
    active_fds = fd_set new s.active_fds;
    cur_conn_cnt = s.cur_conn_cnt + 1;
  })

serve_clients : Round → FdSet → Server → Prog Server
unfolding client clients
serve_clients r rfds s = do
  t ← clients r rfds 0 s.cli_socks s.cur_conn_cnt s.active_fds
  returns [] (record s { cli_socks = t.slots; cur_conn_cnt = t.count; active_fds = t.active })

-- `if (cur_conn_cnt > MAX_CLIENTS_NUM - 1)`: the refusal skips the clients in this round.
new_connection : Round → FdSet → ℕ → Server → Prog Server
unfolding add_client serve_clients
new_connection r rfds new s =
    if ltb (max_clients_num - 1) s.cur_conn_cnt
    then (do call (Call.write new refuse_msg); call (Call.close new); returns [] s)
    else (do s' ← add_client new s; serve_clients r rfds s')

-- The `default` case of the switch on select.
handle_ready : Round → FdSet → Server → Prog Server
unfolding new_connection serve_clients
handle_ready r rfds s =
    if rfds s.master_sock
    then (do
      new ← call_or_exit (Call.accept s.master_sock) exit_minus_one r.accepted
      new_connection r rfds new s)
    else serve_clients r rfds s

handle_selected : Round → Server → Answer Selected → Prog Server
unfolding handle_ready
handle_selected r s (failed e) = if is_eintr e then returns [] s else exit exit_minus_one
handle_selected r s (gave timeout) = returns [] s
handle_selected r s (gave (ready fds)) = handle_ready r (fd_ready s.active_fds fds) s

-- One round of the `while (1)`.
unfoldable pub round : Server → Round → Prog Server
unfolding handle_selected
round s r = do call Call.select; handle_selected r s r.selected

-- What the calls before the loop answer.
pub record Setup : Type 0 where
  pub socket : Answer ℕ
  pub reuse : Answer (Unit {0})
  pub bound : Answer (Unit {0})
  pub listening : Answer (Unit {0})

-- The state before the first round, on the listening socket.
unfoldable pub start : ℕ → Server
start fd = record {
  master_sock = fd;
  cli_socks = replicate max_clients_num none;
  cur_conn_cnt = 0;
  max_sd = fd;
  active_fds = fd_set fd (λ d. false);
}

pub setup : Setup → Prog Server
unfolding start
setup a = do
  fd ← call_or_exit Call.socket exit_minus_one a.socket
  reuse ← call_or_exit (Call.set_reuseaddr fd) exit_minus_one a.reuse
  bound ← call_or_exit (Call.bind fd) exit_minus_one a.bound
  listening ← call_or_exit (Call.listen fd 5) exit_minus_one a.listening
  returns [] (start fd)

-- The `while (1)` over the answers of its rounds. It waits in select where they end.
pub rounds : Server → List Round → Prog (Unit {0})
unfolding round
rounds s [] = waits (Call.select ∷ [])
rounds s (r ∷ rs) = round s r >>= λ s'. rounds s' rs

-- main
pub select_server : Setup → List Round → Prog (Unit {0})
unfolding setup rounds
select_server a rs = setup a >>= λ s. rounds s rs

-- ===== src/SelectSrvBetter/Conserved.antt =====
-- C/select_srv_better.c over whole runs: where the clients that have arrived are.
use network_pragramming.Prelude.{
  ℕ, zero, suc, ◌+◌, ◌-◌, ◌≤◌, ◌<◌, ◌≡◌, refl, none, some, List, [], ◌∷◌, ◌++◌, Bytes, length,
  arith, leb, ◌==◌, if◌then◌else◌, Bool-cases, inl, inr,
}
use network_pragramming.Sys.{
  Call, Prog, Answer, failed, gave, returns, exits, waits, after, FdSet, fd_ready,
}
use network_pragramming.Sys.Trace.{closes, closes-append}
use network_pragramming.Slots.{
  Slots, used, first_free, used-store, used-le-length, used_of_first_free-lt, first_free-le-length,
}
use network_pragramming.SelectSrvBetter.{
  Server, Round, Selected, Table, read_client, clients, stored, recv_buf_size, untouched, join,
  add_client, serve_clients, new_connection, handle_ready, handle_selected, round, max_connections,
}
use network_pragramming.SelectSrvBetter.Invariant.{IsValid, Fresh, round-keeps_table}

-- A new client in a round: select reports the listening socket, and accept gives a descriptor.
abbrev gave_one : Answer ℕ → ℕ
gave_one (failed e) = 0
gave_one (gave new) = 1

abbrev newcomers : Server → Round → Answer Selected → ℕ
newcomers s r (failed e) = 0
newcomers s r (gave q) =
    if q.nready == 0
    then 0
    else if fd_ready s.active_fds q.fds s.master_sock
    then gave_one r.accepted
    else 0

abbrev pub arrivals : Server → Round → ℕ
arrivals s r = newcomers s r r.selected

-- Some rounds, with their calls and the number of the clients that have arrived, where accept
-- gives no descriptor that is open.
pub data Runs : Server → List Call → ℕ → Server → Type 0 where
  here : (s : Server) → Runs s [] 0 s
  next :
      (s : Server) (r : Round) (cs ds : List Call) (n : ℕ) (t u : Server)
      → Fresh s r.accepted
      → round s r ≡ returns cs t
      → Runs t ds n u
      → Runs s (cs ++ ds) (arrivals s r + n) u

-- Every client of `s` and `n` new ones are in a slot or closed.
abbrev Gains : ℕ → Server → Prog Server → Type 0
Gains n s (returns cs t) = used t.cli_socks + closes cs ≡ used s.cli_socks + n
Gains n s (exits cs k) = Unit
Gains n s (waits cs) = Unit

Gains-after :
    (n : ℕ) (s : Server) (cs : List Call) (p : Prog Server)
    → closes cs ≡ 0
    → Gains n s p
    → Gains n s (after cs p)
Gains-after n s cs (returns ds t) e h = omega (arith, closes-append cs ds)
Gains-after n s cs (exits ds k) e h = tt
Gains-after n s cs (waits ds) e h = tt

used-append : (ss ts : Slots) → used (ss ++ ts) ≡ used ss + used ts
used-append [] ts = omega arith
used-append (none ∷ ss) ts = used-append ss ts
used-append (some d ∷ ss) ts = omega (arith, used-append ss ts)

-- A table with its calls.
abbrev weight : Table → ℕ
weight t = used t.slots + closes t.calls

weight-join : (t u : Table) → weight (join t u) ≡ weight t + weight u
weight-join t u = omega (arith, used-append t.slots u.slots, closes-append t.calls u.calls)

weight-read_client :
    (sd : ℕ) (active : FdSet) (bytes : Bytes) → weight (read_client sd active bytes) ≡ 1
unfolding read_client
weight-read_client sd active [] = refl
weight-read_client sd active (b ∷ bytes) = refl

clients-weight :
    (r : Round) (rfds : FdSet) (left n : ℕ) (ss : Slots) (active : FdSet)
    → weight (clients r rfds left n ss active) ≡ used ss
unfolding clients
clients-weight r rfds zero n ss active = omega arith
clients-weight r rfds (suc left) n [] active = refl
clients-weight r rfds (suc left) n (none ∷ ss) active = clients-weight r rfds left n ss active
clients-weight r rfds (suc left) n (some sd ∷ ss) active =
    let bytes = stored (recv_buf_size - 1) (r.received sd) in
    let t = read_client sd active bytes in
    let one = weight-read_client sd active bytes in
    elim (Bool-cases (rfds sd)) [
      | inr off ↦ rw off (omega (arith, clients-weight r rfds left n ss active))
      | inl on ↦ elim (Bool-cases (leb n 1)) [
        | inl last ↦ rw (on, last) (omega (arith, weight-join t (untouched ss t.active), one))
        | inr more ↦
            rw (on, more)
              (omega (
                arith,
                weight-join t (clients r rfds left (n - 1) ss t.active),
                one,
                clients-weight r rfds left (n - 1) ss t.active,
              ))
      ]
    ]

serve_clients-Gains :
    (r : Round) (rfds : FdSet) (n k : ℕ) (s t : Server)
    → used t.cli_socks ≡ used s.cli_socks + k
    → Gains k s (serve_clients r rfds n t)
unfolding serve_clients
serve_clients-Gains r rfds n k s t e =
    omega (arith, clients-weight r rfds t.limit n t.cli_socks t.active_fds)

new_connection-Gains :
    (r : Round) (rfds : FdSet) (n : ℕ) (a : Answer ℕ) (s : Server)
    → length s.cli_socks ≡ max_connections
    → Gains (gave_one a) s (new_connection r rfds n a s)
unfolding new_connection add_client
new_connection-Gains r rfds n (failed e) s sized =
    elim (Bool-cases (first_free s.cli_socks == max_connections)) [
      | inl full ↦ rw full (omega arith)
      | inr room ↦ rw room tt
    ]
new_connection-Gains r rfds n (gave new) s sized =
    elim (Bool-cases (first_free s.cli_socks == max_connections)) [
      | inl full ↦ rw full refl
      | inr room ↦
          let free : first_free s.cli_socks < length s.cli_socks =
            ground (arith, first_free-le-length s.cli_socks) in
          let more = used-store new s.cli_socks (used_of_first_free-lt s.cli_socks free) in
          elim (Bool-cases (leb n 1)) [
            | inl last ↦ rw (room, last) (omega (arith, more))
            | inr rest ↦
                rw (room, rest)
                  (serve_clients-Gains r rfds (n - 1) 1 s (add_client new s) (omega (arith, more)))
          ]
    ]

handle_ready-Gains :
    (r : Round) (rfds : FdSet) (n : ℕ) (s : Server)
    → length s.cli_socks ≡ max_connections
    → Gains (if rfds s.master_sock then gave_one r.accepted else 0) s (handle_ready r rfds n s)
unfolding handle_ready
handle_ready-Gains r rfds n s sized = elim (Bool-cases (rfds s.master_sock)) [
  | inl e ↦ rw e (
      Gains-after (gave_one r.accepted) s (Call.accept s.master_sock ∷ [])
        (new_connection r rfds n r.accepted s) refl
        (new_connection-Gains r rfds n r.accepted s sized))
  | inr e ↦ rw e (serve_clients-Gains r rfds n 0 s s (omega arith))
]

handle_selected-Gains :
    (r : Round) (s : Server) (a : Answer Selected)
    → length s.cli_socks ≡ max_connections
    → Gains (newcomers s r a) s (handle_selected r s a)
unfolding handle_selected
handle_selected-Gains r s (failed e) sized = omega arith
handle_selected-Gains r s (gave q) sized = elim (Bool-cases (q.nready == 0)) [
  | inl e ↦ rw e (omega arith)
  | inr e ↦ rw e (handle_ready-Gains r (fd_ready s.active_fds q.fds) q.nready s sized)
]

round-Gains :
    (s : Server) (r : Round)
    → length s.cli_socks ≡ max_connections
    → Gains (arrivals s r) s (round s r)
unfolding round
round-Gains s r sized =
    Gains-after (arrivals s r) s (Call.select ∷ []) (handle_selected r s r.selected) refl
      (handle_selected-Gains r s r.selected sized)

Gains-returns :
    (n : ℕ) (s : Server) (p : Prog Server) (cs : List Call) (t : Server)
    → Gains n s p
    → p ≡ returns cs t
    → used t.cli_socks + closes cs ≡ used s.cli_socks + n
Gains-returns n s p cs t h e = rw e at h

-- Over any number of rounds from a valid state, if accept never gives a descriptor that is open,
-- no client is lost: the clients in the table and the descriptors that were closed are together
-- as many as the clients of the first state and those that have arrived since, and the table has
-- ten at most.
pub Runs-used :
    (s u : Server) (cs : List Call) (n : ℕ)
    → IsValid s
    → Runs s cs n u
    → (used u.cli_socks + closes cs ≡ used s.cli_socks + n) × (used u.cli_socks ≤ max_connections)
Runs-used s u _ _ v (here _) = (omega arith, omega (arith, used-le-length s.cli_socks, v.sized))
Runs-used s u _ _ v (next _ r cs ds n t _ fresh e runs) =
    let w = round-keeps_table s r cs t v fresh e in
    let (later, bound) = Runs-used t u ds n w runs in
    let now = Gains-returns (arrivals s r) s (round s r) cs t (round-Gains s r v.sized) e in
    (omega (arith, now, later, closes-append cs ds), bound)

-- ===== src/SelectServer/Starved.antt =====
-- C/select_server.c: clients in slots at or above the count of connections, which a client that
-- leaves lowers while the others stay where they are.
use network_pragramming.Prelude.{
  ℕ, zero, suc, ◌+◌, ◌-◌, ◌≤◌, ◌<◌, ◌≡◌, length, inl, inr, refl, false, Option, none, some, [], ◌∷◌,
  take, get_elem?, arith, ltb, Bool-cases,
}
use network_pragramming.Sys.{
  Call, is_eintr, Answer, failed, gave, Prog, ◌>>=◌, trace, Input, read_error, end_of_file, input,
  read_some, FdSet, fd_ready, returns,
}
use network_pragramming.Sys.Trace.{reads, read_some-reads, reads-bind, reads-bind-Post, reads-after}
use network_pragramming.Slots.{Slots, held}
use network_pragramming.SelectServer.{
  Server, Round, Turn, Table, Selected, timeout, ready, recv_client, echo_back, echo_text, client,
  clients, serve_clients, handle_ready, handle_selected, round, buf_size,
}
use network_pragramming.SelectServer.Loop.{client-count}
use network_pragramming.SelectServer.Invariant.{IsValid}

recv_client-reads :
    (fd sd cnt : ℕ) (active : FdSet) (i : Input)
    → reads fd (trace (recv_client sd cnt active i)) ≡ 0
unfolding recv_client echo_back
recv_client-reads fd sd cnt active (read_error e) = refl
recv_client-reads fd sd cnt active end_of_file = refl
recv_client-reads fd sd cnt active (input bytes) =
    elim (Bool-cases (ltb (length (echo_text bytes)) buf_size)) [
      | inl fits ↦ rw fits refl
      | inr over ↦ rw over refl
    ]

client-reads :
    (fd : ℕ) (r : Round) (rfds : FdSet) (slot : Option ℕ) (cnt : ℕ) (active : FdSet)
    → reads fd (trace (client r rfds slot cnt active)) ≤ held fd (slot ∷ [])
unfolding client
client-reads fd r rfds none cnt active = omega arith
client-reads fd r rfds (some sd) cnt active = elim (Bool-cases (rfds sd)) [
  | inl e ↦ rw e (
      ground (
        arith,
        read_some-reads fd sd (buf_size - 1) (r.received sd),
        reads-bind fd 0 (read_some sd (buf_size - 1) (r.received sd))
            (λ i. recv_client sd cnt active i)
            (λ i. ground (arith, recv_client-reads fd sd cnt active i)),
      ))
  | inr e ↦ rw e (omega arith)
]

held-take_mono : (fd a b : ℕ) (ss : Slots) → a ≤ b → held fd (take a ss) ≤ held fd (take b ss)
held-take_mono fd zero b ss h = omega arith
held-take_mono fd (suc a) zero ss h = absurd (omega arith)
held-take_mono fd (suc a) (suc b) [] h = omega arith
held-take_mono fd (suc a) (suc b) (none ∷ ss) h = held-take_mono fd a b ss (omega arith)
held-take_mono fd (suc a) (suc b) (some d ∷ ss) h =
    ground (arith, held-take_mono fd a b ss (omega arith))

held-cons-take :
    (fd : ℕ) (slot : Option ℕ) (ss : Slots) (k i : ℕ)
    → i < k
    → held fd (slot ∷ []) + held fd (take (k - suc i) ss) ≡ held fd (take (k - i) (slot ∷ ss))
held-cons-take fd slot ss k i h = let e : k - i ≡ suc (k - suc i) = omega arith in rw e (split slot)
  where
    split :
        (slot : Option ℕ)
        → held fd (slot ∷ []) + held fd (take (k - suc i) ss) ≡ held fd (slot ∷ take (k - suc i) ss)
    split none = omega arith
    split (some d) = ground arith

-- The loop reads from the slots below the count only, and from each of them once at most.
clients-reads :
    (fd : ℕ) (r : Round) (rfds : FdSet) (i : ℕ) (ss : Slots) (cnt : ℕ) (active : FdSet)
    → reads fd (trace (clients r rfds i ss cnt active)) ≤ held fd (take (cnt - i) ss)
unfolding clients
clients-reads fd r rfds i [] cnt active = omega arith
clients-reads fd r rfds i (slot ∷ ss) cnt active = elim (Bool-cases (ltb i cnt)) [
  | inr e ↦ rw e (omega arith)
  | inl e ↦
      let more = held fd (take (cnt - suc i) ss) in
      let rest : (t : Turn) → t.count ≤ cnt → reads fd (trace (later t)) ≤ more = λ t l. omega (
        arith,
        reads-bind fd 0 (clients r rfds (suc i) ss t.count t.active)
            (λ u. returns [] (record u { slots = t.slot ∷ u.slots })) (λ u. omega arith),
        clients-reads fd r rfds (suc i) ss t.count t.active,
        held-take_mono fd (t.count - suc i) (cnt - suc i) ss (omega arith),
      ) in
      rw e (
        omega (
          arith,
          client-reads fd r rfds slot cnt active,
          held-cons-take fd slot ss cnt i (ground arith),
          reads-bind-Post fd more (λ t. t.count ≤ cnt) (client r rfds slot cnt active) later
              (client-count r rfds slot cnt active) rest,
        ))
]
  where
    later : Turn → Prog Table
    later t = clients r rfds (suc i) ss t.count t.active >>= λ u.
        returns [] (record u { slots = t.slot ∷ u.slots })

held-take-lt :
    (sd n i : ℕ) (ss : Slots)
    → get_elem? ss i ≡ some (some sd)
    → n ≤ i
    → held sd (take n ss) < held sd ss
held-take-lt sd n i [] e h = ground arith
held-take-lt sd zero zero (slot ∷ ss) e h = ground arith
held-take-lt sd (suc n) zero (slot ∷ ss) e h = absurd (omega arith)
held-take-lt sd zero (suc i) (none ∷ ss) e h = held-take-lt sd zero i ss e (omega arith)
held-take-lt sd zero (suc i) (some d ∷ ss) e h =
    ground (arith, held-take-lt sd zero i ss e (omega arith))
held-take-lt sd (suc n) (suc i) (none ∷ ss) e h = held-take-lt sd n i ss e (omega arith)
held-take-lt sd (suc n) (suc i) (some d ∷ ss) e h =
    ground (arith, held-take-lt sd n i ss e (omega arith))

serve_clients-reads :
    (fd : ℕ) (r : Round) (rfds : FdSet) (s : Server)
    → reads fd (trace (serve_clients r rfds s)) ≤ held fd (take s.cur_conn_cnt s.cli_socks)
unfolding serve_clients
serve_clients-reads fd r rfds s = omega (
  arith,
  reads-bind fd 0 (clients r rfds 0 s.cli_socks s.cur_conn_cnt s.active_fds)
      (λ t.
        returns []
          (record s { cli_socks = t.slots; cur_conn_cnt = t.count; active_fds = t.active }))
      (λ t. omega arith),
  clients-reads fd r rfds 0 s.cli_socks s.cur_conn_cnt s.active_fds,
  held-take_mono fd (s.cur_conn_cnt - 0) s.cur_conn_cnt s.cli_socks (omega arith),
)

-- select reports no new connection.
abbrev pub NoConnection : Server → Answer Selected → Type 0
NoConnection s (gave (ready fds)) = fds s.master_sock ≡ false
NoConnection s a = Unit

handle_selected-reads :
    (fd : ℕ) (r : Round) (s : Server) (a : Answer Selected)
    → NoConnection s a
    → reads fd (trace (handle_selected r s a)) ≤ held fd (take s.cur_conn_cnt s.cli_socks)
unfolding handle_selected handle_ready
handle_selected-reads fd r s (failed e) q = elim (Bool-cases (is_eintr e)) [
  | inl i ↦ rw i (omega arith)
  | inr i ↦ rw i (omega arith)
]
handle_selected-reads fd r s (gave timeout) q = omega arith
handle_selected-reads fd r s (gave (ready fds)) q =
    let off : fd_ready s.active_fds fds s.master_sock ≡ false = ground arith in
    rw off (serve_clients-reads fd r (fd_ready s.active_fds fds) s)

-- In a valid table, a client in a slot at or above the count of connections is not read from in
-- a round without a new connection, whatever is ready and whatever recv would answer.
pub round-starves :
    (s : Server) (r : Round) (i sd : ℕ)
    → IsValid s
    → get_elem? s.cli_socks i ≡ some (some sd)
    → s.cur_conn_cnt ≤ i
    → NoConnection s r.selected
    → reads sd (trace (round s r)) ≡ 0
unfolding round
round-starves s r i sd v here above q = omega (
  arith,
  reads-after sd (Call.select ∷ []) (handle_selected r s r.selected),
  handle_selected-reads sd r s r.selected q,
  held-take-lt sd s.cur_conn_cnt i s.cli_socks here above,
  v.distinct sd,
)

-- ===== src/SelectSrvBetter/Invariant.antt =====
-- C/select_srv_better.c: what ties the table of clients to the descriptors that are watched and to
-- the limit of the loop over the clients.
use network_pragramming.Prelude.{
  ℕ, ◌+◌, ◌-◌, ◌≤◌, ◌<◌, ◌≡◌, ◌⊎◌, inl, inr, refl, true, false, List, [], ◌∷◌, length, drop, arith,
  leb, ◌==◌, if◌then◌else◌, Bool-cases,
}
use network_pragramming.Sys.{Call, Answer, failed, gave, returns, FdSet, fd_ready}
use network_pragramming.Sys.Rules.{Post, Post-after, Post-returns}
use network_pragramming.Slots.{
  Slots, used, held, store, first_free, length-store, held-store, used-drop-store, used-drop_mono,
  first_free-le-length, used_of_first_free-lt,
}
use network_pragramming.SelectSrvBetter.{
  Server, Round, Selected, add_client, serve_clients, new_connection, handle_ready, handle_selected,
  round, start, max_connections,
}
use network_pragramming.SelectSrvBetter.Loop.{clients-Served}

pub record IsValid (s : Server) : Type 0 where
  pub sized : length s.cli_socks ≡ max_connections
  pub distinct : (fd : ℕ) → held fd s.cli_socks ≤ 1
  pub apart : held s.master_sock s.cli_socks ≡ 0
  pub listens : s.active_fds s.master_sock ≡ true
  pub watched : (fd : ℕ) → held fd s.cli_socks ≡ 1 → s.active_fds fd ≡ true
  pub known : (fd : ℕ) → s.active_fds fd ≡ true → (fd ≡ s.master_sock) ⊎ (held fd s.cli_socks ≡ 1)
  pub below : (fd : ℕ) → s.active_fds fd ≡ true → fd ≤ s.max_sd
  pub above : used (drop s.limit s.cli_socks) ≡ 0

-- The server before its first round is valid.
pub start-IsValid : (fd : ℕ) → IsValid (start fd)
unfolding start
start-IsValid fd = record {
  sized = refl;
  distinct = λ d. omega arith;
  apart = refl;
  listens = ground arith;
  watched = λ d e. ground arith;
  known = λ d e. ground arith;
  below = λ d e. ground arith;
  above = refl;
}

serve_clients-IsValid :
    (r : Round) (rfds : FdSet) (n : ℕ) (s : Server)
    → IsValid s
    → Post IsValid (serve_clients r rfds n s)
unfolding serve_clients
serve_clients-IsValid r rfds n s v =
    let w = clients-Served r rfds s.limit n s.cli_socks s.active_fds v.distinct in
    record {
      sized = omega (arith, v.sized, w.sized);
      distinct = λ fd. omega (arith, v.distinct fd, w.fewer fd);
      apart = omega (arith, v.apart, w.fewer s.master_sock);
      listens = ground (arith, v.apart, w.fewer s.master_sock, w.kept s.master_sock, v.listens);
      watched = λ fd e. ground (arith, v.distinct fd, w.fewer fd, w.kept fd, v.watched fd);
      known =
          λ fd e. ground (arith, v.distinct fd, w.fewer fd, w.kept fd, w.dropped fd, v.known fd);
      below = λ fd e. ground (arith, w.fewer fd, w.kept fd, w.dropped fd, v.below fd);
      above = omega (arith, v.above, w.above s.limit);
    }

-- The loop's limit after a store is above the slot that is filled.
pub limit-above :
    (new limit : ℕ) (ss : Slots)
    → used (drop limit ss) ≡ 0
    → used (drop (if leb limit (first_free ss) then first_free ss + 1 else limit) (store new ss))
      ≡ 0
limit-above new limit ss h = elim (Bool-cases (leb limit (first_free ss))) [
  | inl e ↦ rw e (
      omega (
        arith,
        used-drop-store new (first_free ss + 1) ss (omega arith),
        used-drop_mono limit (first_free ss + 1) ss (ground arith),
      ))
  | inr e ↦ rw e (omega (arith, used-drop-store new limit ss (ground arith)))
]

-- A new client that finds a free slot has a descriptor that was not open.
add_client-IsValid :
    (new : ℕ) (s : Server)
    → IsValid s
    → s.active_fds new ≡ false
    → first_free s.cli_socks < length s.cli_socks
    → IsValid (add_client new s)
unfolding add_client
add_client-IsValid new s v fresh room =
    let free = used_of_first_free-lt s.cli_socks room in
    record {
      sized = omega (arith, length-store new s.cli_socks, v.sized);
      distinct =
          λ fd. ground (arith, held-store new fd s.cli_socks free, v.distinct fd, v.watched fd);
      apart = ground (arith, held-store new s.master_sock s.cli_socks free, v.apart, v.listens);
      listens = ground (arith, v.listens);
      watched = λ fd e. ground (arith, held-store new fd s.cli_socks free, v.watched fd);
      known = λ fd e.
          ground
            (arith, held-store new fd s.cli_socks free, v.known fd, v.distinct new, v.watched new);
      below = λ fd e. ground (arith, v.below fd);
      above = limit-above new s.limit s.cli_socks v.above;
    }

-- accept answers with a descriptor that is not open, so none that is watched.
abbrev pub Fresh : Server → Answer ℕ → Type 0
Fresh s (failed e) = Unit
Fresh s (gave new) = s.active_fds new ≡ false

new_connection-IsValid :
    (r : Round) (rfds : FdSet) (n : ℕ) (a : Answer ℕ) (s : Server)
    → IsValid s
    → Fresh s a
    → Post IsValid (new_connection r rfds n a s)
unfolding new_connection
new_connection-IsValid r rfds n (failed e) s v fresh =
    elim (Bool-cases (first_free s.cli_socks == max_connections)) [
      | inl full ↦ rw full v
      | inr room ↦ rw room tt
    ]
new_connection-IsValid r rfds n (gave new) s v fresh =
    elim (Bool-cases (first_free s.cli_socks == max_connections)) [
      | inl full ↦ rw full v
      | inr room ↦
          let w =
            add_client-IsValid new s v fresh
              (ground (arith, first_free-le-length s.cli_socks, v.sized)) in
          elim (Bool-cases (leb n 1)) [
            | inl last ↦ rw (room, last) w
            | inr more ↦ rw (room, more) (serve_clients-IsValid r rfds (n - 1) (add_client new s) w)
          ]
    ]

handle_ready-IsValid :
    (r : Round) (rfds : FdSet) (n : ℕ) (s : Server)
    → IsValid s
    → Fresh s r.accepted
    → Post IsValid (handle_ready r rfds n s)
unfolding handle_ready
handle_ready-IsValid r rfds n s v fresh = elim (Bool-cases (rfds s.master_sock)) [
  | inl e ↦ rw e (
      Post-after IsValid (Call.accept s.master_sock ∷ []) (new_connection r rfds n r.accepted s)
        (new_connection-IsValid r rfds n r.accepted s v fresh))
  | inr e ↦ rw e (serve_clients-IsValid r rfds n s v)
]

handle_selected-IsValid :
    (r : Round) (s : Server) (a : Answer Selected)
    → IsValid s
    → Fresh s r.accepted
    → Post IsValid (handle_selected r s a)
unfolding handle_selected
handle_selected-IsValid r s (failed e) v fresh = v
handle_selected-IsValid r s (gave q) v fresh = elim (Bool-cases (q.nready == 0)) [
  | inl e ↦ rw e v
  | inr e ↦ rw e (handle_ready-IsValid r (fd_ready s.active_fds q.fds) q.nready s v fresh)
]

round-Post : (s : Server) (r : Round) → IsValid s → Fresh s r.accepted → Post IsValid (round s r)
unfolding round
round-Post s r v fresh =
    Post-after IsValid (Call.select ∷ []) (handle_selected r s r.selected)
      (handle_selected-IsValid r s r.selected v fresh)

-- A round that returns keeps the table valid, whatever its calls answer, if accept answers with
-- a descriptor that was not open: the ten slots hold distinct descriptors, the ones that are
-- watched are the listening socket and the clients, max_sd bounds them, and no client is in a
-- slot that the loop over the clients does not reach.
pub round-keeps_table :
    (s : Server) (r : Round) (cs : List Call) (s' : Server)
    → IsValid s
    → Fresh s r.accepted
    → round s r ≡ returns cs s'
    → IsValid s'
round-keeps_table s r cs s' v fresh e =
    Post-returns IsValid (round s r) cs s' (round-Post s r v fresh) e

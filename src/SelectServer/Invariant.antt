-- ===== src/SelectServer/Invariant.antt =====
-- C/select_server.c: what ties the table of clients to the count and to the descriptors that are
-- watched.
use network_pragramming.Prelude.{
  ℕ, ◌-◌, ◌≤◌, ◌<◌, ◌≡◌, ◌⊎◌, inl, inr, refl, true, false, List, [], ◌∷◌, length, arith, ltb,
  Bool-cases,
}
use network_pragramming.Sys.{
  Call, is_eintr, Answer, failed, gave, ◌>>=◌, call_or_exit, exit_minus_one, returns, FdSet,
  fd_ready,
}
use network_pragramming.Sys.Rules.{Post, Post-bind, Post-after, Post-returns}
use network_pragramming.Slots.{used, held, length-store, used-store, held-store}
use network_pragramming.SelectServer.{
  Server, Round, Selected, timeout, ready, clients, add_client, serve_clients, new_connection,
  handle_ready, handle_selected, round, start, max_clients_num,
}
use network_pragramming.SelectServer.Loop.{Served, clients-Served}

pub record IsValid (s : Server) : Type 0 where
  pub sized : length s.cli_socks ≡ max_clients_num
  pub counted : s.cur_conn_cnt ≡ used s.cli_socks
  pub distinct : (fd : ℕ) → held fd s.cli_socks ≤ 1
  pub apart : held s.master_sock s.cli_socks ≡ 0
  pub listens : s.active_fds s.master_sock ≡ true
  pub watched : (fd : ℕ) → held fd s.cli_socks ≡ 1 → s.active_fds fd ≡ true
  pub known : (fd : ℕ) → s.active_fds fd ≡ true → (fd ≡ s.master_sock) ⊎ (held fd s.cli_socks ≡ 1)
  pub below : (fd : ℕ) → s.active_fds fd ≡ true → fd ≤ s.max_sd

-- The server before its first round is valid.
pub start-IsValid : (fd : ℕ) → IsValid (start fd)
unfolding start
start-IsValid fd = record {
  sized = refl;
  counted = refl;
  distinct = λ d. omega arith;
  apart = refl;
  listens = ground arith;
  watched = λ d e. ground arith;
  known = λ d e. ground arith;
  below = λ d e. ground arith;
}

serve_clients-IsValid :
    (r : Round) (rfds : FdSet) (s : Server) → IsValid s → Post IsValid (serve_clients r rfds s)
unfolding serve_clients
serve_clients-IsValid r rfds s v =
    Post-bind (Served s.cli_socks s.cur_conn_cnt s.active_fds) IsValid
      (clients r rfds 0 s.cli_socks s.cur_conn_cnt s.active_fds) _
      (clients-Served r rfds 0 s.cli_socks s.cur_conn_cnt s.active_fds v.distinct)
      λ t w. record {
        sized = omega (arith, v.sized, w.sized);
        counted = omega (arith, v.counted, w.counted);
        distinct = λ fd. omega (arith, v.distinct fd, w.fewer fd);
        apart = omega (arith, v.apart, w.fewer s.master_sock);
        listens = ground (arith, v.apart, w.fewer s.master_sock, w.kept s.master_sock, v.listens);
        watched = λ fd e. ground (arith, v.distinct fd, w.fewer fd, w.kept fd, v.watched fd);
        known =
            λ fd e. ground (arith, v.distinct fd, w.fewer fd, w.kept fd, w.dropped fd, v.known fd);
        below = λ fd e. ground (arith, w.fewer fd, w.kept fd, w.dropped fd, v.below fd);
      }

-- A new client below the limit has a descriptor that was not open.
add_client-IsValid :
    (new : ℕ) (s : Server)
    → IsValid s
    → s.active_fds new ≡ false
    → s.cur_conn_cnt < max_clients_num
    → Post IsValid (add_client new s)
unfolding add_client
add_client-IsValid new s v fresh room =
    let free : used s.cli_socks < length s.cli_socks = omega (arith, v.sized, v.counted) in
    record {
      sized = omega (arith, length-store new s.cli_socks, v.sized);
      counted = omega (arith, used-store new s.cli_socks free, v.counted);
      distinct =
          λ fd. ground (arith, held-store new fd s.cli_socks free, v.distinct fd, v.watched fd);
      apart = ground (arith, held-store new s.master_sock s.cli_socks free, v.apart, v.listens);
      listens = ground (arith, v.listens);
      watched = λ fd e. ground (arith, held-store new fd s.cli_socks free, v.watched fd);
      known = λ fd e.
          ground
            (arith, held-store new fd s.cli_socks free, v.known fd, v.distinct new, v.watched new);
      below = λ fd e. ground (arith, v.below fd);
    }

new_connection-IsValid :
    (r : Round) (rfds : FdSet) (new : ℕ) (s : Server)
    → IsValid s
    → s.active_fds new ≡ false
    → Post IsValid (new_connection r rfds new s)
unfolding new_connection
new_connection-IsValid r rfds new s v fresh =
    elim (Bool-cases (ltb (max_clients_num - 1) s.cur_conn_cnt)) [
      | inl full ↦ rw full v
      | inr room ↦ rw room (
          Post-bind IsValid IsValid (add_client new s) _
            (add_client-IsValid new s v fresh (ground arith))
            λ s' w. serve_clients-IsValid r rfds s' w)
    ]

-- accept answers with a descriptor that is not open, so none that is watched.
abbrev pub Fresh : Server → Answer ℕ → Type 0
Fresh s (failed e) = Unit
Fresh s (gave new) = s.active_fds new ≡ false

handle_ready-IsValid :
    (r : Round) (rfds : FdSet) (s : Server)
    → IsValid s
    → Fresh s r.accepted
    → Post IsValid (handle_ready r rfds s)
unfolding handle_ready
handle_ready-IsValid r rfds s v fresh = elim (Bool-cases (rfds s.master_sock)) [
  | inl e ↦ rw e (asked r.accepted fresh)
  | inr e ↦ rw e (serve_clients-IsValid r rfds s v)
]
  where
    asked :
        (a : Answer ℕ)
        → Fresh s a
        → Post IsValid (
            call_or_exit (Call.accept s.master_sock) exit_minus_one a >>= λ new.
            new_connection r rfds new s)
    asked (failed e) f = tt
    asked (gave new) f =
        Post-after IsValid (Call.accept s.master_sock ∷ []) (new_connection r rfds new s)
          (new_connection-IsValid r rfds new s v f)

handle_selected-IsValid :
    (r : Round) (s : Server) (a : Answer Selected)
    → IsValid s
    → Fresh s r.accepted
    → Post IsValid (handle_selected r s a)
unfolding handle_selected
handle_selected-IsValid r s (failed e) v fresh = elim (Bool-cases (is_eintr e)) [
  | inl i ↦ rw i v
  | inr i ↦ rw i tt
]
handle_selected-IsValid r s (gave timeout) v fresh = v
handle_selected-IsValid r s (gave (ready fds)) v fresh =
    handle_ready-IsValid r (fd_ready s.active_fds fds) s v fresh

round-Post : (s : Server) (r : Round) → IsValid s → Fresh s r.accepted → Post IsValid (round s r)
unfolding round
round-Post s r v fresh =
    Post-after IsValid (Call.select ∷ []) (handle_selected r s r.selected)
      (handle_selected-IsValid r s r.selected v fresh)

-- A round keeps the table valid, whatever its calls answer, if accept answers with a descriptor
-- that was not open: the count stays the number of the slots in use, at most three, the
-- descriptors that are watched stay the listening socket and the clients, and max_sd bounds them.
pub round-IsValid :
    (s : Server) (r : Round) (cs : List Call) (s' : Server)
    → IsValid s
    → Fresh s r.accepted
    → round s r ≡ returns cs s'
    → IsValid s'
round-IsValid s r cs s' v fresh e =
    Post-returns IsValid (round s r) cs s' (round-Post s r v fresh) e

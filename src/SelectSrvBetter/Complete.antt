-- ===== src/SelectSrvBetter/Complete.antt =====
-- C/select_srv_better.c: which descriptors a round without a new connection reads.
use network_pragramming.Prelude.{
  ℕ, zero, suc, ◌-◌, ◌≤◌, ◌≡◌, refl, true, false, ◌&&◌, none, some, [], ◌∷◌, Bytes, take, drop,
  arith, ◌==◌, if◌then◌else◌, Bool-cases, inl, inr, append-nil,
}
use network_pragramming.Sys.{gave, trace, FdSet, fd_ready}
use network_pragramming.Sys.Trace.{reads, reads-append}
use network_pragramming.Slots.{Slots, held, used, held-le-used}
use network_pragramming.SelectSrvBetter.{
  Server, Selected, Round, read_client, clients, stored, recv_buf_size, round,
}

-- How many slots hold a ready descriptor.
abbrev pub ready_count : FdSet → Slots → ℕ
ready_count rfds [] = 0
ready_count rfds (none ∷ ss) = ready_count rfds ss
ready_count rfds (some sd ∷ ss) = if rfds sd then suc (ready_count rfds ss) else ready_count rfds ss

read_client-reads :
    (fd sd : ℕ) (active : FdSet) (bytes : Bytes)
    → reads fd (read_client sd active bytes).calls ≡ (if sd == fd then 1 else 0)
unfolding read_client
read_client-reads fd sd active [] = refl
read_client-reads fd sd active (b ∷ bytes) = refl

-- With no ready descriptor in the slots, none of them is counted for a ready one.
held-unready :
    (fd : ℕ) (rfds : FdSet) (ss : Slots) → ready_count rfds ss ≡ 0 → rfds fd ≡ true → held fd ss ≡ 0
held-unready fd rfds [] h e = refl
held-unready fd rfds (none ∷ ss) h e = held-unready fd rfds ss h e
held-unready fd rfds (some sd ∷ ss) h e = ground (arith, held-unready fd rfds ss)

clients-reads :
    (fd : ℕ) (r : Round) (rfds : FdSet) (left n : ℕ) (ss : Slots) (active : FdSet)
    → ready_count rfds (take left ss) ≤ n
    → reads fd (clients r rfds left n ss active).calls
      ≡ (if rfds fd then held fd (take left ss) else 0)
unfolding clients
clients-reads fd r rfds zero n ss active h = ground arith
clients-reads fd r rfds (suc left) n [] active h = ground arith
clients-reads fd r rfds (suc left) n (none ∷ ss) active h =
    clients-reads fd r rfds left n ss active h
clients-reads fd r rfds (suc left) n (some sd ∷ ss) active h =
    let b = stored (recv_buf_size - 1) (r.received sd) in
    let t = read_client sd active b in
    ground (
      arith,
      read_client-reads fd sd active b,
      append-nil t.calls,
      reads-append fd t.calls (clients r rfds left (n - 1) ss t.active).calls,
      clients-reads fd r rfds left (n - 1) ss t.active,
      clients-reads fd r rfds left n ss active,
      held-unready fd rfds (take left ss),
    )

take-held : (fd k : ℕ) (ss : Slots) → used (drop k ss) ≡ 0 → held fd (take k ss) ≡ held fd ss
take-held fd zero ss h = omega (arith, held-le-used fd ss)
take-held fd (suc k) [] h = refl
take-held fd (suc k) (none ∷ ss) h = take-held fd k ss h
take-held fd (suc k) (some sd ∷ ss) h = ground (arith, take-held fd k ss h)

pub take-ready_count :
    (rfds : FdSet) (k : ℕ) (ss : Slots) → ready_count rfds (take k ss) ≤ ready_count rfds ss
take-ready_count rfds zero ss = omega arith
take-ready_count rfds (suc k) [] = omega arith
take-ready_count rfds (suc k) (none ∷ ss) = take-ready_count rfds k ss
take-ready_count rfds (suc k) (some sd ∷ ss) = ground (arith, take-ready_count rfds k ss)

-- If select reports no new connection and at least as many ready descriptors as there are ready
-- clients, and no slot at or above the loop's limit is in use, then a round reads from each
-- descriptor that is watched and ready as often as the table holds it, and from no other.
pub round-reads_ready :
    (s : Server) (r : Round) (q : Selected) (fd : ℕ)
    → used (drop s.limit s.cli_socks) ≡ 0
    → r.selected ≡ gave q
    → q.fds s.master_sock ≡ false
    → ready_count (fd_ready s.active_fds q.fds) s.cli_socks ≤ q.nready
    → reads fd (trace (round s r))
      ≡ (if s.active_fds fd && q.fds fd then held fd s.cli_socks else 0)
unfolding round
round-reads_ready s r q fd above e quiet enough =
    let rfds = fd_ready s.active_fds q.fds in
    let off : rfds s.master_sock ≡ false = ground arith in
    elim (Bool-cases (q.nready == 0)) [
      | inl z ↦ rw (e, z) (ground (arith, held-unready fd rfds s.cli_socks))
      | inr z ↦
          rw (e, z, off)
            (ground (
              arith,
              clients-reads fd r rfds s.limit q.nready s.cli_socks s.active_fds,
              take-held fd s.limit s.cli_socks above,
              take-ready_count rfds s.limit s.cli_socks,
            ))
    ]

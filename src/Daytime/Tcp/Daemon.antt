-- ===== src/Daytime/Tcp/Daemon.antt =====
-- daemon_init of C/daytime_tcp_server_daemon.c: the descriptors that it closes.
use network_pragramming.Prelude.{
  codes, ℕ, zero, suc, ◌+◌, ◌≡◌, refl, Bool, true, false, ◌&&◌, List, [], ◌∷◌, ◌++◌, arith, ltb,
  leb, ◌==◌, if◌then◌else◌, Bool-cases, inl, inr,
}
use network_pragramming.Sys.{Answer, failed, gave, Call, Prog, returns, exits, waits, after, ◌>>=◌}
use network_pragramming.Daytime.Tcp.{
  Forks, max_fd, close_from, detach, fork_once, second_fork, new_session, daemon_init,
}

-- How often a trace closes `fd`.
abbrev pub closings : ℕ → List Call → ℕ
closings fd [] = 0
closings fd (Call.close d ∷ cs) = if d == fd then suc (closings fd cs) else closings fd cs
closings fd (c ∷ cs) = closings fd cs

closings-append :
    (fd : ℕ) (cs ds : List Call) → closings fd (cs ++ ds) ≡ closings fd cs + closings fd ds
closings-append fd [] ds = omega arith
closings-append fd (Call.close d ∷ cs) ds = ground (arith, closings-append fd cs ds)
closings-append fd (_ ∷ cs) ds = closings-append fd cs ds

closings-close_from :
    (fd i left : ℕ)
    → closings fd (close_from i left) ≡ (if leb i fd && ltb fd (i + left) then 1 else 0)
unfolding close_from
closings-close_from fd i zero = ground arith
closings-close_from fd i (suc left) = ground (arith, closings-close_from fd (suc i) left)

closings-detach : (fd : ℕ) → closings fd detach ≡ (if ltb fd max_fd then 1 else 0)
unfolding detach
closings-detach fd = ground (
  arith,
  closings-append fd (close_from 0 max_fd) (
      Call.open_file (codes "/dev/null")
      ∷ Call.open_file (codes "/dev/null")
      ∷ Call.open_file (codes "/dev/null")
      ∷ []),
  closings-close_from fd 0 max_fd,
)

-- What daemon_init has closed where it returns 0.
abbrev Detached : ℕ → Prog Bool → Type 0
Detached fd (returns cs true) = closings fd cs ≡ (if ltb fd max_fd then 1 else 0)
Detached fd (returns cs false) = Unit
Detached fd (exits cs n) = Unit
Detached fd (waits cs) = Unit

Detached-after :
    (fd : ℕ) (cs : List Call) (p : Prog Bool)
    → closings fd cs ≡ 0
    → Detached fd p
    → Detached fd (after cs p)
Detached-after fd cs (returns ds true) e h = omega (arith, closings-append fd cs ds)
Detached-after fd cs (returns ds false) e h = tt
Detached-after fd cs (exits ds n) e h = tt
Detached-after fd cs (waits ds) e h = tt

second_fork-Detached : (fd : ℕ) (a : Answer ℕ) → Detached fd (second_fork a)
unfolding second_fork fork_once
second_fork-Detached fd (failed e) = tt
second_fork-Detached fd (gave pid) = elim (Bool-cases (ltb 0 pid)) [
  | inl p ↦ rw p tt
  | inr p ↦ rw p (closings-detach fd)
]

new_session-Detached :
    (fd : ℕ) (s : Answer (Unit {0})) (a : Answer ℕ) → Detached fd (new_session s a)
unfolding new_session
new_session-Detached fd (failed e) a = tt
new_session-Detached fd (gave u) a =
    Detached-after fd (Call.setsid ∷ []) (second_fork a) refl (second_fork-Detached fd a)

first_fork-Detached :
    (fd : ℕ) (first : Answer ℕ) (p : Prog Bool)
    → Detached fd p
    → Detached fd (fork_once first >>= λ ok. if ok then p else returns [] false)
unfolding fork_once
first_fork-Detached fd (failed e) p h = tt
first_fork-Detached fd (gave pid) p h = elim (Bool-cases (ltb 0 pid)) [
  | inl q ↦ rw q tt
  | inr q ↦ rw q (Detached-after fd (Call.fork ∷ []) p refl h)
]

daemon_init-Detached : (fd : ℕ) (f : Forks) → Detached fd (daemon_init f)
unfolding daemon_init
daemon_init-Detached fd f =
    first_fork-Detached fd f.first (new_session f.session f.second)
      (new_session-Detached fd f.session f.second)

-- Where daemon_init returns 0, the process has closed each descriptor below 64 once, and no other.
pub daemon_init-closes :
    (f : Forks) (cs : List Call) (fd : ℕ)
    → daemon_init f ≡ returns cs true
    → closings fd cs ≡ (if ltb fd max_fd then 1 else 0)
daemon_init-closes f cs fd e = rw e at (daemon_init-Detached fd f)

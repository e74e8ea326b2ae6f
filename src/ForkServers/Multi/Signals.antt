-- ===== src/ForkServers/Multi/Signals.antt =====
-- C/multi_conn_server.c after a signal.
use network_pragramming.Prelude.{
  append-nil, ℕ, ◌≡◌, refl, ap, suc, List, [], ◌∷◌, ◌++◌, length, replicate,
}
use network_pragramming.Sys.{Answer, Call, Prog, exits, ◌>>◌}
use network_pragramming.ForkServers.Accept.{Round}
use network_pragramming.ForkServers.Reap.{AllPids, IsLast, reap-returns}
use network_pragramming.ForkServers.Multi.{Event, Work, incoming, sigchld, event, events, sig_child}

-- Some rounds, and SIGCHLD behind them, with the answers of its handler's waitpid.
abbrev pub until_signal : List (Round Work) → List (Answer ℕ) → List Event → List Event
until_signal [] pids later = sigchld pids ∷ later
until_signal (r ∷ rs) pids later = incoming r ∷ until_signal rs pids later

-- The program after some rounds.
abbrev pub behind : ℕ → List (Round Work) → Prog (Unit {0}) → Prog (Unit {0})
behind fd [] p = p
behind fd (r ∷ rs) p = event fd (incoming r) >> behind fd rs p

-- The first SIGCHLD ends the server: its parent waits for the children that have ended and exits
-- with status 0, and serves no connection that comes later.
pub events-sigchld :
    (fd : ℕ) (rs : List (Round Work)) (pids : List (Answer ℕ)) (a : Answer ℕ)
    (rest : List (Answer ℕ)) (later : List Event)
    → AllPids pids
    → IsLast a
    → events fd (until_signal rs (pids ++ (a ∷ rest)) later)
      ≡ behind fd rs (exits (Call.accept fd ∷ replicate (suc (length pids)) Call.wait_child) 0)
unfolding events event sig_child
events-sigchld fd [] pids a rest later h l =
    rw (reap-returns pids a rest h l, append-nil (replicate (length pids) Call.wait_child)) refl
events-sigchld fd (r ∷ rs) pids a rest later h l =
    ap (λ p. event fd (incoming r) >> p) (events-sigchld fd rs pids a rest later h l)

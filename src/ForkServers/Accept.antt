-- ===== src/ForkServers/Accept.antt =====
-- The body of the loops of the forking servers: accept, fork, and the work of parent and child.
pub mod Closes
pub mod Child
use network_pragramming.Prelude.{ℕ, Bool, true, false, List, [], ◌∷◌, ◌==◌, if◌then◌else◌}
use network_pragramming.Sys.{
  is_eintr, Answer, failed, gave, Call, Prog, returns, exits, waits, exit, exit_failure, call,
  after, ◌>>=◌, ◌>>◌,
}

-- What accept and fork answer in one round, and what the calls of the child answer.
pub record Round (W : Type 0) : Type 0 where
  pub accepted : Answer ℕ
  pub forked : Answer ℕ
  pub work : W

-- `service` is the child's work on a connection, and `fork_failed` what the parent does with one
-- for which fork fails.
module _ {W : Type 0} (service : ℕ → W → Prog (Unit {0})) (fork_failed : ℕ → Prog (Unit {0})) where
  -- close(listenfd); …; exit(EXIT_SUCCESS);
  child_process : ℕ → ℕ → W → Prog (Unit {0})
  child_process listenfd fd w = do call (Call.close listenfd); service fd w; exit 0

  pub forked_case : ℕ → ℕ → W → Answer ℕ → Prog (Unit {0})
  unfolding child_process
  forked_case listenfd fd w (failed e) = after (Call.fork ∷ []) (fork_failed fd)
  forked_case listenfd fd w (gave pid) =
      after (Call.fork ∷ [])
        (if pid == 0 then child_process listenfd fd w else call (Call.close fd))

  accepted_case : ℕ → Round W → Answer ℕ → Prog (Unit {0})
  unfolding forked_case
  accepted_case listenfd r (failed e) = if is_eintr e then returns [] tt else exit exit_failure
  accepted_case listenfd r (gave fd) = forked_case listenfd fd r.work r.forked

  pub round : ℕ → Round W → Prog (Unit {0})
  unfolding accepted_case
  round listenfd r = after (Call.accept listenfd ∷ []) (accepted_case listenfd r r.accepted)

  -- The loop; it waits in accept where its answers end.
  unfoldable pub rounds : ℕ → List (Round W) → Prog (Unit {0})
  unfolding round
  rounds listenfd [] = waits (Call.accept listenfd ∷ [])
  rounds listenfd (r ∷ rs) = round listenfd r >> rounds listenfd rs

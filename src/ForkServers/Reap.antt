-- ===== src/ForkServers/Reap.antt =====
-- `while ((pid = waitpid(-1, &stat, WNOHANG)) > 0)`, the loop of the handlers of SIGCHLD in
-- C/select_tcp_udp_server.c, C/unix_stream_server.c and C/multi_conn_server.c.
use network_pragramming.Prelude.{
  ℕ, suc, ◌≡◌, ◌≢◌, refl, ap, true, false, List, [], ◌∷◌, ◌++◌, length, replicate, arith, ◌==◌,
  if◌then◌else◌,
}
use network_pragramming.Sys.{Answer, failed, gave, Call, Prog, returns, waits, after}

-- waitpid answers the process id of a child that has ended, 0 when there is none but some run, and
-- fails when there are none at all.
unfoldable pub reap : List (Answer ℕ) → Prog (Unit {0})
reap [] = waits (Call.wait_child ∷ [])
reap (failed e ∷ rest) = returns (Call.wait_child ∷ []) tt
reap (gave pid ∷ rest) =
    let more = after (Call.wait_child ∷ []) (reap rest) in
    if pid == 0 then returns (Call.wait_child ∷ []) tt else more

-- Answers with the process ids of ended children.
abbrev pub AllPids : List (Answer ℕ) → Type 0
AllPids [] = Unit
AllPids (failed e ∷ rest) = ⊥
AllPids (gave pid ∷ rest) = (pid ≢ 0) × AllPids rest

-- An answer when no ended child is left.
abbrev pub IsLast : Answer ℕ → Type 0
IsLast (failed e) = Unit
IsLast (gave pid) = pid ≡ 0

reap_last :
    (a : Answer ℕ) (rest : List (Answer ℕ))
    → IsLast a
    → reap (a ∷ rest) ≡ returns (Call.wait_child ∷ []) tt
unfolding reap
reap_last (failed e) rest h = refl
reap_last (gave pid) rest h = let none : (pid == 0) ≡ true = ground arith in rw none refl

-- The handler returns as soon as no ended child is left, and has by then waited once for each of
-- those that had ended, however many one signal stood for.
pub reap-returns :
    (pids : List (Answer ℕ)) (a : Answer ℕ) (rest : List (Answer ℕ))
    → AllPids pids
    → IsLast a
    → reap (pids ++ (a ∷ rest)) ≡ returns (replicate (suc (length pids)) Call.wait_child) tt
unfolding reap
reap-returns [] a rest h l = reap_last a rest l
reap-returns (failed e ∷ pids) a rest h l = absurd h
reap-returns (gave pid ∷ pids) a rest (p, h) l =
    let live : (pid == 0) ≡ false = ground arith in
    rw live (ap (after (Call.wait_child ∷ [])) (reap-returns pids a rest h l))

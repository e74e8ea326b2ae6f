-- ===== src/Heartbeat/Server/Timers.antt =====
-- C/heartbeat_srv.c: how often a silent peer is reported.
use network_pragramming.Prelude.{
  ℕ, zero, suc, ◌+◌, ◌/◌, ◌%◌, ◌≤◌, ◌≡◌, false, List, [], ◌∷◌, replicate, arith,
}
use network_pragramming.Heartbeat.Server.{
  State, Event, sigurg, sigalrm, sigchld, hangup, peer_expire_cnt, step, run, peer_resets,
}

-- Between two signals the count is at most 3, unless the flag is set.
abbrev InBounds : State → Type 0
InBounds s = s.already_reset ≡ false → s.expire_cnt ≤ peer_expire_cnt

step-InBounds : (s : State) (e : Event) → InBounds s → InBounds (step s e).0
unfolding step
step-InBounds s (sigurg c) h r = omega arith
step-InBounds s sigalrm h r = ground arith
step-InBounds s sigchld h r = h r
step-InBounds s hangup h r = ground arith

run-InBounds : (s : State) (n : ℕ) (es : List Event) → InBounds s → InBounds (run s n es).0
unfolding run
run-InBounds s n [] h = h
run-InBounds s n (e ∷ es) h =
    run-InBounds (step s e).0 (n + peer_resets (step s e).1) es (step-InBounds s e h)

-- From a count of at most 3, no sequence of signals and hang-ups leads to a higher count with the
-- flag clear, so that the test for equality with 3 is not passed over.
pub run-expire_cnt :
    (s : State) (n : ℕ) (es : List Event)
    → s.expire_cnt ≤ peer_expire_cnt
    → (run s n es).0.already_reset ≡ false
    → (run s n es).0.expire_cnt ≤ peer_expire_cnt
run-expire_cnt s n es h r = run-InBounds s n es (λ _. h) r

timer_step :
    (s : State)
    → s.already_reset ≡ false
    → s.expire_cnt ≤ 3
    → ((step s sigalrm).0.already_reset ≡ false)
      × ((step s sigalrm).0.expire_cnt ≡ (s.expire_cnt + 1) % 4)
      × (peer_resets (step s sigalrm).1 ≡ (s.expire_cnt + 1) / 4)
unfolding step
timer_step s r h = ground arith

-- At a server with its flag clear and a count of at most 3, a peer that stays silent for k timer
-- signals is reported at every fourth of them, counted from the last heartbeat or report, and the
-- count goes round from 0 to 3.
pub timers-every_fourth :
    (s : State) (n k : ℕ)
    → s.already_reset ≡ false
    → s.expire_cnt ≤ 3
    → let (s', count) = run s n (replicate k sigalrm) in
      (s'.expire_cnt ≡ (s.expire_cnt + k) % 4) × (count ≡ n + (s.expire_cnt + k) / 4)
unfolding run
timers-every_fourth s n zero r h = omega arith
timers-every_fourth s n (suc k) r h =
    let (r', count, report) = timer_step s r h in
    omega (
      arith,
      timers-every_fourth (step s sigalrm).0 (n + peer_resets (step s sigalrm).1) k r'
          (omega arith),
      count,
      report,
    )

-- ===== src/Heartbeat/Server.antt =====
-- C/heartbeat_srv.c: the handler and the loop over connections, which share one set of variables.
pub mod Timers
use network_pragramming.Prelude.{
  ℕ, zero, suc, ◌+◌, ◌≤◌, ◌<◌, ◌≡◌, ◌⊎◌, refl, Bool, true, false, not, ◌&&◌, List, [], ◌∷◌, ◌++◌,
  arith, ltb, leb, ◌==◌, if◌then◌else◌,
}

abbrev pub peer_expire_cnt : ℕ
peer_expire_cnt = 3

abbrev pub alarm_interval : ℕ
alarm_interval = 2

pub record State : Type 0 where
  pub expire_cnt : ℕ
  pub already_reset : Bool

-- `reset_peer` stands for the message "RESET PEER : maybe not start up.", and `lost_peer` for
-- "RESET PEER : socket have been shutdown".
pub data Effect : Type 0 where
  alarm : ℕ → Effect
  reply : Effect
  reset_peer : Effect
  lost_peer : Effect
  close_client : Effect
  reap_child : Effect

-- SIGURG with the byte that recv gets, SIGALRM, SIGCHLD, and the end of a connection at the recv
-- of the main loop.
pub data Event : Type 0 where
  sigurg : ℕ → Event
  sigalrm : Event
  sigchld : Event
  hangup : Event

-- `PEER_EXPIRE_CNT == expire_cnt++ && 0 == already_reset`: the count is raised in any case.
check_expired : State → State × List Effect
check_expired s =
    if (peer_expire_cnt == s.expire_cnt) && not s.already_reset
    then (record s { expire_cnt = 0 }, reset_peer ∷ [])
    else (record s { expire_cnt = s.expire_cnt + 1 }, [])

-- sig_handler, and the rest of the main loop's body behind recv.
unfoldable pub step : State → Event → State × List Effect
unfolding check_expired
step s (sigurg c) =
    (record { expire_cnt = 0; already_reset = false }, if c == b'c' then reply ∷ [] else [])
step s sigalrm = let (s', effects) = check_expired s in (s', alarm alarm_interval ∷ effects)
step s sigchld = (s, reap_child ∷ [])
step s hangup = (record s { already_reset = true }, lost_peer ∷ close_client ∷ [])

-- The messages "RESET PEER : maybe not start up." among some effects.
abbrev pub peer_resets : List Effect → ℕ
peer_resets [] = 0
peer_resets (reset_peer ∷ es) = suc (peer_resets es)
peer_resets (e ∷ es) = peer_resets es

-- A run over some events, with the number of those messages.
unfoldable pub run : State → ℕ → List Event → State × ℕ
run s n [] = (s, n)
run s n (e ∷ es) = let (s', effects) = step s e in run s' (n + peer_resets effects) es

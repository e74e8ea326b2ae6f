-- ===== src/Heartbeat/Client.antt =====
-- C/heartbeat_cli.c and C/heartbeat_android.c: the two clients have the same handler and the same
-- loop, but for the limit of failed connections and a close behind recv.
pub mod Beats
use network_pragramming.Prelude.{
  ℕ, zero, suc, ◌+◌, ◌≤◌, ◌<◌, ◌≡◌, refl, Bool, true, false, not, ◌&&◌, List, [], ◌∷◌, ◌++◌, arith,
  ltb, ◌==◌, if◌then◌else◌,
}

abbrev pub alarm_interval : ℕ
alarm_interval = 3

-- PEER_EXPIRE_CNT, whether the connection is closed behind recv, and the size of its buffer.
pub record Variant : Type 0 where
  pub peer_expire_cnt : ℕ
  pub closes : Bool
  pub buf_size : ℕ

abbrev pub heartbeat_cli : Variant
heartbeat_cli = record { peer_expire_cnt = 3; closes = false; buf_size = 1024 }

abbrev pub heartbeat_android : Variant
heartbeat_android = record { peer_expire_cnt = 10; closes = true; buf_size = 256 }

pub record State : Type 0 where
  pub got_reply : Bool
  pub expire_cnt : ℕ
  pub already_reset : Bool

-- `beat` is send(conn_fd, "c", 1, MSG_OOB); `lost` stands for the message "RESET PEER : lost
-- connection to server!", and `not_started` for "RESET PEER : maybe not start up.".
pub data Effect : Type 0 where
  alarm : ℕ → Effect
  beat : Effect
  close_conn : Effect
  lost : Effect
  not_started : Effect

-- connect_server succeeds, or fails, having closed its socket; recv returns; SIGURG with the byte
-- that recv gets; SIGALRM.
pub data Event : Type 0 where
  connected : Event
  refused : Event
  recv_ends : Event
  sigurg : ℕ → Event
  sigalrm : Event

-- `0 == already_reset` in the handler.
report_lost : State → State × List Effect
report_lost s = if s.already_reset then (s, []) else (record s { already_reset = true }, lost ∷ [])

-- The branch of SIGALRM in sig_handler.
on_alarm : State → State × List Effect
unfolding report_lost
on_alarm s =
    let (s', effects) = report_lost s in
    if s.got_reply
    then (record s { got_reply = false }, alarm alarm_interval ∷ beat ∷ [])
    else (s', alarm alarm_interval ∷ close_conn ∷ effects)

-- `PEER_EXPIRE_CNT == expire_cnt++ && 0 == already_reset`
on_refused : Variant → State → State × List Effect
on_refused v s =
    if (v.peer_expire_cnt == s.expire_cnt) && not s.already_reset
    then (record s { expire_cnt = 0 }, close_conn ∷ not_started ∷ [])
    else (record s { expire_cnt = s.expire_cnt + 1 }, close_conn ∷ [])

-- sig_handler and the loop of main.
unfoldable pub step : Variant → State → Event → State × List Effect
unfolding on_alarm on_refused
step v s connected = (record s { got_reply = true }, alarm alarm_interval ∷ [])
step v s refused = on_refused v s
step v s recv_ends = (record s { got_reply = false }, if v.closes then close_conn ∷ [] else [])
step v s (sigurg c) = (record s { got_reply = c == b's'; already_reset = false }, [])
step v s sigalrm = on_alarm s

abbrev pub start : State
start = record { got_reply = true; expire_cnt = 0; already_reset = false }

abbrev pub beats : List Effect → ℕ
beats [] = 0
beats (beat ∷ es) = suc (beats es)
beats (e ∷ es) = beats es

abbrev pub losses : List Effect → ℕ
losses [] = 0
losses (lost ∷ es) = suc (losses es)
losses (e ∷ es) = losses es

-- All effects of a run.
pub run : Variant → State → List Event → State × List Effect
run v s [] = (s, [])
run v s (e ∷ es) =
    let (s', effects) = step v s e in let (s'', more) = run v s' es in (s'', effects ++ more)

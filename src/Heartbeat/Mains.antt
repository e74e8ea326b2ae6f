-- ===== src/Heartbeat/Mains.antt =====
-- main of C/heartbeat_cli.c and C/heartbeat_android.c: the calls of the two clients, in which a
-- handler uses the descriptor that connect_server has stored last.
pub mod Closed
use network_pragramming.Prelude.{
  ℕ, Option, none, some, List, [], ◌∷◌, ◌++◌, Bytes, ◌==◌, if◌then◌else◌,
}
use network_pragramming.Sys.{
  Answer, failed, gave, Call, Prog, returns, exits, waits, exit, call, after, ◌>>=◌, ◌>>◌,
}
use network_pragramming.Heartbeat.Client
use network_pragramming.Heartbeat.Client.{
  Variant, Effect, alarm, beat, close_conn, Event, connected, refused, recv_ends, sigurg, sigalrm,
  heartbeat_cli, heartbeat_android,
}
use network_pragramming.Heartbeat.Startup.{connect_server}

-- The variables of a client; conn_fd is -1, here `none`, where socket has failed.
pub record Process : Type 0 where
  pub client : Client.State
  pub conn_fd : Option ℕ

pub data Signal : Type 0 where
  urgent : ℕ → Signal
  timer : Signal

-- A round of the loop: what connect_server gets, the signals while recv waits, and those in sleep.
pub record Round : Type 0 where
  pub socket : Answer ℕ
  pub connected : Answer (Unit {0})
  pub receiving : List Signal
  pub asleep : List Signal

-- The calls behind an effect. On -1 a call fails and does nothing.
on_descriptor : Option ℕ → (ℕ → Call) → List Call
on_descriptor none c = []
on_descriptor (some fd) c = c fd ∷ []

effect_calls : Option ℕ → Effect → List Call
unfolding on_descriptor
effect_calls fd (alarm n) = Call.alarm n ∷ []
effect_calls fd beat = on_descriptor fd (λ d. Call.send_urgent d b'c')
effect_calls fd close_conn = on_descriptor fd Call.close
effect_calls fd e = []

calls_of : Option ℕ → List Effect → List Call
unfolding effect_calls
calls_of fd [] = []
calls_of fd (e ∷ es) = effect_calls fd e ++ calls_of fd es

happens : Variant → Event → Process → Prog Process
unfolding calls_of
happens v e p =
    let (s, es) = Client.step v p.client e in
    returns (calls_of p.conn_fd es) (record p { client = s })

abbrev event_of : Signal → Event
event_of (urgent c) = sigurg c
event_of timer = sigalrm

-- sig_handler, once for each signal.
signals : Variant → List Signal → Process → Prog Process
unfolding happens
signals v [] p = returns [] p
signals v (s ∷ rest) p = happens v (event_of s) p >>= signals v rest

-- What follows connect_server. When it fails, it has closed its socket itself.
server_case : Variant → List Signal → Event → Process → Prog Process
unfolding signals happens
server_case v receiving refused p =
    returns [] (record p { client = (Client.step v p.client refused).0 })
server_case v receiving e p = do
  p1 ← happens v connected p
  returns (on_descriptor p.conn_fd (λ d. Call.read d v.buf_size)) tt
  p2 ← signals v receiving p1
  happens v recv_ends p2

abbrev descriptor : Answer ℕ → Option ℕ
descriptor (failed e) = none
descriptor (gave fd) = some fd

-- connect_server with the answers of a round.
connecting : Round → Prog Event
connecting r = connect_server r.socket r.connected

attempt : Variant → Round → Process → Prog Process
unfolding connecting server_case
attempt v r p = do
  e ← connecting r
  p1 ← server_case v r.receiving e (record p { conn_fd = descriptor r.socket })
  signals v r.asleep p1

-- The `while (1)`, which waits in the next call where the rounds end.
rounds : Variant → List Round → Process → Prog (Unit {0})
unfolding attempt
rounds v [] p = waits (Call.socket ∷ [])
rounds v (r ∷ rest) p = attempt v r p >>= rounds v rest

abbrev start : Process
start = record { client = Client.start; conn_fd = some 0 }

-- main of C/heartbeat_android.c
unfoldable pub android_main : List Round → Prog (Unit {0})
unfolding rounds
android_main rs = rounds heartbeat_android rs start

-- main of C/heartbeat_cli.c over argv[1], …
unfoldable pub cli_main : List Bytes → List Round → Prog (Unit {0})
unfolding rounds
cli_main (ip ∷ port ∷ []) rs = rounds heartbeat_cli rs start
cli_main argv rs = exit 0

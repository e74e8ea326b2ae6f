-- ===== src/Heartbeat/Tests.antt =====
-- The heartbeat programs on concrete events.
use network_pragramming.Prelude.{
  ◌+◌, ◌/◌, ◌≤◌, ◌≡◌, refl, true, false, some, ◌&&◌, List, [], ◌∷◌, replicate, codes, arith, leb,
  ltb, if◌then◌else◌,
}
use network_pragramming.Sys.{Errno, failed, gave, Call, returns, exits}
use network_pragramming.Heartbeat.Startup.{heartbeat_router, heartbeat_srv, connect_server}
use network_pragramming.Heartbeat.Router
use network_pragramming.Heartbeat.Router.{
  World, Tally, timer, connection, urgent, hangup, write_expire_cnt, read_expire_cnt,
  peer_expire_cnt,
}
use network_pragramming.Heartbeat.Router.Count.{
  fine, text_of, read-write_expire_cnt, timers-reset_once,
}
use network_pragramming.Heartbeat.Router.Once.{Stays, run-never_again}
use network_pragramming.Heartbeat.Client
use network_pragramming.Heartbeat.Client.{refused}
use network_pragramming.Heartbeat.Mains
use network_pragramming.Heartbeat.Mains.{android_main, cli_main}
use network_pragramming.Heartbeat.Mains.Closed.{android_main-closes_of}
use network_pragramming.Sys.Trace.{closes_of}
use network_pragramming.Sys.{trace}
use network_pragramming.Heartbeat.Session.{
  Move, client_alarm, server_alarm, moves, Turn, turns, since, steady,
}
use network_pragramming.Heartbeat.Session.Alive.{moves-turns}
use network_pragramming.Heartbeat.Session.Silent.{moves-Silent}

read-write_expire_cnt_example :
    read_expire_cnt fine.read (write_expire_cnt fine.last 31 []) ≡ some 31
read-write_expire_cnt_example =
    read-write_expire_cnt fine.last fine.read 31 [] refl refl refl refl (omega arith)

abbrev silent : World
silent = record {
  file = text_of 28;
  parent = record { already_reset = false; child_pid = 7 };
  children = [];
}

abbrev zero_tally : Tally
zero_tally = record { by_handler = 0; by_servlet = 0 }

timers-reset_once_example :
    (w' : World) × (t : Tally) × (Router.run silent zero_tally (replicate 5 (timer fine))
      ≡ some (w', t))
    × (read_expire_cnt fine.read w'.file ≡ some (28 + 5))
    × (t.by_handler ≡ (if leb 28 peer_expire_cnt && ltb peer_expire_cnt (28 + 5) then 1 else 0))
timers-reset_once_example = timers-reset_once silent 28 5 (omega arith) refl refl

-- A router that has reset its peer, which then comes back and falls silent again.
abbrev again : World
again = record {
  file = text_of 30;
  parent = record { already_reset = true; child_pid = 7 };
  children = [];
}

abbrev relapse : List Router.Event
relapse = connection 8 ∷ urgent 0 b'c' fine ∷ hangup 0 ∷ replicate 40 (timer fine)

abbrev one_reset : Tally
one_reset = record { by_handler = 1; by_servlet = 0 }

run-never_again_example : Stays one_reset 1 (Router.run again one_reset relapse)
run-never_again_example = run-never_again again one_reset relapse refl

-- Two beats with the server's alarms around them, then the one alarm of a dead peer.
abbrev two_turns : List Turn
two_turns =
    record { before = 1; between = 0; behind = 2 }
    ∷ record { before = 1; between = 1; behind = 0 }
    ∷ []

moves-turns_example :
    moves Client.heartbeat_cli (steady 2 0) (turns two_turns (client_alarm ∷ []))
    ≡ moves Client.heartbeat_cli (steady (since 2 two_turns) 0) (client_alarm ∷ [])
moves-turns_example =
    moves-turns Client.heartbeat_cli 2 0 two_turns (client_alarm ∷ [])
      (omega arith, omega arith, (omega arith, omega arith, tt))

abbrev unanswered : List Move
unanswered =
    client_alarm ∷ server_alarm ∷ server_alarm ∷ client_alarm ∷ server_alarm ∷ client_alarm ∷ []

moves-Silent_example :
    ((moves Client.heartbeat_cli (steady 1 0) unanswered).lost ≡ 0 + 1)
    × ((moves Client.heartbeat_cli (steady 1 0) unanswered).resets ≡ 0 + (1 + 3) / 4)
moves-Silent_example =
    moves-Silent Client.heartbeat_cli (steady 1 0) unanswered refl (omega arith) tt

-- Both servers go on when bind fails, and end when setsockopt fails.
router_start :
    heartbeat_router (record { socket = gave 3; reused = gave tt }) (text_of 7) []
    ≡ returns
        (Call.socket ∷ Call.set_reuseaddr 3 ∷ Call.bind 3 ∷ Call.listen 3 15 ∷ Call.alarm 2 ∷ [])
        (
          record {
            file = text_of 7;
            parent = record { already_reset = false; child_pid = 0 };
            children = [];
          },
          zero_tally,
        )
unfolding heartbeat_router
router_start = refl

server_start :
    heartbeat_srv 2 (record { socket = gave 3; reused = failed Errno.other }) []
    ≡ exits (Call.socket ∷ Call.set_reuseaddr 3 ∷ []) 255
unfolding heartbeat_srv
server_start = refl

client_refused :
    connect_server (gave 3) (failed Errno.other)
    ≡ returns (Call.socket ∷ Call.set_owner 3 ∷ Call.connect 3 ∷ Call.close 3 ∷ []) refused
unfolding connect_server
client_refused = refl

-- A connection with one answered beat, and one that is refused.
abbrev two_rounds : List Mains.Round
two_rounds =
    record {
      socket = gave 4;
      connected = gave tt;
      receiving = Mains.timer ∷ Mains.urgent b's' ∷ [];
      asleep = [];
    }
    ∷ record { socket = gave 4; connected = failed Errno.other; receiving = []; asleep = [] }
    ∷ []

android_main-closes_of_example : 2 ≤ closes_of 4 (trace (android_main two_rounds))
android_main-closes_of_example = android_main-closes_of 4 two_rounds

-- The other client leaves the socket of its connection open.
cli_leaks : closes_of 4 (trace (cli_main (codes "10.0.0.1" ∷ codes "5003" ∷ []) two_rounds)) ≡ 1
unfolding cli_main connect_server Client.step
cli_leaks = refl

-- The alarm of the connection goes off in sleep, and closes the descriptor again.
closed_again :
    closes_of 4 (
      trace (
        android_main (
          record { socket = gave 4; connected = gave tt; receiving = []; asleep = Mains.timer ∷ [] }
          ∷ [])))
    ≡ 2
unfolding android_main connect_server Client.step
closed_again = refl

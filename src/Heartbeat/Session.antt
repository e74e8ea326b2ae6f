-- ===== src/Heartbeat/Session.antt =====
-- A client (C/heartbeat_cli.c or C/heartbeat_android.c) and the server (C/heartbeat_srv.c) on one
-- connection, with the bytes of urgent data that are under way between them.
pub mod Alive
pub mod Silent
use network_pragramming.Prelude.{
  ℕ, zero, suc, ◌+◌, ◌-◌, ◌≤◌, true, false, List, [], ◌∷◌, ◌++◌, ◌==◌, if◌then◌else◌,
}
use network_pragramming.Heartbeat.Client
use network_pragramming.Heartbeat.Client.{Variant, beats, losses}
use network_pragramming.Heartbeat.Server
use network_pragramming.Heartbeat.Server.{Effect, reply, peer_resets}

-- `lost` counts the messages "RESET PEER : lost connection to server!" of the client, and `resets`
-- the messages "RESET PEER : maybe not start up." of the server.
pub record Link : Type 0 where
  pub client : Client.State
  pub server : Server.State
  pub to_server : ℕ
  pub to_client : ℕ
  pub lost : ℕ
  pub resets : ℕ

-- SIGALRM at one of them, or a byte that arrives.
pub data Move : Type 0 where
  client_alarm server_alarm beat_arrives reply_arrives : Move

abbrev replies : List Effect → ℕ
replies [] = 0
replies (reply ∷ es) = suc (replies es)
replies (e ∷ es) = replies es

-- A byte can arrive only if one is under way.
pub move : Variant → Link → Move → Link
move v l client_alarm =
    let (c, es) = Client.step v l.client Client.sigalrm in
    record l { client = c; to_server = l.to_server + beats es; lost = l.lost + losses es }
move v l server_alarm =
    let (s, es) = Server.step l.server Server.sigalrm in
    record l { server = s; resets = l.resets + peer_resets es }
move v l beat_arrives =
    let (s, es) = Server.step l.server (Server.sigurg b'c') in
    let arrived = record l {
      server = s;
      to_server = l.to_server - 1;
      to_client = l.to_client + replies es;
    } in
    if l.to_server == 0 then l else arrived
move v l reply_arrives =
    let (c, es) = Client.step v l.client (Client.sigurg b's') in
    let arrived = record l { client = c; to_client = l.to_client - 1; lost = l.lost + losses es } in
    if l.to_client == 0 then l else arrived

unfoldable pub moves : Variant → Link → List Move → Link
unfolding move
moves v l [] = l
moves v l (m ∷ ms) = moves v (move v l m) ms

-- `n` alarms at the server.
abbrev pub alarms : ℕ → List Move → List Move
alarms zero later = later
alarms (suc n) later = server_alarm ∷ alarms n later

-- One beat that is answered before the next alarm of the client, and how many alarms the server has
-- before the beat arrives, between that and the reply, and behind the reply.
pub record Turn : Type 0 where
  pub before : ℕ
  pub between : ℕ
  pub behind : ℕ

abbrev pub before_reply : Turn → List Move → List Move
before_reply t later = alarms t.between (reply_arrives ∷ alarms t.behind later)

abbrev pub before_arrival : Turn → List Move → List Move
before_arrival t later = alarms t.before (beat_arrives ∷ before_reply t later)

abbrev pub turn : Turn → List Move → List Move
turn t later = client_alarm ∷ before_arrival t later

abbrev pub turns : List Turn → List Move → List Move
turns [] later = later
turns (t ∷ ts) later = turn t (turns ts later)

-- The server has at most three alarms between two beats; `k` is how many it has had since the last.
abbrev pub InTime : ℕ → List Turn → Type 0
InTime k [] = Unit
InTime k (t ∷ ts) =
    (k + t.before ≤ 3) × (t.between + t.behind ≤ 3) × InTime (t.between + t.behind) ts

-- How many alarms the server has had since the last beat arrived.
abbrev pub since : ℕ → List Turn → ℕ
since k [] = k
since k (t ∷ ts) = since (t.between + t.behind) ts

-- A connection with nothing reported, at a server that has had `k` alarms.
abbrev pub quiet : Client.State → ℕ → ℕ → ℕ → Link
quiet c k to_server to_client = record {
  client = c;
  server = record { expire_cnt = k; already_reset = false };
  to_server = to_server;
  to_client = to_client;
  lost = 0;
  resets = 0;
}

-- A client with a reply at hand.
abbrev pub answered : ℕ → Client.State
answered missed = record { got_reply = true; expire_cnt = missed; already_reset = false }

-- Nothing is under way, and the client has a reply.
abbrev pub steady : ℕ → ℕ → Link
steady k missed = quiet (answered missed) k 0 0

-- ===== src/Heartbeat/Session/Alive.antt =====
-- Beats that are answered in time.
use network_pragramming.Prelude.{
  ℕ, zero, suc, ◌+◌, ◌≤◌, ◌≡◌, refl, false, List, [], ◌∷◌, arith, ◌∙◌, ap,
}
use network_pragramming.Heartbeat.Client
use network_pragramming.Heartbeat.Client.{Variant}
use network_pragramming.Heartbeat.Server
use network_pragramming.Heartbeat.Session.{
  Move, client_alarm, server_alarm, beat_arrives, reply_arrives, moves, move, alarms, Turn, turn,
  before_arrival, before_reply, turns, InTime, since, quiet, answered, steady,
}

move_alarm :
    (v : Variant) (c : Client.State) (k p q : ℕ)
    → k + 1 ≤ 3
    → move v (quiet c k p q) server_alarm ≡ quiet c (k + 1) p q
unfolding move Server.step
move_alarm v c k p q h = ground arith

-- Alarms that do not reach the limit only raise the count.
moves-alarms :
    (v : Variant) (c : Client.State) (n k p q : ℕ) (later : List Move)
    → k + n ≤ 3
    → moves v (quiet c k p q) (alarms n later) ≡ moves v (quiet c (k + n) p q) later
unfolding moves
moves-alarms v c zero k p q later h = ap (λ j. moves v (quiet c j p q) later) (omega arith)
moves-alarms v c (suc n) k p q later h =
    ap (λ l. moves v l (alarms n later)) (move_alarm v c k p q (omega arith))
    ∙ moves-alarms v c n (k + 1) p q later (omega arith)
    ∙ ap (λ j. moves v (quiet c j p q) later) (omega arith)

abbrev waiting : ℕ → Client.State
waiting m = record { got_reply = false; expire_cnt = m; already_reset = false }

move_beat : (v : Variant) (k m : ℕ) → move v (steady k m) client_alarm ≡ quiet (waiting m) k 1 0
unfolding move Client.step
move_beat v k m = refl

move_beat_arrives :
    (v : Variant) (k m : ℕ)
    → move v (quiet (waiting m) k 1 0) beat_arrives ≡ quiet (waiting m) 0 0 1
unfolding move Server.step
move_beat_arrives v k m = refl

move_reply_arrives :
    (v : Variant) (k m : ℕ) → move v (quiet (waiting m) k 0 1) reply_arrives ≡ steady k m
unfolding move Client.step
move_reply_arrives v k m = refl

moves-turn :
    (v : Variant) (k m : ℕ) (t : Turn) (later : List Move)
    → k + t.before ≤ 3
    → t.between + t.behind ≤ 3
    → moves v (steady k m) (turn t later) ≡ moves v (steady (t.between + t.behind) m) later
unfolding moves
moves-turn v k m t later h h' =
    ap (λ l. moves v l (before_arrival t later)) (move_beat v k m)
    ∙ moves-alarms v (waiting m) t.before k 1 0 (beat_arrives ∷ before_reply t later) h
    ∙ ap (λ l. moves v l (before_reply t later)) (move_beat_arrives v (k + t.before) m)
    ∙ moves-alarms v (waiting m) t.between 0 0 1 (reply_arrives ∷ alarms t.behind later)
        (omega arith)
    ∙ ap (λ l. moves v l (alarms t.behind later)) (move_reply_arrives v (0 + t.between) m)
    ∙ moves-alarms v (answered m) t.behind (0 + t.between) 0 0 later (omega arith)
    ∙ ap (λ j. moves v (steady j m) later) (omega arith)

-- While every beat of the client is answered before its next alarm, and the server has at most
-- three alarms between two beats, neither side reports anything: the connection comes out as it
-- was, with nothing under way, and the server's count is that of its alarms since the last beat.
-- What follows then goes on from there.
pub moves-turns :
    (v : Variant) (k m : ℕ) (ts : List Turn) (later : List Move)
    → InTime k ts
    → moves v (steady k m) (turns ts later) ≡ moves v (steady (since k ts) m) later
moves-turns v k m [] later h = refl
moves-turns v k m (t ∷ ts) later (before, behind, rest) =
    moves-turn v k m t (turns ts later) before behind
    ∙ moves-turns v (t.between + t.behind) m ts later rest

-- ===== src/Heartbeat/Session/Silent.antt =====
-- A connection on which no byte arrives any more.
use network_pragramming.Prelude.{
  ℕ, suc, ◌+◌, ◌/◌, ◌%◌, ◌≤◌, ◌≡◌, refl, false, List, [], ◌∷◌, arith, leb, if◌then◌else◌, ◌∙◌,
}
use network_pragramming.Heartbeat.Client
use network_pragramming.Heartbeat.Client.{Variant}
use network_pragramming.Heartbeat.Server
use network_pragramming.Heartbeat.Session.{
  Link, Move, client_alarm, server_alarm, beat_arrives, reply_arrives, moves, move,
}

-- No byte arrives.
abbrev pub Silent : List Move → Type 0
Silent [] = Unit
Silent (client_alarm ∷ ms) = Silent ms
Silent (server_alarm ∷ ms) = Silent ms
Silent (_ ∷ ms) = ⊥

abbrev pub client_alarms : List Move → ℕ
client_alarms [] = 0
client_alarms (client_alarm ∷ ms) = suc (client_alarms ms)
client_alarms (_ ∷ ms) = client_alarms ms

abbrev pub server_alarms : List Move → ℕ
server_alarms [] = 0
server_alarms (server_alarm ∷ ms) = suc (server_alarms ms)
server_alarms (_ ∷ ms) = server_alarms ms

-- How often a client reports the loss of its server over `n` alarms.
abbrev pub reports : Client.State → ℕ → ℕ
reports c n = if c.already_reset then 0 else if leb (if c.got_reply then 2 else 1) n then 1 else 0

move-client_alarm :
    (v : Variant) (l : Link) (n : ℕ)
    → let l' = move v l client_alarm in
      (l'.server ≡ l.server)
      × (l'.resets ≡ l.resets)
      × (l'.lost + reports l'.client n ≡ l.lost + reports l.client (suc n))
unfolding move Client.step
move-client_alarm v l n = (refl, refl, ground arith)

move-server_alarm :
    (v : Variant) (l : Link)
    → l.server.already_reset ≡ false
    → l.server.expire_cnt ≤ 3
    → let l' = move v l server_alarm in
      (l'.client ≡ l.client)
      × (l'.lost ≡ l.lost)
      × (l'.server.already_reset ≡ false)
      × (l'.server.expire_cnt ≡ (l.server.expire_cnt + 1) % 4)
      × (l'.resets ≡ l.resets + (l.server.expire_cnt + 1) / 4)
unfolding move Server.step
move-server_alarm v l r h = (refl, refl, ground arith, ground arith, ground arith)

-- At a server with its flag clear and a count of at most 3, over any interleaving of the alarms of
-- both sides with no byte arriving: the client reports the loss of the server once if it has not
-- reported it before and has two alarms, or one if its last beat was never answered, and the
-- server reports its peer at every fourth alarm since the last beat.
pub moves-Silent :
    (v : Variant) (l : Link) (ms : List Move)
    → l.server.already_reset ≡ false
    → l.server.expire_cnt ≤ 3
    → Silent ms
    → ((moves v l ms).lost ≡ l.lost + reports l.client (client_alarms ms))
      × ((moves v l ms).resets ≡ l.resets + (l.server.expire_cnt + server_alarms ms) / 4)
unfolding moves
moves-Silent v l [] r h s = (ground arith, omega arith)
moves-Silent v l (client_alarm ∷ ms) r h s =
    let (server, resets, lost) = move-client_alarm v l (client_alarms ms) in
    let (ih, ih') = moves-Silent v (move v l client_alarm) ms (rw server r) (rw server h) s in
    (ih ∙ lost, ih' ∙ cc)
moves-Silent v l (server_alarm ∷ ms) r h s =
    let (client, lost, flag, count, report) = move-server_alarm v l r h in
    let (ih, ih') = moves-Silent v (move v l server_alarm) ms flag (omega (arith, count)) s in
    (ih ∙ cc, omega (arith, ih', count, report))
moves-Silent v l (beat_arrives ∷ ms) r h s = elim s [ ]
moves-Silent v l (reply_arrives ∷ ms) r h s = elim s [ ]

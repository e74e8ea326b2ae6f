-- ===== src/Heartbeat/Client/Beats.antt =====
-- The heartbeat clients: how many heartbeats they send and how often they report a loss.
use network_pragramming.Prelude.{
  ℕ, suc, ◌+◌, ◌≤◌, ◌≡◌, Bool, not, List, [], ◌∷◌, ◌++◌, arith, ◌==◌, if◌then◌else◌,
}
use network_pragramming.Heartbeat.Client.{
  Variant, State, Effect, beat, lost, Event, connected, refused, recv_ends, sigurg, sigalrm, step,
  run, beats, losses,
}

-- The events after which a heartbeat may be sent: a connection, and the reply 's'.
abbrev pub permits : List Event → ℕ
permits [] = 0
permits (connected ∷ es) = suc (permits es)
permits (sigurg c ∷ es) = if c == b's' then suc (permits es) else permits es
permits (e ∷ es) = permits es

-- The events that are urgent data from the server.
abbrev pub urgents : List Event → ℕ
urgents [] = 0
urgents (sigurg c ∷ es) = suc (urgents es)
urgents (e ∷ es) = urgents es

abbrev pub one_if : Bool → ℕ
one_if b = if b then 1 else 0

beats-append : (es fs : List Effect) → beats (es ++ fs) ≡ beats es + beats fs
beats-append [] fs = omega arith
beats-append (beat ∷ es) fs = omega (arith, beats-append es fs)
beats-append (_ ∷ es) fs = beats-append es fs

losses-append : (es fs : List Effect) → losses (es ++ fs) ≡ losses es + losses fs
losses-append [] fs = omega arith
losses-append (lost ∷ es) fs = omega (arith, losses-append es fs)
losses-append (_ ∷ es) fs = losses-append es fs

step-beats :
    (v : Variant) (s : State) (e : Event)
    → beats (step v s e).1 + one_if (step v s e).0.got_reply ≤ permits (e ∷ []) + one_if s.got_reply
unfolding step
step-beats v s connected = ground arith
step-beats v s (sigurg c) = ground arith
step-beats v s _ = ground arith

permits-cons : (e : Event) (es : List Event) → permits (e ∷ es) ≡ permits (e ∷ []) + permits es
permits-cons connected es = omega arith
permits-cons (sigurg c) es = ground arith
permits-cons refused es = omega arith
permits-cons recv_ends es = omega arith
permits-cons sigalrm es = omega arith

-- Over any events the client sends at most one heartbeat for each connection and each reply, and
-- one more if it starts with a reply at hand.
pub beats-le-permits :
    (v : Variant) (s : State) (es : List Event)
    → beats (run v s es).1 + one_if (run v s es).0.got_reply ≤ permits es + one_if s.got_reply
unfolding run
beats-le-permits v s [] = omega arith
beats-le-permits v s (e ∷ es) = omega (
  arith,
  beats-append (step v s e).1 (run v (step v s e).0 es).1,
  step-beats v s e,
  permits-cons e es,
  beats-le-permits v (step v s e).0 es,
)

urgents-cons : (e : Event) (es : List Event) → urgents (e ∷ es) ≡ urgents (e ∷ []) + urgents es
urgents-cons (sigurg c) es = omega arith
urgents-cons connected es = omega arith
urgents-cons refused es = omega arith
urgents-cons recv_ends es = omega arith
urgents-cons sigalrm es = omega arith

step-losses :
    (v : Variant) (s : State) (e : Event)
    → losses (step v s e).1 + one_if (not (step v s e).0.already_reset)
      ≤ urgents (e ∷ []) + one_if (not s.already_reset)
unfolding step
step-losses v s (sigurg c) = ground arith
step-losses v s _ = ground arith

-- Over any events the loss of the server is reported at most once more than urgent data arrives.
pub losses-le-urgents :
    (v : Variant) (s : State) (es : List Event)
    → losses (run v s es).1 + one_if (not (run v s es).0.already_reset)
      ≤ urgents es + one_if (not s.already_reset)
unfolding run
losses-le-urgents v s [] = omega arith
losses-le-urgents v s (e ∷ es) = omega (
  arith,
  losses-append (step v s e).1 (run v (step v s e).0 es).1,
  step-losses v s e,
  urgents-cons e es,
  losses-le-urgents v (step v s e).0 es,
)

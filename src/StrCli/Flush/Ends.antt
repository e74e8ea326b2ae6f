-- ===== src/StrCli/Flush/Ends.antt =====
-- str_cli: what is still to be sent when stdin has ended is sent, and the socket is shut down.
use network_pragramming.Prelude.{
  ℕ, ◌≤◌, ◌<◌, ◌≡◌, refl, true, some, List, [], ◌∷◌, ◌++◌, length, arith, append-nil, append_assoc,
  ◌∙◌,
}
use network_pragramming.Sys.{Call, returns, waits}
use network_pragramming.Sys.Trace.{input_of, output_of, shutdowns}
use network_pragramming.StrCli.{State, Round, stdin, stdout, backlog, round, rounds, start}
use network_pragramming.StrCli.Invariant.{Inv, Inv-quiet, Inv-Safe}
use network_pragramming.StrCli.Relay.{round_lem}
use network_pragramming.StrCli.Flush.{Takes, round-Takes}

-- The calls and the states between the rounds of str_cli.
pub data Reach (sock : ℕ) : List Call → State → Type 0 where
  begin :
      Reach sock
        (Call.set_nonblock sock ∷ Call.set_nonblock stdin ∷ Call.set_nonblock stdout ∷ [])
        start
  next :
      (cs ds : List Call) (s t : State) (r : Round)
      → Reach sock cs s
      → round sock s r ≡ returns ds (some t)
      → Reach sock (cs ++ ds) t

abbrev pub AllTake : List Round → Type 0
AllTake [] = Unit
AllTake (r ∷ rs) = Takes r × AllTake rs

-- What holds behind a program holds behind the calls that it returns with.
round-Inv :
    (sock : ℕ) (cs ds : List Call) (s t : State) (r : Round)
    → 1 < sock
    → Inv sock cs s
    → round sock s r ≡ returns ds (some t)
    → Inv sock (cs ++ ds) t
round-Inv sock cs ds s t r apart v e = rw e at (round_lem sock apart cs s r v)

Reach-Inv : (sock : ℕ) (cs : List Call) (s : State) → 1 < sock → Reach sock cs s → Inv sock cs s
Reach-Inv sock _ _ apart begin = record {
  to = record { relayed = refl; ordered = omega arith; bounded = omega arith };
  fr = record { relayed = refl; ordered = omega arith; bounded = omega arith };
  once = refl;
}
Reach-Inv sock _ t apart (next cs ds s _ r h e) =
    round-Inv sock cs ds s t r apart (Reach-Inv sock cs s apart h) e

-- Nothing is left to send: the socket has been shut down, and all that was read is written.
Inv-ended :
    (sock : ℕ) (cs : List Call) (s : State)
    → Inv sock cs s
    → s.stdineof ≡ true
    → backlog s.to ≡ 0
    → (shutdowns cs ≡ 1) × (input_of stdin cs ≡ output_of sock cs)
Inv-ended sock cs s v eof left =
    let safe = Inv-Safe sock cs v in
    let one : shutdowns cs ≡ 1 = ground (arith, v.once, v.to.ordered) in
    (one, safe.sent ∙ rw (safe.last one) (append-nil (output_of sock cs)))

-- The rounds `rs` end in select, and all is sent behind `cs`.
abbrev Ends : ℕ → List Call → State → List Round → Type 0
Ends sock cs s rs =
    (ds : List Call) × (rounds sock (some s) rs ≡ waits ds)
    × (shutdowns (cs ++ ds) ≡ 1)
    × (input_of stdin (cs ++ ds) ≡ output_of sock (cs ++ ds))

rounds-Ends :
    (sock : ℕ) (cs : List Call) (s : State) (rs : List Round)
    → 1 < sock
    → Inv sock cs s
    → s.stdineof ≡ true
    → AllTake rs
    → backlog s.to ≤ length rs
    → Ends sock cs s rs
unfolding rounds
rounds-Ends sock cs s [] apart v eof h left =
    let w = Inv-quiet sock cs Call.select v refl refl refl refl refl in
    let (one, all) = Inv-ended sock (cs ++ (Call.select ∷ [])) s w eof (omega arith) in
    (Call.select ∷ [], refl, one, all)
rounds-Ends sock cs s (r ∷ rs) apart v eof (takes, h) left =
    let (ds, t, e, eof', less) = round-Takes sock s r takes eof v.to.ordered in
    let (es, e', one, all) =
      rounds-Ends sock (cs ++ ds) t rs apart (round-Inv sock cs ds s t r apart v e) eof' h
        (omega (arith, less)) in
    (
      ds ++ es,
      rw (e, e') refl,
      rw (append_assoc cs ds es) at one,
      rw (append_assoc cs ds es) at all,
    )

-- On a socket other than stdin and stdout, whatever has happened until stdin has ended: after as
-- many rounds as bytes are left, in each of which the socket takes at least one byte while there
-- are any, the socket has not ended and no call fails but with EAGAIN, str_cli has written to the
-- socket all that it has read from stdin, and has shut the writing half down once.
pub str_cli-flushes :
    (sock : ℕ) (cs : List Call) (s : State) (rs : List Round)
    → 1 < sock
    → Reach sock cs s
    → s.stdineof ≡ true
    → AllTake rs
    → backlog s.to ≤ length rs
    → (ds : List Call) × (rounds sock (some s) rs ≡ waits ds)
      × (shutdowns (cs ++ ds) ≡ 1)
      × (input_of stdin (cs ++ ds) ≡ output_of sock (cs ++ ds))
str_cli-flushes sock cs s rs apart reached eof h left =
    rounds-Ends sock cs s rs apart (Reach-Inv sock cs s apart reached) eof h left

-- ===== src/Epoll/Drain.antt =====
-- C/epoll_server.c: how a readable descriptor is read in edge-triggered mode.
use network_pragramming.Prelude.{
  ℕ, suc, ◌≤◌, ◌≡◌, ◌≢◌, refl, Bool, true, false, not, Option, none, some, List, [], ◌∷◌, ◌++◌,
  Bytes, length, take, min, arith, ◌==◌, if◌then◌else◌, take_of_length-le,
}
use network_pragramming.Sys.{
  is_eagain, Answer, failed, gave, Call, Prog, returns, after, ◌>>=◌, read_some,
}
use network_pragramming.Sys.Rules.{after-append, after-nil}
use network_pragramming.Sys.Trace.{input_of, output_of}
use network_pragramming.Epoll.{
  Got, Event, read_case, read_all, handle_event, close_if, stdout, buf_size,
}

-- What a read stores in front of what the reads behind it do, with how they end.
abbrev sent_by : Answer Bytes → Bytes × Option Bool → Bytes × Option Bool
sent_by (failed e) later = ([], some (not (is_eagain e)))
sent_by (gave []) later = ([], some true)
sent_by (gave (b ∷ bytes)) (more, end) = ((b ∷ bytes) ++ more, end)

-- What the peer of a descriptor has sent up to the point where a read finds no more, and whether
-- it has then closed or failed (`some true`) or only has nothing more to read (`some false`).
abbrev pub sent : List Got → Bytes × Option Bool
sent [] = ([], none)
sent (g ∷ rest) = sent_by g.read (sent rest)

-- A read stores at most what it is asked for, and the write to stdout takes all that was read.
abbrev MovesAll : Answer Bytes → Answer ℕ → Type 0
MovesAll (gave bytes) (gave n) = (length bytes ≤ buf_size) × (n ≡ length bytes)
MovesAll (gave bytes) (failed e) = ⊥
MovesAll (failed e) w = Unit

abbrev pub Moves : List Got → Type 0
Moves [] = Unit
Moves (g ∷ rest) = MovesAll g.read g.written × Moves rest

-- The program returns `done`, and has written to stdout the bytes that it has read from `fd`.
abbrev Relays : ℕ → Bytes → Bool → Prog Bool → Type 0
Relays fd bytes done p =
    (cs : List Call) × (p ≡ returns cs done)
    × (input_of fd cs ≡ bytes)
    × (output_of stdout cs ≡ bytes)

-- The calls of a turn that moves some bytes.
abbrev move : ℕ → Bytes → List Call
move fd bytes =
    Call.read fd buf_size
    ∷ Call.received fd bytes
    ∷ Call.write stdout bytes
    ∷ Call.accepted stdout bytes
    ∷ []

moved :
    (fd : ℕ) (bytes more : Bytes) (done : Bool) (p : Prog Bool)
    → Relays fd more done p
    → Relays fd (bytes ++ more) done (after (move fd bytes) p)
moved fd bytes more done p (cs, e, i, o) =
    (move fd bytes ++ cs, rw e refl, ground arith, ground arith)

-- One turn of the loop, in front of the turns behind it.
turn_lem :
    (fd : ℕ) (a : Answer Bytes) (w : Answer ℕ) (p : Prog Bool) (later : Bytes × Option Bool)
    (done : Bool)
    → MovesAll a w
    → ((d : Bool) → later.1 ≡ some d → Relays fd later.0 d p)
    → (sent_by a later).1 ≡ some done
    → Relays fd (sent_by a later).0 done (read_some fd buf_size a >>= λ i. read_case i w p)
unfolding read_case
turn_lem fd (failed e) w p later done m k h = (Call.read fd buf_size ∷ [], ground arith, refl, refl)
turn_lem fd (gave []) w p later done m k h =
    (Call.read fd buf_size ∷ Call.received fd [] ∷ [], ground arith, ground arith, refl)
turn_lem fd (gave (b ∷ bytes)) (failed e) p later done m k h = absurd m
turn_lem fd (gave (b ∷ bytes)) (gave n) p (more, end) done (l, e) k h =
    let r = moved fd (b ∷ bytes) more done p (k done h) in
    let all : take 511 bytes ≡ bytes = take_of_length-le 511 bytes (omega (arith, l)) in
    let every : take (length bytes) bytes ≡ bytes =
      take_of_length-le (length bytes) bytes (omega arith) in
    let whole : min n (suc (length bytes)) ≡ suc (length bytes) = omega (arith, e) in
    rw
      (
        all,
        whole,
        every,
        after-nil p,
        after-append (Call.read fd buf_size ∷ Call.received fd (b ∷ bytes) ∷ [])
            (Call.write stdout (b ∷ bytes) ∷ Call.accepted stdout (b ∷ bytes) ∷ []) p,
      )
      r

read_all_lem :
    (fd : ℕ) (gs : List Got) (done : Bool)
    → Moves gs
    → (sent gs).1 ≡ some done
    → Relays fd (sent gs).0 done (read_all fd gs)
unfolding read_all
read_all_lem fd [] done m h = ground arith
read_all_lem fd (g ∷ rest) done (m, ms) h =
    turn_lem fd g.read g.written (read_all fd rest) (sent rest) done m
      (λ d e. read_all_lem fd rest d ms e) h

-- When a client's descriptor is reported as readable, with no error and no hang-up, its reads
-- store at most what they are asked for and at last find no more, and stdout takes all that it is
-- given, then handling the event returns; it has read all that the client had sent and written the
-- same bytes to stdout, and has closed the descriptor behind that exactly if the reads ended
-- otherwise than with EAGAIN.
pub handle_event-drains :
    (sfd efd : ℕ) (e : Event) (done : Bool)
    → e.err ≡ false
    → e.hup ≡ false
    → e.readable ≡ true
    → sfd ≢ e.fd
    → Moves e.reads
    → (sent e.reads).1 ≡ some done
    → (cs : List Call) × (handle_event sfd efd e
        ≡ returns (cs ++ (if done then Call.close e.fd ∷ [] else [])) tt)
      × (input_of e.fd cs ≡ (sent e.reads).0)
      × (output_of stdout cs ≡ (sent e.reads).0)
unfolding handle_event close_if
handle_event-drains sfd efd e done err hup readable client m h =
    let (cs, r, i, o) = read_all_lem e.fd e.reads done m h in
    let other : (sfd == e.fd) ≡ false = ground arith in
    (cs, rw (err, hup, readable, other, r) (closes cs done), i, o)
  where
    closes :
        (cs : List Call) (done : Bool)
        → after cs (close_if done e.fd)
          ≡ returns (cs ++ (if done then Call.close e.fd ∷ [] else [])) tt
    closes cs true = refl
    closes cs false = refl

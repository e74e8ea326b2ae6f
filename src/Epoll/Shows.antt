-- ===== src/Epoll/Shows.antt =====
-- C/epoll_server.c: what it writes, over whole runs.
use network_pragramming.Prelude.{
  ℕ, ◌≡◌, refl, Bool, true, false, not, ◌||◌, Option, none, some, List, [], ◌∷◌, ◌++◌, Bytes, ◌==◌,
  take, Bool-cases, inl, inr, length, min,
}
use network_pragramming.Sys.{
  Answer, failed, gave, Call, Prog, trace, after, ◌>>=◌, ◌>>◌, call_or_exit, read_some,
}
use network_pragramming.Sys.Rules.{after-append, after-nil}
use network_pragramming.Sys.Traces.{after-Good, bind-Good, call_or_exit-Good}
use network_pragramming.Epoll.{
  buf_size, backlog, aborted, Flags, make_socket_non_blocking, set_flags, Address, bind_first,
  bind_or_close, try_address, create_and_bind, Accepted, watch, abort_unless, accept_all, Got,
  read_case, read_all, close_if, Event, handle_event, handle_events, event_loop, events_of, Setup,
  or_abort, or_else, serve, epoll_server, stdout, written,
}

-- A trace in which each read that stores something is followed at once by a write of the same
-- bytes to stdout, and there is no other call of write. The first argument is what is to be written next.
abbrev pub Shows : Option Bytes → List Call → Type 0
Shows none [] = Unit
Shows (some bytes) [] = ⊥
Shows none (Call.received fd [] ∷ cs) = Shows none cs
Shows none (Call.received fd (b ∷ bytes) ∷ cs) = Shows (some (b ∷ bytes)) cs
Shows none (Call.write fd text ∷ cs) = ⊥
Shows none (c ∷ cs) = Shows none cs
Shows (some bytes) (Call.write fd text ∷ cs) = (fd ≡ stdout) × (text ≡ bytes) × Shows none cs
Shows (some bytes) (c ∷ cs) = ⊥

Shows-append :
    (r : Option Bytes) (cs ds : List Call) → Shows r cs → Shows none ds → Shows r (cs ++ ds)
Shows-append none [] ds h k = k
Shows-append (some bytes) [] ds h k = absurd h
Shows-append none (Call.received fd [] ∷ cs) ds h k = Shows-append none cs ds h k
Shows-append none (Call.received fd (b ∷ bytes) ∷ cs) ds h k =
    Shows-append (some (b ∷ bytes)) cs ds h k
Shows-append none (Call.write fd text ∷ cs) ds h k = absurd h
Shows-append none (_ ∷ cs) ds h k = Shows-append none cs ds h k
Shows-append (some bytes) (Call.write fd text ∷ cs) ds (e, e', h) k =
    (e, e', Shows-append none cs ds h k)
Shows-append (some bytes) (_ ∷ cs) ds h k = absurd h

-- A program whose whole trace is such.
abbrev Faithful : {A : Type 0} → Prog A → Type 0
Faithful p = Shows none (trace p)

Faithful-bind :
    {A B : Type 0} (m : Prog A) (f : A → Prog B)
    → Faithful m
    → ((a : A) → Faithful (f a))
    → Faithful (m >>= f)
Faithful-bind = bind-Good (Shows none) (Shows-append none)

Faithful-after :
    {A : Type 0} (cs : List Call) (p : Prog A) → Shows none cs → Faithful p → Faithful (after cs p)
Faithful-after = after-Good (Shows none) (Shows-append none)

Faithful-call :
    {A : Type 0} (c : Call) (n : ℕ) (a : Answer A)
    → Shows none (c ∷ [])
    → Faithful (call_or_exit c n a)
Faithful-call = call_or_exit-Good (Shows none) (Shows-append none)

-- One read, and what follows it.
got-Faithful :
    (fd : ℕ) (a : Answer Bytes) (w : Answer ℕ) (later : Prog Bool)
    → Faithful later
    → Faithful (read_some fd buf_size a >>= λ i. read_case i w later)
unfolding read_case written
got-Faithful fd (failed e) w later h = tt
got-Faithful fd (gave []) w later h = tt
got-Faithful fd (gave (b ∷ bytes)) (failed e) later h = (refl, refl, tt)
got-Faithful fd (gave (b ∷ bytes)) (gave n) later h =
    let got = b ∷ take 511 bytes in
    let reading = Call.read fd buf_size ∷ Call.received fd got ∷ [] in
    let writing =
      Call.write stdout got ∷ Call.accepted stdout (take (min n (length got)) got) ∷ [] in
    rw (after-nil later, after-append reading writing later)
      (Faithful-after (reading ++ writing) later (refl, refl, tt) h)

try_address-Faithful : (s : Answer ℕ) (b : Answer (Unit {0})) → Faithful (try_address s b)
unfolding try_address bind_or_close
try_address-Faithful (failed e) b = tt
try_address-Faithful (gave fd) (failed e) = tt
try_address-Faithful (gave fd) (gave u) = tt

or_else-Faithful : (r : Option ℕ) (p : Prog (Option ℕ)) → Faithful p → Faithful (or_else r p)
unfolding or_else
or_else-Faithful none p h = h
or_else-Faithful (some fd) p h = tt

bind_first-Faithful : (found : List Address) → Faithful (bind_first found)
unfolding bind_first
bind_first-Faithful [] = tt
bind_first-Faithful (a ∷ rest) =
    Faithful-bind (try_address a.socket a.bound) _ (try_address-Faithful a.socket a.bound)
      λ r. or_else-Faithful r (bind_first rest) (bind_first-Faithful rest)

create_and_bind-Faithful :
    (port : Bytes) (a : Answer (List Address)) → Faithful (create_and_bind port a)
unfolding create_and_bind
create_and_bind-Faithful port (failed e) = tt
create_and_bind-Faithful port (gave found) =
    Faithful-after (Call.resolve port ∷ []) (bind_first found) tt (bind_first-Faithful found)

make_socket_non_blocking-Faithful : (fd : ℕ) (a : Flags) → Faithful (make_socket_non_blocking fd a)
unfolding make_socket_non_blocking set_flags
make_socket_non_blocking-Faithful fd a = flags a.got a.set
  where
    flags :
        (got set : Answer (Unit {0}))
        → Faithful (make_socket_non_blocking fd (record { got = got; set = set }))
    flags (failed e) set = tt
    flags (gave u) (failed e) = tt
    flags (gave u) (gave v) = tt

abort_unless-Faithful : (ok : Bool) → Faithful (abort_unless ok)
unfolding abort_unless
abort_unless-Faithful true = tt
abort_unless-Faithful false = tt

watch-Faithful : (efd fd : ℕ) (a : Accepted) → Faithful (watch efd fd a)
unfolding watch
watch-Faithful efd fd a =
    Faithful-bind (make_socket_non_blocking fd a.flags) _
      (make_socket_non_blocking-Faithful fd a.flags)
      λ ok.
        Faithful-bind (abort_unless ok) _ (abort_unless-Faithful ok)
          λ _. Faithful-call (Call.epoll_add efd fd) aborted a.added tt

accept_all-Faithful :
    (sfd efd : ℕ) (accepts : List Accepted) → Faithful (accept_all sfd efd accepts)
unfolding accept_all
accept_all-Faithful sfd efd [] = tt
accept_all-Faithful sfd efd (a ∷ rest) = next a.accept (accept_all-Faithful sfd efd rest)
  where
    next :
        (r : Answer ℕ)
        → Faithful (accept_all sfd efd rest)
        → Faithful (accept_all sfd efd (record a { accept = r } ∷ rest))
    next (failed e) h = tt
    next (gave fd) h =
        Faithful-after (Call.accept sfd ∷ []) (watch efd fd a >> accept_all sfd efd rest) tt (
          Faithful-bind (watch efd fd a) (λ _. accept_all sfd efd rest) (watch-Faithful efd fd a)
            λ _. h)

read_all-Faithful : (fd : ℕ) (gs : List Got) → Faithful (read_all fd gs)
unfolding read_all
read_all-Faithful fd [] = tt
read_all-Faithful fd (g ∷ rest) =
    got-Faithful fd g.read g.written (read_all fd rest) (read_all-Faithful fd rest)

close_if-Faithful : (done : Bool) (fd : ℕ) → Faithful (close_if done fd)
unfolding close_if
close_if-Faithful true fd = tt
close_if-Faithful false fd = tt

handle_event-Faithful : (sfd efd : ℕ) (e : Event) → Faithful (handle_event sfd efd e)
unfolding handle_event
handle_event-Faithful sfd efd e = elim (Bool-cases (e.err || (e.hup || not e.readable))) [
  | inl bad ↦ rw bad tt
  | inr good ↦ elim (Bool-cases (sfd == e.fd)) [
    | inl own ↦ rw (good, own) (accept_all-Faithful sfd efd e.accepts)
    | inr other ↦
        rw (good, other)
          (Faithful-bind (read_all e.fd e.reads) _ (read_all-Faithful e.fd e.reads)
            λ done. close_if-Faithful done e.fd)
  ]
]

handle_events-Faithful : (sfd efd : ℕ) (es : List Event) → Faithful (handle_events sfd efd es)
unfolding handle_events
handle_events-Faithful sfd efd [] = tt
handle_events-Faithful sfd efd (e ∷ es) =
    Faithful-bind (handle_event sfd efd e) _ (handle_event-Faithful sfd efd e)
      λ _. handle_events-Faithful sfd efd es

event_loop-Faithful :
    (sfd efd : ℕ) (ws : List (Answer (List Event))) → Faithful (event_loop sfd efd ws)
unfolding event_loop
event_loop-Faithful sfd efd [] = tt
event_loop-Faithful sfd efd (w ∷ ws) =
    Faithful-after (Call.epoll_wait efd ∷ [])
      (handle_events sfd efd (events_of w) >> event_loop sfd efd ws) tt
      (Faithful-bind (handle_events sfd efd (events_of w)) (λ _. event_loop sfd efd ws)
        (handle_events-Faithful sfd efd (events_of w)) λ _. event_loop-Faithful sfd efd ws)

or_abort-Faithful : (found : Option ℕ) → Faithful (or_abort found)
unfolding or_abort
or_abort-Faithful none = tt
or_abort-Faithful (some sfd) = tt

serve-Faithful : (a : Setup) (ws : List (Answer (List Event))) (sfd : ℕ) → Faithful (serve a ws sfd)
unfolding serve
serve-Faithful a ws sfd =
    Faithful-bind (make_socket_non_blocking sfd a.flags) _
      (make_socket_non_blocking-Faithful sfd a.flags)
      λ ok. Faithful-bind (abort_unless ok) _ (abort_unless-Faithful ok) λ _.
        Faithful-bind (call_or_exit (Call.listen sfd backlog) aborted a.listening) _
          (Faithful-call (Call.listen sfd backlog) aborted a.listening tt)
          λ _.
            Faithful-bind (call_or_exit Call.epoll_create aborted a.epoll) _
              (Faithful-call Call.epoll_create aborted a.epoll tt)
              λ efd.
                Faithful-bind (call_or_exit (Call.epoll_add efd sfd) aborted a.added) _
                  (Faithful-call (Call.epoll_add efd sfd) aborted a.added tt)
                  λ _. event_loop-Faithful sfd efd ws

-- Whatever its calls answer and however long it runs, each call of write that the server makes comes
-- at once after a read that has stored bytes, and hands exactly these bytes to stdout; and behind
-- each such read there is such a call. Whether write takes them all is not said, and messages that
-- go out through printf, fprintf and perror are not counted.
pub epoll_server-Shows :
    (argv : List Bytes) (a : Setup) (ws : List (Answer (List Event)))
    → Shows none (trace (epoll_server argv a ws))
unfolding epoll_server
epoll_server-Shows [] a ws = tt
epoll_server-Shows (port ∷ []) a ws =
    Faithful-bind (create_and_bind port a.addresses) _ (create_and_bind-Faithful port a.addresses)
      λ found.
        Faithful-bind (or_abort found) _ (or_abort-Faithful found) λ sfd. serve-Faithful a ws sfd
epoll_server-Shows (port ∷ more ∷ rest) a ws = tt

-- ===== src/Epoll/Guarded.antt =====
-- C/epoll_server.c: the descriptors that it hands to epoll.
use network_pragramming.Prelude.{
  ℕ, ◌≡◌, Bool, true, false, not, ◌||◌, Option, none, some, List, [], ◌∷◌, ◌++◌, Bytes, arith, ◌==◌,
  Bool-cases, inl, inr,
}
use network_pragramming.Sys.{
  Answer, failed, gave, Call, Prog, returns, exits, waits, trace, after, ◌>>=◌, ◌>>◌, FdSet, fd_set,
  fd_clr, read_some, write_some, read_error, end_of_file, input, Input,
}
use network_pragramming.Epoll.{
  backlog, make_socket_non_blocking, set_flags, Address, bind_first, bind_or_close, try_address,
  create_and_bind, Accepted, watch, abort_unless, accept_all, Got, read_case, read_all, close_if,
  Event, handle_event, handle_events, event_loop, events_of, Setup, or_abort, or_else, serve,
  epoll_server, stdout, written,
}

-- A trace that adds a descriptor to the monitored ones only while it is non-blocking: an fcntl that
-- has succeeded, not one that was only tried, makes it so. `fds` are the descriptors that are
-- non-blocking at its start.
abbrev pub Guarded : FdSet → List Call → Type 0
Guarded fds [] = Unit
Guarded fds (Call.nonblocking fd ∷ cs) = Guarded (fd_set fd fds) cs
Guarded fds (Call.close fd ∷ cs) = Guarded (fd_clr fd fds) cs
Guarded fds (Call.epoll_add efd fd ∷ cs) = (fds fd ≡ true) × Guarded fds cs
Guarded fds (c ∷ cs) = Guarded fds cs

-- Guarded whatever is non-blocking before.
abbrev Always : {A : Type 0} → Prog A → Type 0
Always p = (fds : FdSet) → Guarded fds (trace p)

Guarded-append :
    (fds : FdSet) (cs ds : List Call)
    → Guarded fds cs
    → ((gs : FdSet) → Guarded gs ds)
    → Guarded fds (cs ++ ds)
Guarded-append fds [] ds g h = h fds
Guarded-append fds (Call.nonblocking fd ∷ cs) ds g h = Guarded-append (fd_set fd fds) cs ds g h
Guarded-append fds (Call.close fd ∷ cs) ds g h = Guarded-append (fd_clr fd fds) cs ds g h
Guarded-append fds (Call.epoll_add efd fd ∷ cs) ds (e, g) h = (e, Guarded-append fds cs ds g h)
Guarded-append fds (_ ∷ cs) ds g h = Guarded-append fds cs ds g h

Guarded-after :
    {A : Type 0} (fds : FdSet) (cs : List Call) (p : Prog A)
    → Guarded fds cs
    → Always p
    → Guarded fds (trace (after cs p))
Guarded-after fds cs (returns ds a) g h = Guarded-append fds cs ds g h
Guarded-after fds cs (exits ds n) g h = Guarded-append fds cs ds g h
Guarded-after fds cs (waits ds) g h = Guarded-append fds cs ds g h

Always-bind :
    {A B : Type 0} (m : Prog A) (f : A → Prog B)
    → Always m
    → ((a : A) → Always (f a))
    → Always (m >>= f)
Always-bind (returns cs a) f g h fds = Guarded-after fds cs (f a) (g fds) (h a)
Always-bind (exits cs n) f g h fds = g fds
Always-bind (waits cs) f g h fds = g fds

try_address-Always : (s : Answer ℕ) (b : Answer (Unit {0})) → Always (try_address s b)
unfolding try_address bind_or_close
try_address-Always (failed e) b fds = tt
try_address-Always (gave fd) (failed e) fds = tt
try_address-Always (gave fd) (gave u) fds = tt

or_else-Always : (r : Option ℕ) (p : Prog (Option ℕ)) → Always p → Always (or_else r p)
unfolding or_else
or_else-Always none p h fds = h fds
or_else-Always (some fd) p h fds = tt

bind_first-Always : (found : List Address) → Always (bind_first found)
unfolding bind_first
bind_first-Always [] = λ fds. tt
bind_first-Always (a ∷ rest) =
    Always-bind (try_address a.socket a.bound) _ (try_address-Always a.socket a.bound)
      λ r. or_else-Always r (bind_first rest) (bind_first-Always rest)

create_and_bind-Always :
    (port : Bytes) (a : Answer (List Address)) → Always (create_and_bind port a)
unfolding create_and_bind
create_and_bind-Always port (failed e) fds = tt
create_and_bind-Always port (gave found) fds =
    Guarded-after fds (Call.resolve port ∷ []) (bind_first found) tt (bind_first-Always found)

-- The calls that make a descriptor non-blocking and monitor it.
watch-Always :
    (efd fd : ℕ) (accept : Answer ℕ) (got set added : Answer (Unit {0}))
    → Always (
        watch efd fd
          (record { accept = accept; flags = record { got = got; set = set }; added = added }))
unfolding watch make_socket_non_blocking set_flags abort_unless
watch-Always efd fd accept (failed e) set added fds = tt
watch-Always efd fd accept (gave u) (failed e) added fds = tt
watch-Always efd fd accept (gave u) (gave v) (failed e) fds = (ground arith, tt)
watch-Always efd fd accept (gave u) (gave v) (gave w) fds = (ground arith, tt)

accept_all-Always : (sfd efd : ℕ) (accepts : List Accepted) → Always (accept_all sfd efd accepts)
unfolding accept_all
accept_all-Always sfd efd [] = λ fds. tt
accept_all-Always sfd efd (a ∷ rest) = next a.accept (accept_all-Always sfd efd rest)
  where
    next :
        (r : Answer ℕ)
        → Always (accept_all sfd efd rest)
        → Always (accept_all sfd efd (record a { accept = r } ∷ rest))
    next (failed e) h = λ fds. tt
    next (gave fd) h = λ fds.
        Guarded-after fds (Call.accept sfd ∷ []) (watch efd fd a >> accept_all sfd efd rest) tt (
          Always-bind (watch efd fd a) (λ _. accept_all sfd efd rest)
            (watch-Always efd fd a.accept a.flags.got a.flags.set a.added) λ _. h)

write_some-Always : (bytes : Bytes) (w : Answer ℕ) → Always (write_some stdout bytes w)
write_some-Always bytes (failed e) fds = tt
write_some-Always bytes (gave n) fds = tt

written-Always : (w : Answer ℕ) → Always (written w)
unfolding written
written-Always (failed e) fds = tt
written-Always (gave n) fds = tt

read_some-Always : (fd n : ℕ) (a : Answer Bytes) → Always (read_some fd n a)
read_some-Always fd n (failed e) fds = tt
read_some-Always fd n (gave bytes) fds = tt

read_case-Always : (i : Input) (w : Answer ℕ) (p : Prog Bool) → Always p → Always (read_case i w p)
unfolding read_case
read_case-Always (read_error e) w p h = λ fds. tt
read_case-Always end_of_file w p h = λ fds. tt
read_case-Always (input bytes) w p h =
    Always-bind (write_some stdout bytes w) (λ r. written r >> p) (write_some-Always bytes w)
      λ r. Always-bind (written r) (λ _. p) (written-Always r) λ _. h

read_all-Always : (fd : ℕ) (gs : List Got) → Always (read_all fd gs)
unfolding read_all
read_all-Always fd [] = λ fds. tt
read_all-Always fd (g ∷ rest) =
    Always-bind (read_some fd 512 g.read) _ (read_some-Always fd 512 g.read)
      λ i. read_case-Always i g.written (read_all fd rest) (read_all-Always fd rest)

close_if-Always : (done : Bool) (fd : ℕ) → Always (close_if done fd)
unfolding close_if
close_if-Always true fd fds = tt
close_if-Always false fd fds = tt

handle_event-Always : (sfd efd : ℕ) (e : Event) → Always (handle_event sfd efd e)
unfolding handle_event
handle_event-Always sfd efd e = elim (Bool-cases (e.err || (e.hup || not e.readable))) [
  | inl bad ↦ rw bad λ fds. tt
  | inr good ↦ elim (Bool-cases (sfd == e.fd)) [
    | inl own ↦ rw (good, own) (accept_all-Always sfd efd e.accepts)
    | inr other ↦
        rw (good, other)
          (Always-bind (read_all e.fd e.reads) _ (read_all-Always e.fd e.reads)
            λ done. close_if-Always done e.fd)
  ]
]

handle_events-Always : (sfd efd : ℕ) (es : List Event) → Always (handle_events sfd efd es)
unfolding handle_events
handle_events-Always sfd efd [] = λ fds. tt
handle_events-Always sfd efd (e ∷ es) =
    Always-bind (handle_event sfd efd e) _ (handle_event-Always sfd efd e)
      λ _. handle_events-Always sfd efd es

event_loop-Always : (sfd efd : ℕ) (ws : List (Answer (List Event))) → Always (event_loop sfd efd ws)
unfolding event_loop
event_loop-Always sfd efd [] = λ fds. tt
event_loop-Always sfd efd (w ∷ ws) = λ fds.
    Guarded-after fds (Call.epoll_wait efd ∷ [])
      (handle_events sfd efd (events_of w) >> event_loop sfd efd ws) tt
      (Always-bind (handle_events sfd efd (events_of w)) (λ _. event_loop sfd efd ws)
        (handle_events-Always sfd efd (events_of w)) λ _. event_loop-Always sfd efd ws)

-- The calls between bind and the event loop.
started :
    (sfd efd : ℕ) (fds : FdSet) (p : Prog (Unit {0}))
    → Always p
    → Guarded fds (
        trace (
          after (Call.get_flags sfd ∷ Call.set_nonblock sfd ∷ Call.nonblocking sfd ∷ []) (
            after [] (
              after
                (Call.listen sfd backlog ∷ [])
                (after (Call.epoll_create ∷ []) (after (Call.epoll_add efd sfd ∷ []) p))))))
started sfd efd fds (returns cs a) h = (ground arith, h (fd_set sfd fds))
started sfd efd fds (exits cs n) h = (ground arith, h (fd_set sfd fds))
started sfd efd fds (waits cs) h = (ground arith, h (fd_set sfd fds))

serve-Always :
    (addresses : Answer (List Address)) (got set listening added : Answer (Unit {0}))
    (epoll : Answer ℕ) (ws : List (Answer (List Event))) (sfd : ℕ)
    → Always (
        serve
          (record {
            addresses = addresses;
            flags = record { got = got; set = set };
            listening = listening;
            epoll = epoll;
            added = added;
          })
          ws
          sfd)
unfolding serve make_socket_non_blocking set_flags abort_unless
serve-Always found (failed e) set l added p ws sfd fds = tt
serve-Always found (gave t) (failed e) l added p ws sfd fds = tt
serve-Always found (gave t) (gave u) (failed e) added p ws sfd fds = tt
serve-Always found (gave t) (gave u) (gave v) added (failed e) ws sfd fds = tt
serve-Always found (gave t) (gave u) (gave v) (failed e) (gave efd) ws sfd fds = (ground arith, tt)
serve-Always found (gave t) (gave u) (gave v) (gave w) (gave efd) ws sfd fds =
    started sfd efd fds (event_loop sfd efd ws) (event_loop-Always sfd efd ws)

-- Whatever its calls answer and however long it runs, the server hands a descriptor to epoll only
-- if an fcntl with O_NONBLOCK has succeeded on it, behind which it was not closed: so with the
-- listening socket and with each connection that it accepts.
pub epoll_server-Guarded :
    (argv : List Bytes) (a : Setup) (ws : List (Answer (List Event)))
    → Guarded (λ fd. false) (trace (epoll_server argv a ws))
unfolding epoll_server or_abort
epoll_server-Guarded [] a ws = tt
epoll_server-Guarded (port ∷ []) a ws =
    Always-bind (create_and_bind port a.addresses)
      (λ found. or_abort found >>= λ sfd. serve a ws sfd) (create_and_bind-Always port a.addresses)
      bound (λ fd. false)
  where
    bound : (found : Option ℕ) → Always (or_abort found >>= λ sfd. serve a ws sfd)
    bound none = λ fds. tt
    bound (some sfd) =
        Always-bind (or_abort (some sfd)) (λ fd. serve a ws fd) (λ fds. tt)
          (λ fd. serve-Always a.addresses a.flags.got a.flags.set a.listening a.added a.epoll ws fd)
epoll_server-Guarded (port ∷ more ∷ rest) a ws = tt

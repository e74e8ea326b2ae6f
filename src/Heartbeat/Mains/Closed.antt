-- ===== src/Heartbeat/Mains/Closed.antt =====
-- C/heartbeat_android.c: its sockets over whole runs.
use network_pragramming.Prelude.{
  ℕ, ◌+◌, ◌≤◌, ◌≡◌, refl, false, Option, none, some, List, [], ◌∷◌, ◌++◌, arith, ap, ◌==◌,
  if◌then◌else◌,
}
use network_pragramming.Sys.{Answer, failed, gave, Call, Prog, returns, trace, after, ◌>>=◌}
use network_pragramming.Sys.Trace.{closes_of, closes_of-append}
use network_pragramming.Sys.Rules.{trace-after}
use network_pragramming.Heartbeat.Client
use network_pragramming.Heartbeat.Client.{
  Variant, Event, connected, refused, recv_ends, heartbeat_android,
}
use network_pragramming.Heartbeat.Startup.{connect_server}
use network_pragramming.Heartbeat.Mains.{
  Process, Signal, Round, happens, event_of, signals, server_case, descriptor, attempt, rounds,
  start, android_main, on_descriptor,
}

-- A part of the program that returns behind `n` calls that close `d` at least, with the
-- descriptor `fd`.
abbrev Closing : ℕ → ℕ → Option ℕ → Prog Process → Type 0
Closing d n fd p =
    (cs : List Call) × (q : Process) × (p ≡ returns cs q) × (n ≤ closes_of d cs) × (q.conn_fd ≡ fd)

Closing-after :
    (d k n m : ℕ) (fd : Option ℕ) (cs : List Call) (p : Prog Process)
    → k ≤ m + n
    → m ≤ closes_of d cs
    → Closing d n fd p
    → Closing d k fd (after cs p)
Closing-after d k n m fd cs p l h (ds, q, e, more, same) =
    (cs ++ ds, q, rw e refl, omega (arith, closes_of-append d cs ds), same)

Closing-bind :
    (d k n m : ℕ) (fd : Option ℕ) (p : Prog Process) (f : Process → Prog Process)
    → k ≤ m + n
    → Closing d m fd p
    → ((q : Process) → q.conn_fd ≡ fd → Closing d n fd (f q))
    → Closing d k fd (p >>= f)
Closing-bind d k n m fd p f l (cs, q, e, some_closed, same) h =
    rw e (Closing-after d k n m fd cs (f q) l some_closed (h q same))

happens-Closing :
    (d : ℕ) (v : Variant) (e : Event) (p : Process) (fd : Option ℕ)
    → p.conn_fd ≡ fd
    → Closing d 0 fd (happens v e p)
unfolding happens
happens-Closing d v e p fd same = (_, _, refl, omega arith, same)

signals-Closing :
    (d : ℕ) (v : Variant) (ss : List Signal) (p : Process) (fd : Option ℕ)
    → p.conn_fd ≡ fd
    → Closing d 0 fd (signals v ss p)
unfolding signals
signals-Closing d v [] p fd same = ([], p, refl, omega arith, same)
signals-Closing d v (s ∷ rest) p fd same =
    Closing-bind d 0 0 0 fd (happens v (event_of s) p) (signals v rest) (omega arith)
      (happens-Closing d v (event_of s) p fd same) (λ q. signals-Closing d v rest q fd)

-- The sockets `d` that a round opens.
abbrev pub opened : ℕ → Answer ℕ → ℕ
opened d (failed e) = 0
opened d (gave fd) = if fd == d then 1 else 0

abbrev pub all_opened : ℕ → List Round → ℕ
all_opened d [] = 0
all_opened d (r ∷ rest) = opened d r.socket + all_opened d rest

-- The close behind recv.
recv_ends-Closing :
    (d : ℕ) (p : Process) (fd : ℕ)
    → p.conn_fd ≡ some fd
    → Closing d (opened d (gave fd)) (some fd) (happens heartbeat_android recv_ends p)
unfolding happens Client.step on_descriptor
recv_ends-Closing d p fd same = (
  on_descriptor p.conn_fd Call.close ++ [],
  record p { client = record p.client { got_reply = false } },
  refl,
  rw same (ground arith),
  same,
)

connected-Closing :
    (d : ℕ) (ss : List Signal) (p : Process) (fd : ℕ)
    → p.conn_fd ≡ some fd
    → Closing d (opened d (gave fd)) (some fd) (server_case heartbeat_android ss connected p)
unfolding server_case
connected-Closing d ss p fd same =
    let n = opened d (gave fd) in
    Closing-bind d n n 0 (some fd) (happens heartbeat_android connected p) _ (omega arith)
      (happens-Closing d heartbeat_android connected p (some fd) same)
      (λ p1 same1.
        Closing-after d n n 0 (some fd) (on_descriptor p.conn_fd (λ c. Call.read c 256)) _
          (omega arith) (omega arith)
          (Closing-bind d n n 0 (some fd) (signals heartbeat_android ss p1) _ (omega arith)
            (signals-Closing d heartbeat_android ss p1 (some fd) same1)
            (λ p2 same2. recv_ends-Closing d p2 fd same2)))

refused-Closing :
    (d : ℕ) (ss : List Signal) (fd : Option ℕ) (p : Process)
    → p.conn_fd ≡ fd
    → Closing d 0 fd (server_case heartbeat_android ss refused p)
unfolding server_case
refused-Closing d ss fd p same = (_, _, refl, omega arith, same)

-- The signals in sleep, behind the rest of a round.
server-Closing :
    (d n : ℕ) (fd : Option ℕ) (e : Event) (r : Round) (p : Process)
    → Closing d n fd (server_case heartbeat_android r.receiving e p)
    → Closing d n fd
        (server_case heartbeat_android r.receiving e p >>= signals heartbeat_android r.asleep)
server-Closing d n fd e r p h =
    Closing-bind d n 0 n fd (server_case heartbeat_android r.receiving e p)
      (signals heartbeat_android r.asleep) (omega arith) h
      (λ q. signals-Closing d heartbeat_android r.asleep q fd)

-- A round of which the answers of socket and connect are taken out.
try_server : Answer ℕ → Answer (Unit {0}) → Round → Process → Prog Process
try_server a b r p = do
  e ← connect_server a b
  p1 ← server_case heartbeat_android r.receiving e (record p { conn_fd = descriptor a })
  signals heartbeat_android r.asleep p1

try_server-Closing :
    (d : ℕ) (a : Answer ℕ) (b : Answer (Unit {0})) (r : Round) (p : Process)
    → Closing d (opened d a) (descriptor a) (try_server a b r p)
unfolding try_server connect_server
try_server-Closing d (failed e) b r p =
    let p' = record p { conn_fd = none } in
    Closing-after d 0 0 0 none (Call.socket ∷ []) _ (omega arith) (omega arith)
      (server-Closing d 0 none refused r p' (refused-Closing d r.receiving none p' refl))
try_server-Closing d (gave fd) (failed e) r p =
    let p' = record p { conn_fd = some fd } in
    let n = opened d (gave fd) in
    Closing-after d n 0 n (some fd)
      (Call.socket ∷ Call.set_owner fd ∷ Call.connect fd ∷ Call.close fd ∷ []) _ (omega arith)
      (ground arith)
      (server-Closing d 0 (some fd) refused r p' (refused-Closing d r.receiving (some fd) p' refl))
try_server-Closing d (gave fd) (gave u) r p =
    let p' = record p { conn_fd = some fd } in
    let n = opened d (gave fd) in
    Closing-after d n n 0 (some fd) (Call.socket ∷ Call.set_owner fd ∷ Call.connect fd ∷ []) _
      (omega arith) (omega arith)
      (server-Closing d n (some fd) connected r p' (connected-Closing d r.receiving p' fd refl))

attempt-Closing :
    (d : ℕ) (r : Round) (p : Process)
    → Closing d (opened d r.socket) (descriptor r.socket) (attempt heartbeat_android r p)
unfolding attempt try_server
attempt-Closing d r p = try_server-Closing d r.socket r.connected r p

rounds-closes_of :
    (d : ℕ) (rs : List Round) (p : Process)
    → all_opened d rs ≤ closes_of d (trace (rounds heartbeat_android rs p))
unfolding rounds
rounds-closes_of d [] p = omega arith
rounds-closes_of d (r ∷ rest) p =
    let (cs, q, e, some_closed, _) = attempt-Closing d r p in
    rw e (
      omega (
        arith,
        rounds-closes_of d rest q,
        ap (closes_of d) (trace-after cs (rounds heartbeat_android rest q)),
        closes_of-append d cs (trace (rounds heartbeat_android rest q)),
      ))

-- However the system answers and whatever signals come, over any number of rounds the Android
-- client closes each descriptor at least as often as socket gives it.
pub android_main-closes_of :
    (d : ℕ) (rs : List Round) → all_opened d rs ≤ closes_of d (trace (android_main rs))
unfolding android_main
android_main-closes_of d rs = rounds-closes_of d rs start

-- ===== src/Daytime/Tcp/Listens.antt =====
-- tcp_listen of C/daytime_tcp_server.c: the socket that it returns, and an address on which socket
-- fails.
use network_pragramming.Prelude.{
  ℕ, suc, ◌≡◌, ◌⊎◌, inl, inr, refl, Bool, true, false, List, [], ◌∷◌, ◌++◌, Bytes, length,
  replicate, append-nil, append_assoc, ap,
}
use network_pragramming.Sys.{
  Answer, failed, gave, Call, Prog, returns, exits, waits, after, ◌>>=◌, call_or_exit, exit_failure,
}
use network_pragramming.Sys.Rules.{Ensures, Ensures-after, Ensures-bind}
use network_pragramming.Daytime.Addresses.{
  Address, Found, try_socket, decide, search_list, search_found,
}
use network_pragramming.Daytime.Tcp.{tcp_listen, join_tcp, bind_case, listened}

-- No try of socket answers with a descriptor.
abbrev pub AllFail : List (Answer ℕ) → Type 0
AllFail [] = Unit
AllFail (failed e ∷ rest) = AllFail rest
AllFail (gave fd ∷ rest) = ⊥

try_socket-AllFail :
    (sockets : List (Answer ℕ))
    → AllFail sockets
    → try_socket sockets ≡ waits (replicate (suc (length sockets)) Call.socket)
unfolding try_socket
try_socket-AllFail [] h = refl
try_socket-AllFail (failed e ∷ rest) h = ap (after (Call.socket ∷ [])) (try_socket-AllFail rest h)
try_socket-AllFail (gave fd ∷ rest) h = absurd h

-- While socket fails on the first address, for any number of tries, tcp_listen does nothing but
-- call socket again, whatever the other addresses are: it never goes on to the next one.
pub tcp_listen-stuck :
    (serv : Bytes) (found : Found) (listening : Answer (Unit {0}))
    → AllFail found.first.sockets
    → tcp_listen serv (gave found) listening
      ≡ waits (Call.resolve serv ∷ replicate (suc (length found.first.sockets)) Call.socket)
unfolding tcp_listen search_found search_list
tcp_listen-stuck serv found listening h = rw (try_socket-AllFail found.first.sockets h) refl

abbrev Anything : List Call → Type 0
Anything cs = Unit

abbrev pub Succeeds : {A : Type 0} → Answer A → Type 0
Succeeds (failed e) = ⊥
Succeeds (gave u) = Unit

abbrev pub Fails : {A : Type 0} → Answer A → Type 0
Fails (failed e) = Unit
Fails (gave u) = ⊥

-- The first try of socket that succeeds gives `fd`.
abbrev pub Gets : List (Answer ℕ) → ℕ → Type 0
Gets [] fd = ⊥
Gets (failed e ∷ rest) fd = Gets rest fd
Gets (gave d ∷ rest) fd = d ≡ fd

-- `fd` is the socket of the first of some addresses on which bind succeeds.
abbrev pub Binds : List Address → ℕ → Type 0
Binds [] fd = ⊥
Binds (a ∷ rest) fd = (Gets a.sockets fd × Succeeds a.joined) ⊎ (Fails a.joined × Binds rest fd)

-- A search that has broken out of its loop has called bind on its result last, with success.
abbrev Bound : List Address → List Call → ℕ × Bool → Type 0
Bound found cs (fd, true) = ((ds : List Call) × (cs ≡ ds ++ (Call.bind fd ∷ []))) × Binds found fd
Bound found cs (fd, false) = Unit

-- The same of one turn of the loop, for the answer `j` of bind and the socket `fd`.
abbrev BoundTo : Answer (Unit {0}) → ℕ → List Call → Bool → Type 0
BoundTo j fd cs true = ((ds : List Call) × (cs ≡ ds ++ (Call.bind fd ∷ []))) × Succeeds j
BoundTo j fd cs false = Fails j

Ensures-Bound-rest :
    (a : Address) (rest : List Address) (cs : List Call) (p : Prog (ℕ × Bool))
    → Fails a.joined
    → Ensures cs (Bound rest) Anything p
    → Ensures cs (Bound (a ∷ rest)) Anything p
Ensures-Bound-rest a rest cs (returns ds (fd, true)) f (last, b) = (last, inr (f, b))
Ensures-Bound-rest a rest cs (returns ds (fd, false)) f h = tt
Ensures-Bound-rest a rest cs (exits ds n) f h = tt
Ensures-Bound-rest a rest cs (waits ds) f h = tt

try_socket-Gets :
    (cs : List Call) (sockets : List (Answer ℕ))
    → Ensures cs (λ ds fd. Gets sockets fd) Anything (try_socket sockets)
unfolding try_socket
try_socket-Gets cs [] = tt
try_socket-Gets cs (failed e ∷ rest) =
    Ensures-after (λ ds fd. Gets rest fd) Anything cs (Call.socket ∷ []) (try_socket rest)
      (try_socket-Gets (cs ++ (Call.socket ∷ [])) rest)
try_socket-Gets cs (gave fd ∷ rest) = refl

Ensures-any : {A : Type 0} (cs : List Call) (p : Prog A) → Ensures cs (λ ds a. Unit) Anything p
Ensures-any cs (returns ds a) = tt
Ensures-any cs (exits ds n) = tt
Ensures-any cs (waits ds) = tt

bind_case-Bound :
    (cs : List Call) (fd : ℕ) (j : Answer (Unit {0}))
    → Ensures cs (BoundTo j fd) Anything (bind_case fd j)
unfolding bind_case
bind_case-Bound cs fd (gave u) = ((cs, refl), tt)
bind_case-Bound cs fd (failed e) = tt

join_tcp-Bound :
    (cs : List Call) (a : Address) (fd : ℕ)
    → Ensures cs (BoundTo a.joined fd) Anything (join_tcp a fd)
unfolding join_tcp
join_tcp-Bound cs a fd =
    let reuse = call_or_exit (Call.set_reuseaddr fd) exit_failure a.reuse in
    Ensures-bind (λ ds u. Unit) (BoundTo a.joined fd) Anything cs reuse (λ u. bind_case fd a.joined)
      (Ensures-any cs reuse) λ ds u t. bind_case-Bound ds fd a.joined

decide-Bound :
    (cs : List Call) (joined : Bool) (fd : ℕ) (a : Address) (rest : List Address)
    (later : Prog (ℕ × Bool))
    → Gets a.sockets fd
    → BoundTo a.joined fd cs joined
    → ((ds : List Call) → Ensures ds (Bound rest) Anything later)
    → Ensures cs (Bound (a ∷ rest)) Anything (decide joined fd later)
unfolding decide
decide-Bound cs true fd a rest later g (last, s) h = rw (append-nil cs) (last, inl (g, s))
decide-Bound cs false fd a rest later g f h =
    Ensures-after (Bound (a ∷ rest)) Anything cs (Call.close fd ∷ []) later (
      Ensures-Bound-rest a rest (cs ++ (Call.close fd ∷ [])) later f
        (h (cs ++ (Call.close fd ∷ []))))

search_list-Bound :
    (cs : List Call) (fd : ℕ) (found : List Address)
    → Ensures cs (Bound found) Anything (search_list join_tcp fd found)
unfolding search_list
search_list-Bound cs fd [] = tt
search_list-Bound cs fd (a ∷ rest) =
    Ensures-bind (λ ds d. Gets a.sockets d) (Bound (a ∷ rest)) Anything cs (try_socket a.sockets) _
      (try_socket-Gets cs a.sockets)
      λ ds d g.
        Ensures-bind (BoundTo a.joined d) (Bound (a ∷ rest)) Anything ds (join_tcp a d) _
          (join_tcp-Bound ds a d)
          λ es joined b.
            decide-Bound es joined d a rest (search_list join_tcp d rest) g b
              λ hs. search_list-Bound hs d rest

-- The addresses that getaddrinfo has found.
abbrev pub addresses : Answer Found → List Address
addresses (failed e) = []
addresses (gave found) = found.first ∷ found.others

-- A trace that ends with a bind and a listen on `fd`, which have succeeded.
abbrev Listening : List Address → Answer (Unit {0}) → List Call → ℕ → Type 0
Listening found listening cs fd =
    ((ds : List Call) × (cs ≡ ds ++ (Call.bind fd ∷ Call.listen fd 10 ∷ [])))
    × Binds found fd
    × Succeeds listening

listened-Listening :
    (cs : List Call) (found : List Address) (r : ℕ × Bool) (listening : Answer (Unit {0}))
    → Bound found cs r
    → Ensures cs
        (Listening found listening)
        Anything
        (call_or_exit (Call.listen r.0 10) exit_failure listening >>= λ ok. listened r)
unfolding listened
listened-Listening cs found (fd, true) (failed e) b = tt
listened-Listening cs found (fd, false) (failed e) b = tt
listened-Listening cs found (fd, true) (gave u) ((ds, e), b) =
    ((ds, rw e (append_assoc ds (Call.bind fd ∷ []) (Call.listen fd 10 ∷ []))), b, tt)
listened-Listening cs found (fd, false) (gave u) b = tt

tcp_listen-Listening :
    (serv : Bytes) (found : Answer Found) (listening : Answer (Unit {0}))
    → Ensures [] (Listening (addresses found) listening) Anything (tcp_listen serv found listening)
unfolding tcp_listen search_found
tcp_listen-Listening serv (failed e) listening = tt
tcp_listen-Listening serv (gave found) listening =
    let all = found.first ∷ found.others in
    Ensures-after (Listening all listening) Anything [] (Call.resolve serv ∷ []) _ (
      Ensures-bind (Bound all) (Listening all listening) Anything (Call.resolve serv ∷ [])
        (search_list join_tcp 0 all) _ (search_list-Bound (Call.resolve serv ∷ []) 0 all)
        λ ds r b. listened-Listening ds all r listening b)

-- If tcp_listen returns, its last two calls were a bind and then a listen on the socket that it
-- returns, and both have succeeded: it is the socket of the first address, of those that getaddrinfo
-- has found, on which bind succeeds. Where bind fails on every address, or listen fails, it does not
-- return.
pub tcp_listen-listens :
    (serv : Bytes) (found : Answer Found) (listening : Answer (Unit {0})) (cs : List Call) (fd : ℕ)
    → tcp_listen serv found listening ≡ returns cs fd
    → ((ds : List Call) × (cs ≡ ds ++ (Call.bind fd ∷ Call.listen fd 10 ∷ [])))
      × Binds (addresses found) fd
      × Succeeds listening
tcp_listen-listens serv found listening cs fd e =
    rw e at (tcp_listen-Listening serv found listening)

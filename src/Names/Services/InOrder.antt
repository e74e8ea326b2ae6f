-- ===== src/Names/Services/InOrder.antt =====
-- C/getservbyname.c: which addresses the client tries.
use network_pragramming.Prelude.{
  ℕ, ◌-◌, ◌≡◌, refl, ap, none, some, List, [], ◌∷◌, ◌++◌, Bytes, codes, take,
}
use network_pragramming.Sys.{
  Answer, failed, gave, Call, Prog, returns, exits, c_string, input_cases,
}
use network_pragramming.Sys.Trace.{closes}
use network_pragramming.Names.{Family, Ntop, inet_addrstrlen, newline}
use network_pragramming.Names.Services.{
  Candidate, Host, getservbyname, connect_list, show_input, serve_case, trying, buf_size,
}

-- The addresses and ports that a trace connects to.
abbrev pub connects : List Call → List (Bytes × ℕ)
connects [] = []
connects (Call.connect_to fd address port ∷ cs) = (address, port) ∷ connects cs
connects (c ∷ cs) = connects cs

abbrev pub targets : ℕ → List Candidate → List (Bytes × ℕ)
targets port [] = []
targets port (c ∷ rest) = (c.address, port) ∷ targets port rest

-- An address that gets the socket `fd` and has a text.
abbrev pub Tried : Ntop → Candidate → ℕ → Type 0
Tried ntop c fd =
    (c.socket ≡ gave fd)
    × ((text : Bytes) × (ntop Family.af_inet c.address inet_addrstrlen ≡ some text))

abbrev Failed : Answer (Unit {0}) → Type 0
Failed (failed e) = Unit
Failed (gave u) = ⊥

abbrev pub Refused : Ntop → List Candidate → Type 0
Refused ntop [] = Unit
Refused ntop (c ∷ rest) = ((fd : ℕ) × Tried ntop c fd) × Failed c.connected × Refused ntop rest

-- A program that returns `fd` behind calls that connect to these addresses and close nothing.
abbrev Reaches : List (Bytes × ℕ) → ℕ → Prog ℕ → Type 0
Reaches addresses fd p =
    (cs : List Call) × (p ≡ returns cs fd) × (connects cs ≡ addresses) × (closes cs ≡ 0)

Reaches-first :
    (ntop : Ntop) (port fd : ℕ) (c : Candidate) (rest : List Candidate)
    → Tried ntop c fd
    → c.connected ≡ gave tt
    → Reaches (targets port (c ∷ [])) fd (connect_list ntop port (c ∷ rest))
unfolding connect_list
Reaches-first ntop port fd c rest (e, (text, e')) on = (
  Call.socket ∷ Call.put (trying text) ∷ Call.connect_to fd c.address port ∷ [],
  rw (e, e', on) refl,
  refl,
  refl,
)

Reaches-later :
    (ntop : Ntop) (port fd d : ℕ) (c : Candidate) (rest : List Candidate)
    (addresses : List (Bytes × ℕ)) (a : Answer (Unit {0}))
    → Tried ntop c d
    → c.connected ≡ a
    → Failed a
    → Reaches addresses fd (connect_list ntop port rest)
    → Reaches ((c.address, port) ∷ addresses) fd (connect_list ntop port (c ∷ rest))
unfolding connect_list
Reaches-later ntop port fd d c rest addresses (failed x) (e, (text, e')) off f
      (cs, done, names, kept) =
    (
      Call.socket ∷ Call.put (trying text) ∷ Call.connect_to d c.address port ∷ cs,
      rw (e, e', off, done) refl,
      ap (λ l. (c.address, port) ∷ l) names,
      kept,
    )
Reaches-later ntop port fd d c rest addresses (gave u) t off f r = absurd f

connect_list-Reaches :
    (ntop : Ntop) (port fd : ℕ) (before : List Candidate) (c : Candidate) (rest : List Candidate)
    → Refused ntop before
    → Tried ntop c fd
    → c.connected ≡ gave tt
    → Reaches (targets port (before ++ c ∷ [])) fd (connect_list ntop port (before ++ c ∷ rest))
connect_list-Reaches ntop port fd [] c rest h t on = Reaches-first ntop port fd c rest t on
connect_list-Reaches ntop port fd (b ∷ before) c rest ((d, tried), off, h) t on =
    Reaches-later ntop port fd d b (before ++ c ∷ rest) (targets port (before ++ c ∷ []))
      b.connected tried refl off (connect_list-Reaches ntop port fd before c rest h t on)

show_input-prints :
    (bytes : Bytes) → show_input (input_cases bytes) ≡ exits (Call.put (c_string bytes) ∷ []) 0
unfolding show_input
show_input-prints [] = refl
show_input-prints (b ∷ bytes) = refl

-- If the host is found with some addresses that refuse and one that accepts, in this order, with a
-- socket for each, and the service has a port, then the client connects to these addresses in
-- this order on that port and to none behind them, prints the text that one read on the last socket
-- gives, and exits with status 0; it closes none of the sockets that were refused.
pub getservbyname-in_order :
    (ntop : Ntop) (name service : Bytes) (host : Host) (before rest : List Candidate)
    (c : Candidate) (fd port : ℕ) (bytes : Bytes)
    → host.addresses ≡ before ++ c ∷ rest
    → Refused ntop before
    → Tried ntop c fd
    → c.connected ≡ gave tt
    → (cs : List Call) × (getservbyname ntop
          (name ∷ service ∷ [])
          (some host)
          none
          (some port)
          (gave bytes)
        ≡ exits
            (cs
              ++ Call.read fd (buf_size - 1)
                ∷ Call.received fd (take (buf_size - 1) bytes)
                ∷ Call.put (c_string (take (buf_size - 1) bytes))
                ∷ [])
            0)
      × (connects cs ≡ targets port (before ++ c ∷ []))
      × (closes cs ≡ 0)
unfolding getservbyname serve_case
getservbyname-in_order ntop name service host before rest c fd port bytes split h t on =
    let (cs, e, names, none_closed) = connect_list-Reaches ntop port fd before c rest h t on in
    (
      Call.resolve name ∷ Call.put (codes "official hostname : " ++ host.name ++ newline) ∷ cs,
      rw (split, e, show_input-prints (take (buf_size - 1) bytes)) refl,
      names,
      none_closed,
    )

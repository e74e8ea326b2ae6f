-- ===== src/ForkServers/Credentials/SameWrites.antt =====
-- C/unix_stream_credential_server.c and C/unix_stream_server.c: their answers compared.
use network_pragramming.Prelude.{
  ℕ, zero, suc, ◌+◌, ◌-◌, ◌≤◌, ◌≡◌, refl, ap, true, false, Bool-cases, inl, inr, Option, none, some,
  List, [], ◌∷◌, ◌++◌, Bytes, codes, take, drop, length, ◌==◌, leb, arith, min, ◌∙◌,
}
use network_pragramming.Sys.{
  is_eintr, Answer, failed, gave, Call, Prog, returns, trace, after, ◌>>=◌, input_cases, read_some,
}
use network_pragramming.Decimal.{decimal}
use network_pragramming.Sys.Rules.{trace-after}
use network_pragramming.Sys.Trace.{writes_to, writes_to-append}
use network_pragramming.ForkServers.Loop
use network_pragramming.ForkServers.Loop.{loop}
use network_pragramming.ForkServers.Unix
use network_pragramming.ForkServers.Unix.{respond, response, buf_size, unix_case}
use network_pragramming.ForkServers.Credentials.{
  Cred, Control, Turn, check_control, read_cred, show_groups, show_fields, show_cred, show_number,
  no_credentials, cred_case, str_echo,
}

-- The kernel stores a control message of the right form, and its groups fit.
abbrev pub IsFormed : Option Control → Type 0
IsFormed none = Unit
IsFormed (some c) =
    (c.short ≡ false)
    × (c.is_socket_level ≡ true)
    × (c.is_creds ≡ true)
    × (c.cred.ngroups ≤ length c.cred.groups)

abbrev pub AllFormed : List Turn → Type 0
AllFormed [] = Unit
AllFormed (t ∷ ts) = IsFormed t.control × AllFormed ts

-- The same turns without credentials.
abbrev pub plain : List Turn → List Loop.Turn
plain [] = []
plain (t ∷ ts) = record { read = t.received; written = t.written } ∷ plain ts

-- Two programs that write the same to `fd`.
abbrev Same : ℕ → Prog (Unit {0}) → Prog (Unit {0}) → Type 0
Same fd p q = writes_to fd (trace p) ≡ writes_to fd (trace q)

writes_to-after :
    (fd : ℕ) (cs : List Call) (p : Prog (Unit {0}))
    → writes_to fd (trace (after cs p)) ≡ writes_to fd cs ++ writes_to fd (trace p)
writes_to-after fd cs p = ap (writes_to fd) (trace-after cs p) ∙ writes_to-append fd cs (trace p)

Same-after :
    (fd : ℕ) (cs ds : List Call) (p q : Prog (Unit {0}))
    → writes_to fd cs ≡ writes_to fd ds
    → Same fd p q
    → Same fd (after cs p) (after ds q)
Same-after fd cs ds p q e h = rw (writes_to-after fd cs p, writes_to-after fd ds q, e, h)

respond-Same :
    (fd : ℕ) (bytes : Bytes) (w : Answer ℕ) (p q : Prog (Unit {0}))
    → Same fd p q
    → Same fd (respond fd bytes w p) (respond fd bytes w q)
unfolding respond
respond-Same fd bytes (failed e) p q h =
    elim (Bool-cases (leb (length (response bytes) + 1) buf_size)) [
      | inl fits ↦ rw fits refl
      | inr over ↦ rw over refl
    ]
respond-Same fd bytes (gave n) p q h =
    elim (Bool-cases (leb (length (response bytes) + 1) buf_size)) [
      | inl fits ↦
          let cs =
            Call.write fd (response bytes)
            ∷ Call.accepted fd (take (min n (length (response bytes))) (response bytes))
            ∷ [] in
          rw fits (Same-after fd cs cs p q refl h)
      | inr over ↦ rw over refl
    ]

-- A part of the program that returns and writes nothing.
abbrev Quiet : ℕ → Prog (Unit {0}) → Type 0
Quiet fd p = (cs : List Call) × (p ≡ returns cs tt) × (writes_to fd cs ≡ [])

show_groups-Quiet :
    (fd n : ℕ) (groups : List ℕ) → n ≤ length groups → Quiet fd (show_groups n groups)
unfolding show_groups
show_groups-Quiet fd zero groups h = (_, refl, refl)
show_groups-Quiet fd (suc n) [] h = absurd (omega arith)
show_groups-Quiet fd (suc n) (g ∷ groups) h =
    let (cs, e, w) = show_groups-Quiet fd n groups (omega arith) in
    (Call.put (decimal g) ∷ cs, rw e refl, w)

length-drop_one : (groups : List ℕ) (n : ℕ) → n ≤ length groups → n - 1 ≤ length (drop 1 groups)
length-drop_one [] n h = omega arith
length-drop_one (g ∷ groups) n h = omega arith

show_cred-Quiet : (fd : ℕ) (c : Cred) → c.ngroups ≤ length c.groups → Quiet fd (show_cred (some c))
unfolding show_cred no_credentials show_fields
show_cred-Quiet fd c h = elim (Bool-cases (c.ngroups == 0)) [
  | inl e ↦ rw e (Call.put (codes "no credentials returned\n") ∷ [], refl, refl)
  | inr e ↦
      let (cs, e', w) =
        show_groups-Quiet fd (c.ngroups - 1) (drop 1 c.groups)
          (length-drop_one c.groups c.ngroups h) in
      rw (e, e')
        (
          show_number (codes "PID of sender = ") c.pid
              ∷ show_number (codes "real user ID = ") c.uid
              ∷ show_number (codes "real group ID = ") c.gid
              ∷ show_number (codes "effective user ID = ") c.euid
              ∷ Call.put (decimal (c.ngroups - 1) ++ codes " groups:")
              ∷ cs,
          refl,
          w,
        )
]

-- A control message of the right form is taken, and its credentials are printed.
check_control-Quiet :
    (fd : ℕ) (control : Option Control)
    → IsFormed control
    → (c : Option Cred) × (check_control control ≡ returns [] c) × Quiet fd (show_cred c)
unfolding check_control show_cred no_credentials
check_control-Quiet fd none h =
    (none, refl, (Call.put (codes "no credentials returned\n") ∷ [], refl, refl))
check_control-Quiet fd (some c) (long, level, type, fits) =
    (some c.cred, rw (long, level, type) refl, show_cred-Quiet fd c.cred fits)

-- What follows a read in the other server, which answers the end of the file like an empty line.
unix_case_lem :
    (fd : ℕ) (bytes : Bytes) (w : Answer ℕ) (p : Prog (Unit {0}))
    → unix_case fd (input_cases bytes) w p ≡ respond fd bytes w p
unfolding unix_case
unix_case_lem fd [] w p = refl
unix_case_lem fd (b ∷ bytes) w p = refl

turn-Same :
    (fd : ℕ) (a : Answer Bytes) (control : Option Control) (w : Answer ℕ) (p q : Prog (Unit {0}))
    → IsFormed control
    → Same fd p q
    → Same fd
        (read_cred fd buf_size a control >>= λ r. cred_case fd r w p)
        (read_some fd buf_size a >>= λ i. unix_case fd i w q)
unfolding read_cred cred_case unix_case
turn-Same fd (failed e) control w p q h same = elim (Bool-cases (is_eintr e)) [
  | inl i ↦
      rw i
        (Same-after fd (Call.recv_msg fd buf_size ∷ []) (Call.read fd buf_size ∷ []) p q refl same)
  | inr i ↦ rw i refl
]
turn-Same fd (gave bytes) control w p q h same =
    let (c, taken, (cs, shown, quiet)) = check_control-Quiet fd control h in
    let stored = take buf_size bytes in
    rw (taken, shown, unix_case_lem fd stored w q)
      (Same-after fd (Call.recv_msg fd buf_size ∷ Call.received fd stored ∷ [])
        (Call.read fd buf_size ∷ Call.received fd stored ∷ []) (after cs (respond fd stored w p))
        (respond fd stored w q) refl
        (rw (writes_to-after fd cs (respond fd stored w p), quiet)
          (respond-Same fd stored w p q same)))

-- If every control message that comes has the right form and room for its groups, then this server
-- writes to its client just what C/unix_stream_server.c writes for the same data and the same
-- answers of write: the credentials change nothing but what is printed.
pub str_echo-writes_to :
    (fd : ℕ) (ts : List Turn)
    → AllFormed ts
    → writes_to fd (trace (str_echo fd ts)) ≡ writes_to fd (trace (Unix.str_echo fd (plain ts)))
unfolding str_echo Unix.str_echo loop
str_echo-writes_to fd [] h = refl
str_echo-writes_to fd (t ∷ ts) (formed, h) =
    turn-Same fd t.received t.control t.written (str_echo fd ts) (Unix.str_echo fd (plain ts))
      formed (str_echo-writes_to fd ts h)

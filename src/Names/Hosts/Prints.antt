-- ===== src/Names/Hosts/Prints.antt =====
-- C/gethostbyname.c: what is printed of a host.
use network_pragramming.Prelude.{
  ◌≡◌, ◌≢◌, refl, ap, sym, Option, none, some, List, [], ◌∷◌, ◌++◌, append_assoc, Bytes, ◌∙◌,
}
use network_pragramming.Sys.{Call, Prog, returns, exits, waits, exit, after, ◌>>◌}
use network_pragramming.Sys.Rules.{after-append, after-nil}
use network_pragramming.Sys.Trace.{printed}
use network_pragramming.Names.{Family, Ntop, inet_addrstrlen}
use network_pragramming.Names.Hosts.{
  Host, alias_line, address_line, address_case, show_aliases, show_addresses, show_family,
  show_host, gethostbyname, undefined, official_line,
}

-- The lines for some addresses, if the text of each fits into ip_addr.
abbrev and_then : Option Bytes → Option Bytes → Option Bytes
and_then none rest = none
and_then (some text) none = none
and_then (some text) (some lines) = some (address_line text ++ lines)

abbrev pub address_lines : Ntop → Family → List Bytes → Option Bytes
address_lines ntop family [] = some []
address_lines ntop family (a ∷ rest) =
    and_then (ntop family a inet_addrstrlen) (address_lines ntop family rest)

abbrev pub alias_lines : List Bytes → Bytes
alias_lines [] = []
alias_lines (a ∷ rest) = alias_line a ++ alias_lines rest

-- A program that exits with status 0 behind these lines, or is undefined.
abbrev pub Shows : Bytes → Option Bytes → Prog (Unit {0}) → Type 0
Shows before none p = (cs : List Call) × (p ≡ exits cs undefined)
Shows before (some lines) p = (cs : List Call) × (p ≡ exits cs 0) × (printed cs ≡ before ++ lines)

Shows-put :
    (text before : Bytes) (lines : Option Bytes) (p : Prog (Unit {0}))
    → Shows before lines p
    → Shows (text ++ before) lines (after (Call.put text ∷ []) p)
Shows-put text before none p (cs, e) = (Call.put text ∷ cs, ap (after (Call.put text ∷ [])) e)
Shows-put text before (some lines) p (cs, e, out) = (
  Call.put text ∷ cs,
  ap (after (Call.put text ∷ [])) e,
  ap (λ l. text ++ l) out ∙ sym (append_assoc text before lines),
)

address_case-Shows :
    (text lines : Option Bytes) (p : Prog (Unit {0}))
    → Shows [] lines p
    → Shows [] (and_then text lines) (address_case text p)
unfolding address_case
address_case-Shows none lines p h = ([], refl)
address_case-Shows (some text) none p h = Shows-put (address_line text) [] none p h
address_case-Shows (some text) (some lines) p (cs, e, out) = (
  Call.put (address_line text) ∷ cs,
  ap (after (Call.put (address_line text) ∷ [])) e,
  ap (λ l. address_line text ++ l) out,
)

after-bind :
    (c : Call) (p : Prog (Unit {0})) (q : Prog (Unit {0}))
    → (after (c ∷ []) p >> q) ≡ after (c ∷ []) (p >> q)
after-bind c (returns cs u) q = sym (after-append (c ∷ []) cs q)
after-bind c (exits cs n) q = refl
after-bind c (waits cs) q = refl

address_case-bind :
    (text : Option Bytes) (p q : Prog (Unit {0}))
    → (address_case text p >> q) ≡ address_case text (p >> q)
unfolding address_case
address_case-bind none p q = refl
address_case-bind (some text) p q = after-bind (Call.put (address_line text)) p q

show_addresses-Shows :
    (ntop : Ntop) (family : Family) (xs : List Bytes)
    → Shows [] (address_lines ntop family xs) (show_addresses ntop family xs >> exit 0)
unfolding show_addresses
show_addresses-Shows ntop family [] = ([], refl, refl)
show_addresses-Shows ntop family (a ∷ rest) =
    let text = ntop family a inet_addrstrlen in
    let more = show_addresses ntop family rest in
    rw (address_case-bind text more (exit 0)) (
      address_case-Shows text (address_lines ntop family rest) (more >> exit 0)
        (show_addresses-Shows ntop family rest))

show_aliases-Shows :
    (xs : List Bytes) (lines : Option Bytes) (p : Prog (Unit {0}))
    → Shows [] lines p
    → Shows (alias_lines xs) lines (show_aliases xs >> p)
unfolding show_aliases
show_aliases-Shows [] lines p h = rw (after-nil p) h
show_aliases-Shows (a ∷ rest) lines p h =
    rw (after-bind (Call.put (alias_line a)) (show_aliases rest) p) (
      Shows-put (alias_line a) (alias_lines rest) lines (show_aliases rest >> p)
        (show_aliases-Shows rest lines p h))

show_family-Shows :
    (ntop : Ntop) (h : Host) (family : Family)
    → family ≢ Family.other
    → Shows [] (address_lines ntop family h.addresses) (show_family ntop h family >> exit 0)
unfolding show_family
show_family-Shows ntop h Family.af_inet known = show_addresses-Shows ntop Family.af_inet h.addresses
show_family-Shows ntop h Family.af_inet6 known =
    show_addresses-Shows ntop Family.af_inet6 h.addresses
show_family-Shows ntop h Family.other known = absurd (known refl)

Shows-resolve :
    (name before : Bytes) (lines : Option Bytes) (p : Prog (Unit {0}))
    → Shows before lines p
    → Shows before lines (after (Call.resolve name ∷ []) p)
Shows-resolve name before none p (cs, e) =
    (Call.resolve name ∷ cs, ap (after (Call.resolve name ∷ [])) e)
Shows-resolve name before (some lines) p (cs, e, out) =
    (Call.resolve name ∷ cs, ap (after (Call.resolve name ∷ [])) e, out)

-- For a host whose addresses are of one of the two known families, the program prints its name,
-- its aliases and its addresses in their order and exits with status 0, if the text of each
-- address fits into the array for IPv4; if one does not fit, what the program does is undefined.
pub gethostbyname-Shows :
    (ntop : Ntop) (name : Bytes) (h : Host)
    → h.addrtype ≢ Family.other
    → Shows
        (official_line h.name ++ alias_lines h.aliases)
        (address_lines ntop h.addrtype h.addresses)
        (gethostbyname ntop (name ∷ []) (some h))
unfolding gethostbyname show_host
gethostbyname-Shows ntop name h known =
    let lines = address_lines ntop h.addrtype h.addresses in
    let rest = show_family ntop h h.addrtype >> exit 0 in
    Shows-resolve name (official_line h.name ++ alias_lines h.aliases) lines (show_host ntop h) (
      Shows-put (official_line h.name) (alias_lines h.aliases) lines
        (show_aliases h.aliases >> rest)
        (show_aliases-Shows h.aliases lines rest (show_family-Shows ntop h h.addrtype known)))

-- ===== src/Names/Hosts.antt =====
-- C/dns.c and C/gethostbyname.c: the addresses of a host, printed.
pub mod Prints
use network_pragramming.Prelude.{ℕ, Option, none, some, List, [], ◌∷◌, ◌++◌, Bytes, codes}
use network_pragramming.Sys.{
  Answer, failed, gave, Call, Prog, returns, exits, exit, exit_failure, exit_minus_one, call, after,
  ◌>>=◌, ◌>>◌,
}
use network_pragramming.Names.{Family, Ntop, inet_addrstrlen, newline}

-- printf with `%s` and no argument for it, or with a null pointer, is undefined.
abbrev pub undefined : ℕ
undefined = 134

-- What is in ipstr behind inet_ntop, whose result dns.c does not look at.
ipstr_behind : Bytes → Option Bytes → Bytes
ipstr_behind ipstr none = ipstr
ipstr_behind ipstr (some text) = text

-- The loop over the answer of getaddrinfo, with the end of main.
show_answer : Ntop → Bytes → List Bytes → Prog (Unit {0})
unfolding ipstr_behind
show_answer ntop ipstr [] = exit 0
show_answer ntop ipstr (a ∷ rest) =
    let text = ipstr_behind ipstr (ntop Family.af_inet a inet_addrstrlen) in
    after (Call.put (text ++ newline) ∷ []) (show_answer ntop text rest)

-- main of dns.c over argv[1], …; `ipstr` is the array before anything is stored in it.
unfoldable pub dns : Ntop → Bytes → List Bytes → Answer (List Bytes) → Prog (Unit {0})
unfolding show_answer
dns ntop ipstr (host ∷ []) (failed e) = exits (Call.resolve host ∷ []) exit_failure
dns ntop ipstr (host ∷ []) (gave addresses) =
    after (Call.resolve host ∷ []) (show_answer ntop ipstr addresses)
dns ntop ipstr argv found = exit exit_failure

-- A struct hostent.
pub record Host : Type 0 where
  pub name : Bytes
  pub aliases : List Bytes
  pub addrtype : Family
  pub addresses : List Bytes

abbrev pub alias_line : Bytes → Bytes
alias_line alias = codes "\t alias : " ++ alias ++ newline

show_aliases : List Bytes → Prog (Unit {0})
show_aliases [] = returns [] tt
show_aliases (a ∷ rest) = after (Call.put (alias_line a) ∷ []) (show_aliases rest)

abbrev pub address_line : Bytes → Bytes
address_line text = codes "\taddress : " ++ text ++ newline

-- `while (NULL != *p_addrlist)`
address_case : Option Bytes → Prog (Unit {0}) → Prog (Unit {0})
address_case none later = exit undefined
address_case (some text) later = after (Call.put (address_line text) ∷ []) later

show_addresses : Ntop → Family → List Bytes → Prog (Unit {0})
unfolding address_case
show_addresses ntop family [] = returns [] tt
show_addresses ntop family (a ∷ rest) =
    address_case (ntop family a inet_addrstrlen) (show_addresses ntop family rest)

-- The switch on h_addrtype.
show_family : Ntop → Host → Family → Prog (Unit {0})
unfolding show_addresses
show_family ntop h Family.other = call (Call.put (codes "unknown address type.\n"))
show_family ntop h family = show_addresses ntop family h.addresses

abbrev pub official_line : Bytes → Bytes
official_line name = codes "official hostname : " ++ name ++ newline

show_host : Ntop → Host → Prog (Unit {0})
unfolding show_aliases show_family
show_host ntop h = do
  call (Call.put (official_line h.name))
  show_aliases h.aliases
  show_family ntop h h.addrtype
  exit 0

-- main of gethostbyname.c over argv[1], …
unfoldable pub gethostbyname : Ntop → List Bytes → Option Host → Prog (Unit {0})
unfolding show_host
gethostbyname ntop (host ∷ []) none = exits (Call.resolve host ∷ []) exit_minus_one
gethostbyname ntop (host ∷ []) (some h) = after (Call.resolve host ∷ []) (show_host ntop h)
gethostbyname ntop argv found = exit undefined

-- ===== src/Names/Tests.antt =====
-- The programs that look names up, on concrete answers.
use network_pragramming.Prelude.{
  ◌≡◌, refl, none, some, List, [], ◌∷◌, ◌++◌, codes, ◌==◌, if◌then◌else◌,
}
use network_pragramming.Sys.{Errno, failed, gave, Call, returns, exits}
use network_pragramming.Sys.Trace.{closes}
use network_pragramming.Decimal.{decimal}
use network_pragramming.Names.{Family, Ntop}
use network_pragramming.Names.Hosts.{Host, dns, gethostbyname}
use network_pragramming.Names.Hosts.Prints.{Shows, gethostbyname-Shows}
use network_pragramming.Names.Services.{Candidate, getservbyname}
use network_pragramming.Names.Services.InOrder.{connects, getservbyname-in_order}
use network_pragramming.Names.Local.{unixbind, endian}

-- A library in which only two addresses have a text that fits.
abbrev two_texts : Ntop
two_texts family [] size = none
two_texts family (b ∷ address) size =
    if b == 10 then some (codes "10.0.0.1") else if b == 127 then some (codes "127.0.0.1") else none

abbrev local_host : Host
local_host = record {
  name = codes "here";
  aliases = codes "h" ∷ [];
  addrtype = Family.af_inet;
  addresses = (10 ∷ 0 ∷ 0 ∷ 1 ∷ []) ∷ (127 ∷ 0 ∷ 0 ∷ 1 ∷ []) ∷ [];
}

gethostbyname-Shows_example :
    Shows
      (codes "official hostname : here\n" ++ codes "\t alias : h\n")
      (some (codes "\taddress : 10.0.0.1\n\taddress : 127.0.0.1\n"))
      (gethostbyname two_texts (codes "here" ∷ []) (some local_host))
gethostbyname-Shows_example = gethostbyname-Shows two_texts (codes "here") local_host cc

abbrev ipv6_host : Host
ipv6_host = record local_host { addrtype = Family.af_inet6; addresses = (254 ∷ 128 ∷ []) ∷ [] }

-- The text of the only address does not fit.
ipv6_undefined :
    gethostbyname two_texts (codes "here" ∷ []) (some ipv6_host)
    ≡ exits
        (Call.resolve (codes "here")
          ∷ Call.put (codes "official hostname : here\n")
          ∷ Call.put (codes "\t alias : h\n")
          ∷ [])
        134
unfolding gethostbyname
ipv6_undefined = refl

-- The second line repeats the first, since inet_ntop has failed and left the text as it was.
dns_repeats :
    dns two_texts [] (codes "here" ∷ []) (gave (local_host.addresses ++ (8 ∷ []) ∷ []))
    ≡ exits
        (Call.resolve (codes "here")
          ∷ Call.put (codes "10.0.0.1\n")
          ∷ Call.put (codes "127.0.0.1\n")
          ∷ Call.put (codes "127.0.0.1\n")
          ∷ [])
        0
unfolding dns
dns_repeats = refl

abbrev refusing : Candidate
refusing = record { address = 10 ∷ []; socket = gave 3; connected = failed Errno.other }

abbrev accepting : Candidate
accepting = record { address = 127 ∷ []; socket = gave 4; connected = gave tt }

abbrev tries : List Candidate
tries = refusing ∷ accepting ∷ refusing ∷ []

getservbyname-in_order_example :
    (cs : List Call) × (getservbyname two_texts
        (codes "here" ∷ codes "time" ∷ [])
        (some (record { name = codes "here"; addresses = tries }))
        none
        (some 37)
        (gave (codes "noon"))
      ≡ exits
          (cs ++ Call.read 4 255 ∷ Call.received 4 (codes "noon") ∷ Call.put (codes "noon") ∷ [])
          0)
    × (connects cs ≡ (10 ∷ [], 37) ∷ (127 ∷ [], 37) ∷ [])
    × (closes cs ≡ 0)
getservbyname-in_order_example =
    getservbyname-in_order two_texts (codes "here") (codes "time")
      (record { name = codes "here"; addresses = tries }) (refusing ∷ []) (refusing ∷ []) accepting
      4 37 (codes "noon") refl ((3, (refl, (codes "10.0.0.1", refl))), tt, tt)
      (refl, (codes "127.0.0.1", refl)) refl

-- The status is that of a failure, also when all has succeeded.
unixbind_run :
    unixbind (codes "/tmp/s" ∷ []) (gave 3) (gave tt) (gave (codes "/tmp/s", 8))
    ≡ exits
        (Call.socket
          ∷ Call.unlink (codes "/tmp/s")
          ∷ Call.bind_to 3 (codes "/tmp/s")
          ∷ Call.put (codes "bound name = /tmp/s, returned len = 8\n")
          ∷ [])
        1
unfolding unixbind decimal
unixbind_run = refl

endian_run : endian (2 ∷ 1 ∷ []) ≡ returns (Call.put (codes "little-endian.\n") ∷ []) 0
unfolding endian
endian_run = refl

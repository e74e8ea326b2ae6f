-- ===== src/Interfaces/Tests.antt =====
-- The list of interfaces on concrete answers.
use network_pragramming.Prelude.{
  ℕ, ◌≡◌, refl, true, false, none, some, List, [], ◌∷◌, codes, arith, ◌==◌, if◌then◌else◌,
}
use network_pragramming.Decimal.{decimal}
use network_pragramming.Names
use network_pragramming.Interfaces.Show.{Info, show_infos}
use network_pragramming.Sys.{gave, Call, trace, returns, exits}
use network_pragramming.Interfaces.Release.{IfiInfo, sockaddr, ifi_info, Heap, free_ifi_info}
use network_pragramming.Interfaces.Release.Frees.{end, node, is_in, free_ifi_info-frees}
use network_pragramming.Interfaces.Listing.{Family, Interface, Round, get_ifi_info, main}
use network_pragramming.Interfaces.Listing.Endless.{AsksStdin, Breaks, get_ifi_info_endless}

-- A node at 10 with two addresses, and one at 20 with none.
abbrev first : IfiInfo
first = record { ifi_addr = some 11; ifi_brdaddr = none; ifi_dstaddr = some 12; ifi_next = some 20 }

abbrev second : IfiInfo
second = record { ifi_addr = none; ifi_brdaddr = none; ifi_dstaddr = none; ifi_next = none }

abbrev heap : Heap
heap q =
    if q == 10
    then some (ifi_info first)
    else if q == 11
    then some sockaddr
    else if q == 12
    then some sockaddr
    else if q == 20
    then some (ifi_info second)
    else none

free_ifi_info-frees_example :
    (k : Heap) × (free_ifi_info 3 (some 10) heap ≡ some k)
    × ((q : ℕ) → k q ≡ (if is_in q (11 ∷ 12 ∷ 10 ∷ 20 ∷ []) then none else heap q))
free_ifi_info-frees_example =
    free_ifi_info-frees heap (some 10) 2 (11 ∷ 12 ∷ 10 ∷ 20 ∷ [])
      (node 10 first refl refl tt refl (node 20 second refl tt tt tt end))
      (
        (omega arith, (omega arith, (omega arith, tt))),
        ((omega arith, (omega arith, tt)), ((omega arith, tt), (tt, tt))),
      )

-- A node whose two addresses are one block: it is freed twice.
freed_twice :
    free_ifi_info 5 (some 1) (λ q.
      if q == 1
      then some (
          ifi_info (record {
            ifi_addr = some 2;
            ifi_brdaddr = some 2;
            ifi_dstaddr = none;
            ifi_next = none;
          }))
      else if q == 2
      then some sockaddr
      else none)
    ≡ none
unfolding free_ifi_info
freed_twice = refl

abbrev ethernet : Interface
ethernet = record {
  family = Family.af_inet;
  name = codes "eth0";
  up = true;
  broadcast = true;
  pointopoint = false;
}

abbrev answers : List Round
answers = record { allocated = true; listed = gave (ethernet ∷ []); ifc_len = 4000 } ∷ []

get_ifi_info_endless_example :
    ((cs : List Call)
      → get_ifi_info Family.af_inet false (gave 3) answers ≡ returns cs tt
      → Breaks answers)
    × AsksStdin (trace (get_ifi_info Family.af_inet false (gave 3) answers))
get_ifi_info_endless_example = get_ifi_info_endless Family.af_inet false (gave 3) answers

-- An ethernet interface has a broadcast address: main crashes.
crash :
    main (λ f a n. none) (codes "a" ∷ codes "inet4" ∷ codes "0" ∷ []) (gave 3) answers []
    ≡ exits (Call.socket ∷ Call.ioctl 0 ∷ Call.ioctl 0 ∷ Call.ioctl 0 ∷ []) 139
unfolding main get_ifi_info
crash = refl

abbrev eth0 : Info
eth0 = record {
  name = codes "eth0";
  index = 2;
  mtu = 1500;
  haddr = 0 ∷ 22 ∷ 171 ∷ 0 ∷ 0 ∷ 0 ∷ 0 ∷ 0 ∷ [];
  hlen = 3;
  flags = record {
    up = true;
    broadcast = true;
    multicast = false;
    loopback = false;
    pointopoint = false;
  };
  addr = some (record { family = Names.Family.af_inet; address = 10 ∷ [] });
  brdaddr = none;
  dstaddr = none;
}

-- What would be printed of a list with one interface.
show_infos_run :
    show_infos (λ f a n. some (codes "10.0.0.1")) (eth0 ∷ [])
    ≡ exits
        (Call.put (codes "eth0: (2) <UP BCAST >\n")
          ∷ Call.put (codes "   0:16:ab\n   MTU: 1500\n")
          ∷ Call.put (codes "AF_INET.\n")
          ∷ Call.put (codes "   IP addr: 10.0.0.1\n")
          ∷ [])
        0
unfolding show_infos decimal
show_infos_run = refl

-- ===== src/Epoll/Tests.antt =====
-- The epoll server in a session with one client.
use network_pragramming.Prelude.{◌≡◌, refl, true, false, none, List, [], ◌∷◌, ◌++◌, codes, arith}
use network_pragramming.Sys.{Errno, failed, gave, Call, returns, waits, trace}
use network_pragramming.Sys.Trace.{input_of, output_of}
use network_pragramming.Epoll.{Flags, Event, Setup, handle_event, epoll_server, stdout, backlog}
use network_pragramming.Epoll.Drain.{handle_event-drains}
use network_pragramming.Epoll.Guarded.{Guarded, epoll_server-Guarded}
use network_pragramming.Epoll.Shows.{Shows, epoll_server-Shows}

abbrev flags_set : Flags
flags_set = record { got = gave tt; set = gave tt }

-- The client sends two pieces and closes.
abbrev talk : Event
talk = record {
  fd = 5;
  err = false;
  hup = false;
  readable = true;
  accepts = [];
  reads =
      record { read = gave (codes "ab"); written = gave 2 }
      ∷ record { read = gave (codes "c"); written = gave 1 }
      ∷ record { read = gave []; written = gave 0 }
      ∷ [];
}

handle_event-drains_example :
    (cs : List Call) × (handle_event 3 4 talk ≡ returns (cs ++ (Call.close 5 ∷ [])) tt)
    × (input_of 5 cs ≡ codes "abc")
    × (output_of stdout cs ≡ codes "abc")
handle_event-drains_example =
    handle_event-drains 3 4 talk true refl refl refl (omega arith)
      ((omega arith, refl), ((omega arith, refl), ((omega arith, refl), tt))) refl

-- A connection, after which the listening socket would block.
abbrev knock : Event
knock = record {
  fd = 3;
  err = false;
  hup = false;
  readable = true;
  accepts =
      record { accept = gave 5; flags = flags_set; added = gave tt }
      ∷ record { accept = failed Errno.eagain; flags = flags_set; added = gave tt }
      ∷ [];
  reads = [];
}

abbrev up : Setup
up = record {
  addresses = gave (record { socket = gave 3; bound = gave tt } ∷ []);
  flags = flags_set;
  listening = gave tt;
  epoll = gave 4;
  added = gave tt;
}

session_calls :
    epoll_server (codes "80" ∷ []) up (gave (knock ∷ []) ∷ [])
    ≡ waits (
        Call.resolve (codes "80")
        ∷ Call.socket
        ∷ Call.bind 3
        ∷ Call.get_flags 3
        ∷ Call.set_nonblock 3
        ∷ Call.nonblocking 3
        ∷ Call.listen 3 backlog
        ∷ Call.epoll_create
        ∷ Call.epoll_add 4 3
        ∷ Call.epoll_wait 4
        ∷ Call.accept 3
        ∷ Call.get_flags 5
        ∷ Call.set_nonblock 5
        ∷ Call.nonblocking 5
        ∷ Call.epoll_add 4 5
        ∷ Call.accept 3
        ∷ Call.epoll_wait 4
        ∷ [])
unfolding epoll_server
session_calls = refl

epoll_server-Guarded_example :
    Guarded
      (λ fd. false)
      (trace (epoll_server (codes "80" ∷ []) up (gave (knock ∷ talk ∷ []) ∷ [])))
epoll_server-Guarded_example =
    epoll_server-Guarded (codes "80" ∷ []) up (gave (knock ∷ talk ∷ []) ∷ [])

epoll_server-Shows_example :
    Shows none (trace (epoll_server (codes "80" ∷ []) up (gave (knock ∷ talk ∷ []) ∷ [])))
epoll_server-Shows_example = epoll_server-Shows (codes "80" ∷ []) up (gave (knock ∷ talk ∷ []) ∷ [])

-- ===== src/Passing/Tests.antt =====
-- A session of mycat and openfile.
use network_pragramming.Prelude.{ℕ, ◌≡◌, refl, some, List, [], ◌∷◌, Bytes, codes, arith}
use network_pragramming.Sys.{Message, Errno, failed, gave, Call, returns, exits}
use network_pragramming.Sys.Trace.{input_of, requested}
use network_pragramming.Decimal.{decimal, atoi}
use network_pragramming.Passing.Message.{error, value, rights_message, write_fd, read_fd, got}
use network_pragramming.Passing.Openfile.{openfile, greeting}
use network_pragramming.Passing.Mycat.{Answers, opened, exited, my_open, mycat, copy_all, Copied}
use network_pragramming.Passing.Mycat.Copies.{copy_all-copies}
use network_pragramming.Passing.Session.{
  Session, in_transit, opens, my_open-refines_open, read_fd-write_fd,
}

abbrev file_name : Bytes
file_name = codes "notes"

-- The child opens the file as descriptor 5.
abbrev child : Answers
child = record {
  pair = gave (3, 4);
  forked = gave 0;
  waited = failed Errno.other;
  message = error 9;
  executed = gave tt;
  child = record { opened = value 5; sent = value 10 };
}

-- The parent gets it as descriptor 3.
abbrev parent : Answers
parent = record child {
  forked = gave 71;
  waited = gave (exited 0);
  message = value (rights_message greeting 3);
}

abbrev renamed : ℕ → ℕ
renamed fd = 3

abbrev child_calls : List Call
child_calls =
    Call.socketpair
    ∷ Call.fork
    ∷ Call.close 4
    ∷ Call.exec (codes "./openfile" ∷ codes "openfile" ∷ codes "3" ∷ file_name ∷ codes "0" ∷ [])
    ∷ Call.open_mode file_name 0
    ∷ Call.send_msg 3 (rights_message greeting 5)
    ∷ []

child_run : my_open file_name 0 child ≡ exits child_calls 0
unfolding my_open openfile write_fd decimal atoi
child_run = refl

sent_once :
    (m : Message)
    → some (rights_message greeting 5) ≡ some m
    → value (rights_message greeting 3) ≡ value (in_transit renamed m)
unfolding rights_message
sent_once m e = let same : rights_message greeting 5 ≡ m = ground arith in rw (← same) refl

abbrev session : Session file_name 0 renamed child parent
session = record {
  ends = (3, 4);
  child_pair = refl;
  parent_pair = refl;
  child_fork = refl;
  pid = 70;
  parent_fork = refl;
  executed = refl;
  taken = 10;
  sends = refl;
  status = 0;
  calls = child_calls;
  ended = child_run;
  waited = refl;
  delivered = λ m e. sent_once m e;
}

my_open-refines_open_example :
    ((ds : List Call) × (my_open file_name 0 parent ≡ returns ds (opened 3)))
    × (opens child_calls ≡ (file_name, 0) ∷ [])
my_open-refines_open_example =
    my_open-refines_open file_name 0 renamed child parent session tt (omega arith) (omega arith)

read_fd-write_fd_example :
    read_fd 4 256 (value (in_transit renamed (rights_message (codes "hi") 5)))
    ≡ returns (Call.recv_msg 4 256 ∷ []) (got (codes "hi") (some 3))
unfolding write_fd
read_fd-write_fd_example =
    read_fd-write_fd renamed 3 4 256 5 b'h' (codes "i") (value 2) (rights_message (codes "hi") 5)
      (omega arith) refl

-- A file of three bytes; stdout takes only one of the first two.
abbrev pieces : List Copied
pieces =
    record { read = gave (codes "ab"); written = gave 1 }
    ∷ record { read = gave (codes "c"); written = failed Errno.other }
    ∷ record { read = gave []; written = gave 0 }
    ∷ []

copy_all-copies_example :
    (ds : List Call) × (copy_all 3 pieces ≡ exits ds 0)
    × (input_of 3 ds ≡ codes "abc")
    × (requested 1 ds ≡ codes "abc")
copy_all-copies_example = copy_all-copies 3 pieces refl

usage : mycat [] parent [] ≡ exits [] 1
unfolding mycat
usage = refl

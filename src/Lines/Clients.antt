-- ===== src/Lines/Clients.antt =====
-- C/basic_tcp_client.c, C/unix_stream_client.c, C/basic_udp_client.c and C/unix_dgram_client.c: their
-- loops are one, with what differs as a record.
pub mod Echoed
use network_pragramming.Prelude.{
  ℕ, List, [], ◌∷◌, ◌++◌, Bytes, codes, length, take, ltb, ◌==◌, if◌then◌else◌,
}
use network_pragramming.Sys.{
  Errno, is_eintr, Answer, failed, gave, Call, Prog, returns, exits, exit, exit_failure,
  exit_minus_one, call, call_or_exit, after, ◌>>=◌, ◌>>◌, c_string,
}

abbrev undefined : ℕ
undefined = 134

-- A line that fgets has stored, and what the calls of the loop answer for it.
pub record Turn : Type 0 where
  pub line : Bytes
  pub sent : Answer ℕ
  pub reply : Answer Bytes

-- The call that sends, what is printed of the line, the call that receives and the most it stores,
-- what happens when one of them fails (the loop goes on with the next line if it returns), what
-- happens with an empty answer, and the text that is printed of the others.
pub record Client : Type 0 where
  pub send : ℕ → Bytes → Call
  pub announce : Bytes → List Call
  pub receive : ℕ → ℕ → Call
  pub room : ℕ
  pub send_failed : ℕ → Errno → Prog (Unit {0})
  pub receive_failed : ℕ → Errno → Prog (Unit {0})
  pub empty_reply : ℕ → Prog (Unit {0})
  pub text : Bytes → Bytes

-- The array of 256 null bytes has no null byte left when 256 others are received.
print_reply : (Bytes → Bytes) → Bytes → Prog (Unit {0})
print_reply text reply =
    if ltb (length (c_string reply)) 256
    then call (Call.put (text (c_string reply)))
    else exit undefined

shown : Client → ℕ → Bytes → Prog (Unit {0})
unfolding print_reply
shown c fd [] = c.empty_reply fd
shown c fd (b ∷ reply) = print_reply c.text (b ∷ reply)

reply_case : Client → ℕ → Answer Bytes → Prog (Unit {0})
unfolding shown
reply_case c fd (failed e) = c.receive_failed fd e
reply_case c fd (gave bytes) =
    after (Call.received fd (take c.room bytes) ∷ []) (shown c fd (take c.room bytes))

sent_case : Client → ℕ → Turn → Answer ℕ → Prog (Unit {0})
unfolding reply_case
sent_case c fd t (failed e) = c.send_failed fd e
sent_case c fd t (gave n) =
    after (c.announce (c_string t.line) ++ (c.receive fd c.room ∷ [])) (reply_case c fd t.reply)

pub ask : Client → ℕ → Turn → Prog (Unit {0})
unfolding sent_case
ask c fd t = after (c.send fd (c_string t.line) ∷ []) (sent_case c fd t t.sent)

-- The loop, over the lines up to the end of stdin.
pub asks : Client → ℕ → List Turn → Prog (Unit {0})
unfolding ask
asks c fd [] = returns [] tt
asks c fd (t ∷ ts) = ask c fd t >> asks c fd ts

skip_or : Prog (Unit {0}) → Errno → Prog (Unit {0})
skip_or p e = if is_eintr e then returns [] tt else p

-- str_cli of C/basic_tcp_client.c
abbrev pub tcp_client : Client
tcp_client = record {
  send = Call.write;
  announce = λ line. [];
  receive = Call.read;
  room = 255;
  send_failed = λ fd e. exit exit_failure;
  receive_failed = λ fd e. exit exit_failure;
  empty_reply = λ fd. call (Call.close fd) >> exit exit_failure;
  text = λ reply. reply;
}

-- str_cli of C/unix_stream_client.c
unix_client : Client
unfolding skip_or
unix_client = record {
  send = Call.write;
  announce = λ line. [];
  receive = Call.read;
  room = 256;
  send_failed = λ fd. skip_or (exit exit_failure);
  receive_failed = λ fd. skip_or (exit exit_failure);
  empty_reply = λ fd. print_reply (λ reply. reply) [];
  text = λ reply. reply;
}

received_text : Bytes → Bytes
received_text reply = codes "[client] recv_msg = " ++ (reply ++ codes ".\n")

-- The loop of dg_cli in C/basic_udp_client.c, with CONNECT defined, as it is there.
udp_client : Client
unfolding received_text print_reply
udp_client = record {
  send = Call.write;
  announce = λ line. Call.put (codes "[client] send_msg = " ++ (line ++ codes ".\n")) ∷ [];
  receive = Call.read;
  room = 256;
  send_failed = λ fd e. exit exit_minus_one;
  receive_failed = λ fd e. exit exit_minus_one;
  empty_reply = λ fd. print_reply received_text [];
  text = received_text;
}

-- dg_cli of C/unix_dgram_client.c
dgram_client : Client
unfolding skip_or print_reply
dgram_client = record {
  send = Call.send_to;
  announce = λ line. [];
  receive = Call.recv_from;
  room = 256;
  send_failed = λ fd. skip_or (call (Call.close fd) >> exit exit_failure);
  receive_failed = λ fd. skip_or (call (Call.close fd) >> exit exit_failure);
  empty_reply = λ fd. print_reply (λ reply. reply ++ codes ".\n") [];
  text = λ reply. reply ++ codes ".\n";
}

-- What the calls before the loops answer.
pub record Setup : Type 0 where
  pub socket : Answer ℕ
  pub resolved : Answer (Unit {0})
  pub bound : Answer (Unit {0})
  pub connected : Answer (Unit {0})

-- main of C/basic_tcp_client.c, behind the test of argc.
unfoldable pub basic_tcp_client : Bytes → Setup → List Turn → Prog (Unit {0})
unfolding asks
basic_tcp_client hostname a ts = do
  fd ← call_or_exit Call.socket exit_failure a.socket
  server ← call_or_exit (Call.resolve hostname) exit_failure a.resolved
  connected ← call_or_exit (Call.connect fd) exit_failure a.connected
  asks tcp_client fd ts
  exit 0

-- main of C/unix_stream_client.c
unfoldable pub unix_stream_client : Setup → List Turn → Prog (Unit {0})
unfolding asks unix_client
unix_stream_client a ts = do
  fd ← call_or_exit Call.socket exit_failure a.socket
  connected ← call_or_exit (Call.connect fd) exit_failure a.connected
  asks unix_client fd ts
  exit 0

-- main of C/basic_udp_client.c, behind the test of argc, and dg_cli.
unfoldable pub basic_udp_client : Bytes → Setup → List Turn → Prog (Unit {0})
unfolding asks udp_client
basic_udp_client hostname a ts = do
  fd ← call_or_exit Call.socket exit_minus_one a.socket
  server ← call_or_exit (Call.resolve hostname) exit_minus_one a.resolved
  connected ← call_or_exit (Call.connect fd) exit_minus_one a.connected
  asks udp_client fd ts
  exit 0

bound_case : ℕ → Answer (Unit {0}) → Prog (Unit {0})
bound_case fd (failed e) = exits (Call.bind fd ∷ Call.close fd ∷ []) exit_failure
bound_case fd (gave ok) = call (Call.bind fd)

-- main of C/unix_dgram_client.c
unfoldable pub unix_dgram_client : Setup → List Turn → Prog (Unit {0})
unfolding asks dgram_client bound_case
unix_dgram_client a ts = do
  fd ← call_or_exit Call.socket exit_failure a.socket
  bound_case fd a.bound
  asks dgram_client fd ts
  exit 0

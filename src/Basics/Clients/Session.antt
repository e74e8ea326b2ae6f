-- ===== src/Basics/Clients/Session.antt =====
-- C/select_client.c in conversation with C/select_server.c, one reply of the server for each line.
use network_pragramming.Prelude.{
  concat, ℕ, ◌≤◌, ◌≡◌, refl, ap, true, false, some, List, [], ◌∷◌, ◌++◌, append-nil, Bytes, codes,
  bytes_eq, take, length, min, take_of_length-le, arith, ltb, ◌==◌, ◌∙◌,
}
use network_pragramming.Sys.{
  Errno, failed, gave, Call, Prog, returns, exits, trace, input, input_cases, c_string,
}
use network_pragramming.Sys.Trace.{writes_to, printed}
use network_pragramming.SelectServer
use network_pragramming.SelectServer.{timeout, echo_text, accept_msg, client}
use network_pragramming.Basics.Clients.{
  Turn, select_client, select_turns, select_turn, send_line, greeting_case, written_case,
  print_reply, leave,
}

-- A round of the server in which it receives `line`.
abbrev receiving : Bytes → SelectServer.Round
receiving line = record {
  selected = gave timeout;
  accepted = failed Errno.other;
  received = λ d. gave line;
}

-- What the server writes to its client `sd`, in the turn in which that has sent `line`.
abbrev pub server_reply : ℕ → Bytes → Bytes
server_reply sd line =
    concat (writes_to sd (trace (client (receiving line) (λ d. true) (some sd) 1 (λ d. true))))

-- The lines that are typed and then "exit", with the replies of the server, to which the client is
-- `sd`; `reply` is what it has sent last.
abbrev pub chat : ℕ → Bytes → List Bytes → List Turn
chat sd reply [] =
    record { line = some (codes "exit\n"); written = gave 0; reply = gave reply } ∷ []
chat sd reply (l ∷ ls) =
    record { line = some l; written = gave (length l); reply = gave reply }
    ∷ chat sd (server_reply sd l) ls

-- A line that is not "exit" and fits with the text in front of it into both buffers.
abbrev pub IsLine : Bytes → Type 0
IsLine l = (c_string l ≡ l) × (length l ≤ 243) × (bytes_eq l (codes "exit\n") ≡ false)

abbrev pub AllLines : List Bytes → Type 0
AllLines [] = Unit
AllLines (l ∷ ls) = IsLine l × (1 ≤ length l) × AllLines ls

abbrev echoed : Bytes → Bytes
echoed l = codes "ECHO BACK : " ++ l

server_reply_lem :
    (sd : ℕ) (l : Bytes)
    → c_string l ≡ l
    → length l ≤ 243
    → 1 ≤ length l
    → server_reply sd l ≡ echoed l
unfolding client
server_reply_lem sd [] h fits some_bytes = absurd (omega arith)
server_reply_lem sd (b ∷ bytes) h fits some_bytes =
    let self : (sd == sd) ≡ true = ground arith in
    let all : take 254 bytes ≡ bytes = take_of_length-le 254 bytes (omega arith) in
    let fit : ltb (length (echoed (c_string (b ∷ bytes)))) 256 ≡ true = rw h (ground arith) in
    rw (all, fit, self) (ap echoed (append-nil (c_string (b ∷ bytes)) ∙ h))

-- A reply that the client prints whole.
abbrev IsReply : Bytes → Type 0
IsReply r =
    (take 255 r ≡ r)
    × (c_string r ≡ r)
    × (bytes_eq (take 6 r) (codes "Refuse") ≡ false)
    × (input_cases r ≡ input r)

echoed-IsReply : (l : Bytes) → c_string l ≡ l → length l ≤ 243 → IsReply (echoed l)
echoed-IsReply l h fits = (ap echoed (take_of_length-le 243 l fits), ap echoed h, refl, refl)

abbrev pub shown : Bytes → Bytes
shown r = codes "Receive message: " ++ (r ++ codes ".\n")

-- The calls from a reply up to what is printed of it.
abbrev reply_calls : ℕ → Bytes → List Call
reply_calls fd r = Call.read fd 255 ∷ Call.received fd r ∷ Call.put (shown r) ∷ []

-- A turn in which a line is sent.
line-turn :
    (fd : ℕ) (r l : Bytes)
    → IsReply r
    → IsLine l
    → (k : Bytes) × (select_turn fd
          (record { line = some l; written = gave (length l); reply = gave r })
        ≡ returns (reply_calls fd r ++ Call.write fd l ∷ Call.accepted fd k ∷ []) tt)
unfolding select_turn greeting_case print_reply send_line written_case
line-turn fd r l (all, text, other, bytes) (whole, fits, ne) =
    (take (min (length l) (length l)) l, rw (all, bytes, text, other, whole, ne) refl)

-- The turn in which "exit" is typed.
exit-turn :
    (fd : ℕ) (r : Bytes)
    → IsReply r
    → select_turn fd (record { line = some (codes "exit\n"); written = gave 0; reply = gave r })
      ≡ exits (reply_calls fd r ++ Call.close fd ∷ []) 0
unfolding select_turn greeting_case print_reply send_line leave
exit-turn fd r (all, text, other, bytes) = rw (all, bytes, text, other) refl

abbrev pub all_shown : Bytes → List Bytes → Bytes
all_shown reply [] = shown reply
all_shown reply (l ∷ ls) = shown reply ++ all_shown (codes "ECHO BACK : " ++ l) ls

-- A program that exits with status 0, having printed `text`.
abbrev Prints : Bytes → Prog (Unit {0}) → Type 0
Prints text p = (cs : List Call) × (p ≡ exits cs 0) × (printed cs ≡ text)

chat-Prints :
    (fd sd : ℕ) (reply : Bytes) (ls : List Bytes)
    → IsReply reply
    → AllLines ls
    → Prints (all_shown reply ls) (select_turns fd (chat sd reply ls))
unfolding select_turns
chat-Prints fd sd reply [] r h = (
  reply_calls fd reply ++ Call.close fd ∷ [],
  rw (exit-turn fd reply r) refl,
  append-nil (shown reply),
)
chat-Prints fd sd reply (l ∷ ls) r ((whole, fits, ne), some_bytes, h) =
    let (k, e) = line-turn fd reply l r (whole, fits, ne) in
    let answer = server_reply_lem sd l whole fits some_bytes in
    let (cs, e', out) = chat-Prints fd sd (echoed l) ls (echoed-IsReply l whole fits) h in
    (
      (reply_calls fd reply ++ Call.write fd l ∷ Call.accepted fd k ∷ []) ++ cs,
      rw (e, answer, e') refl,
      ap (λ t. shown reply ++ t) out,
    )

-- If each line that is typed is not empty and not "exit", has no null byte and at most 243 bytes,
-- the server accepts the client, each write takes all of its bytes, and each read gets the greeting,
-- one line or one reply, and that whole, then over a session of any number of lines, each answered by
-- the code of the server, the client prints the greeting and then each line as the server echoes
-- it, in their order, and at "exit" it ends with status 0.
pub select_client-chat :
    (fd sd : ℕ) (host : Bytes) (ls : List Bytes)
    → AllLines ls
    → (cs : List Call) × (select_client host
          (record { socket = gave fd; resolved = gave tt; connected = gave tt })
          (chat sd accept_msg ls)
        ≡ exits cs 0)
      × (printed cs ≡ all_shown accept_msg ls)
unfolding select_client
select_client-chat fd sd host ls h =
    let (cs, e, out) = chat-Prints fd sd accept_msg ls (refl, refl, refl, refl) h in
    (Call.socket ∷ Call.resolve host ∷ Call.connect fd ∷ cs, rw e refl, out)

-- ===== src/ForkServers/TcpUdp/Answers.antt =====
-- process of C/select_tcp_udp_server.c over a connection that comes to its end.
use network_pragramming.Prelude.{
  ℕ, ◌≡◌, refl, true, List, [], ◌∷◌, ◌++◌, Bytes, arith, min, length, take,
}
use network_pragramming.Sys.{
  Errno, is_eintr, Answer, gave, Call, Prog, returns, after, call, read_error, end_of_file, input,
}
use network_pragramming.Sys.Trace.{writes_to, closes}
use network_pragramming.ForkServers.Loop.{Turn, chunks, closed, AllWritten, replies, loop-Serves}
use network_pragramming.ForkServers.TcpUdp.{process, process_case, response}

again :
    (fd : ℕ) (e : Errno) (w : Answer ℕ) (p : Prog (Unit {0}))
    → is_eintr e ≡ true
    → process_case fd (read_error e) w p ≡ p
unfolding process_case
again fd e w p i = rw i refl

at_end :
    (fd : ℕ) (w : Answer ℕ) (p : Prog (Unit {0}))
    → process_case fd end_of_file w p ≡ call (Call.close fd)
unfolding process_case
at_end fd w p = refl

answers :
    (fd : ℕ) (bytes : Bytes) (n : ℕ) (p : Prog (Unit {0}))
    → (k : Bytes) × (process_case fd (input bytes) (gave n) p
        ≡ after (Call.write fd response ∷ Call.accepted fd k ∷ []) p)
unfolding process_case
answers fd bytes n p = (take (min n (length response)) response, refl)

-- If no read fails but by a signal until the client closes, and no write fails, then process
-- returns; it has written "I got your message" once for each read that stored something, and has
-- closed the connection at the end and nothing else.
pub process-answers :
    (fd : ℕ) (ts : List Turn)
    → AllWritten ts
    → (chunks 255 ts).1 ≡ closed
    → (cs : List Call) × (process fd ts
        ≡ returns (cs ++ (Call.read fd 255 ∷ Call.received fd [] ∷ Call.close fd ∷ [])) tt)
      × (writes_to fd cs ≡ replies (λ _. response) (chunks 255 ts).0)
      × (closes cs ≡ 0)
unfolding process
process-answers fd ts w e =
    let (cs, run, out, none) =
      loop-Serves fd 254 process_case (λ _. response) (call (Call.close fd)) (again fd) (at_end fd)
        (answers fd) ts w (λ b. ground arith) in
    (cs, rw e at run, out, none)

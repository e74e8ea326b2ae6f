-- ===== src/ForkServers/Echo/Echoes.antt =====
-- str_echo of C/basic_tcp_server.c over a connection that comes to its end.
use network_pragramming.Prelude.{
  ℕ, ◌≡◌, refl, ap, ◌∙◌, true, List, [], ◌∷◌, ◌++◌, Bytes, arith, min, length, take,
}
use network_pragramming.Sys.{
  Errno, is_eintr, Answer, gave, Call, Prog, returns, after, call, read_error, end_of_file, input,
}
use network_pragramming.Sys.Trace.{writes_to, closes}
use network_pragramming.ForkServers.Loop.{Turn, chunks, closed, AllWritten, replies, loop-Serves}
use network_pragramming.ForkServers.Echo.{str_echo, echo_case}

replies-same : (cs : List Bytes) → replies (λ c. c) cs ≡ cs
replies-same [] = refl
replies-same (c ∷ cs) = ap (λ l. c ∷ l) (replies-same cs)

again :
    (fd : ℕ) (e : Errno) (w : Answer ℕ) (p : Prog (Unit {0}))
    → is_eintr e ≡ true
    → echo_case fd (read_error e) w p ≡ p
unfolding echo_case
again fd e w p i = rw i refl

at_end :
    (fd : ℕ) (w : Answer ℕ) (p : Prog (Unit {0}))
    → echo_case fd end_of_file w p ≡ call (Call.close fd)
unfolding echo_case
at_end fd w p = refl

answers :
    (fd : ℕ) (bytes : Bytes) (n : ℕ) (p : Prog (Unit {0}))
    → (k : Bytes) × (echo_case fd (input bytes) (gave n) p
        ≡ after (Call.write fd bytes ∷ Call.accepted fd k ∷ []) p)
unfolding echo_case
answers fd bytes n p = (take (min n (length bytes)) bytes, refl)

-- If no read fails but by a signal until the client closes, and no write fails, then str_echo
-- returns; it has handed to write what each read has stored, in order, and has closed the
-- connection at the end and nothing else.
pub str_echo-echoes :
    (fd : ℕ) (ts : List Turn)
    → AllWritten ts
    → (chunks 255 ts).1 ≡ closed
    → (cs : List Call) × (str_echo fd ts
        ≡ returns (cs ++ (Call.read fd 255 ∷ Call.received fd [] ∷ Call.close fd ∷ [])) tt)
      × (writes_to fd cs ≡ (chunks 255 ts).0)
      × (closes cs ≡ 0)
unfolding str_echo
str_echo-echoes fd ts w e =
    let (cs, run, out, none) =
      loop-Serves fd 254 echo_case (λ c. c) (call (Call.close fd)) (again fd) (at_end fd)
        (answers fd) ts w (λ b. ground arith) in
    (cs, rw e at run, out ∙ replies-same (chunks 255 ts).0, none)

-- ===== src/ForkServers/Unix/Replies.antt =====
-- str_echo of C/unix_stream_server.c over reads that it can answer.
use network_pragramming.Prelude.{
  ℕ, ◌+◌, ◌≤◌, ◌≡◌, refl, true, List, [], ◌∷◌, Bytes, length, take, min, arith, leb, length-append,
  codes,
}
use network_pragramming.Sys.{Answer, gave, Call, Prog, waits, after, ◌>>=◌, c_string, read_some}
use network_pragramming.Sys.Trace.{writes_to}
use network_pragramming.ForkServers.Loop.{Turn, loop}
use network_pragramming.ForkServers.Unix.{str_echo, unix_case, respond, response, buf_size}

-- A read that stores a line of at most 244 bytes, or finds the end of the file, and a write that
-- does not fail.
pub record Readable (t : Turn) : Type 0 where
  pub bytes : Bytes
  pub stored : t.read ≡ gave bytes
  pub short : length (c_string (take buf_size bytes)) ≤ 244
  pub taken : ℕ
  pub writes : t.written ≡ gave taken

-- The lines of some turns, empty at the end of the file, with the answers to them.
pub data Session : List Turn → List Bytes → Type 0 where
  done : Session [] []
  turn :
      {t : Turn} {ts : List Turn} {lines : List Bytes} (r : Readable t)
      → Session ts lines
      → Session (t ∷ ts) (response (take buf_size r.bytes) ∷ lines)

respond-short :
    (fd : ℕ) (bytes : Bytes) (n : ℕ) (p : Prog (Unit {0}))
    → length (c_string bytes) ≤ 244
    → (k : Bytes) × (respond fd bytes (gave n) p
        ≡ after (Call.write fd (response bytes) ∷ Call.accepted fd k ∷ []) p)
unfolding respond
respond-short fd bytes n p h =
    let fits : leb (length (response bytes) + 1) 256 ≡ true =
      ground (arith, length-append (codes "[response] ") (c_string bytes)) in
    (take (min n (length (response bytes))) (response bytes), rw fits refl)

-- Both cases of what a read stores are answered alike.
unix_case-respond :
    (fd : ℕ) (bytes : Bytes) (w : Answer ℕ) (p : Prog (Unit {0}))
    → (read_some fd buf_size (gave bytes) >>= λ i. unix_case fd i w p)
      ≡ after
          (Call.read fd buf_size ∷ Call.received fd (take buf_size bytes) ∷ [])
          (respond fd (take buf_size bytes) w p)
unfolding unix_case
unix_case-respond fd [] w p = refl
unix_case-respond fd (b ∷ bytes) w p = refl

abbrev Answered : ℕ → List Bytes → Prog (Unit {0}) → Type 0
Answered fd lines p = (cs : List Call) × (p ≡ waits cs) × (writes_to fd cs ≡ lines)

turn-Answered :
    (fd n : ℕ) (bytes : Bytes) (lines : List Bytes) (p : Prog (Unit {0}))
    → length (c_string (take buf_size bytes)) ≤ 244
    → Answered fd lines p
    → Answered fd
        (response (take buf_size bytes) ∷ lines)
        (read_some fd buf_size (gave bytes) >>= λ i. unix_case fd i (gave n) p)
turn-Answered fd n bytes lines p h (cs, e, out) =
    let line = take buf_size bytes in
    let (k, answer) = respond-short fd line n p h in
    (
      Call.read fd buf_size
          ∷ Call.received fd line
          ∷ Call.write fd (response line)
          ∷ Call.accepted fd k
          ∷ cs,
      rw (unix_case-respond fd bytes (gave n) p, answer, e) refl,
      ground (arith, out),
    )

-- While each read stores a line of at most 244 bytes or finds the end of the file, and no write
-- fails, str_echo runs on, and it has answered each of them with "[response] " and the line: the
-- end of the file too, and as often as it is read again.
pub str_echo-answers :
    (fd : ℕ) (ts : List Turn) (lines : List Bytes)
    → Session ts lines
    → (cs : List Call) × (str_echo fd ts ≡ waits cs) × (writes_to fd cs ≡ lines)
unfolding str_echo loop
str_echo-answers fd all out done = (Call.read fd buf_size ∷ [], refl, refl)
str_echo-answers fd all out (turn {t} {ts} {lines} r s) =
    rw (r.stored, r.writes)
      (turn-Answered fd r.taken r.bytes lines (str_echo fd ts) r.short
        (str_echo-answers fd ts lines s))

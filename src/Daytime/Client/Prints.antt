-- ===== src/Daytime/Client/Prints.antt =====
-- C/daytime_tcp_client.c: what the client prints.
use network_pragramming.Prelude.{
  ℕ, ◌<◌, ◌≡◌, refl, false, List, [], ◌∷◌, ◌++◌, Bytes, length, take, arith, ◌==◌,
  take_of_length-le, sym,
}
use network_pragramming.Sys.{
  Answer, failed, gave, Call, Prog, returns, exits, ◌>>=◌, read_some, c_string,
}
use network_pragramming.Sys.Trace.{printed}
use network_pragramming.Daytime.Client.{print_all, line_case, print_line, buf_size}

-- What the server sends until it closes, in pieces without a null byte that are shorter than the
-- buffer.
abbrev pub Lines : List (Answer Bytes) → Bytes → Type 0
Lines [] sent = ⊥
Lines (failed e ∷ rest) sent = ⊥
Lines (gave [] ∷ rest) sent = sent ≡ []
Lines (gave (b ∷ bytes) ∷ rest) sent =
    (more : Bytes) × (sent ≡ (b ∷ bytes) ++ more)
    × (length (b ∷ bytes) < buf_size)
    × (c_string (b ∷ bytes) ≡ b ∷ bytes)
    × Lines rest more

-- A program that exits with status 0 after printing `sent`.
abbrev Printed : Bytes → Prog (Unit {0}) → Type 0
Printed sent p = (cs : List Call) × (p ≡ exits cs 0) × (printed cs ≡ sent)

-- Bytes that leave room for the null byte are printed up to their first null byte.
print_line-short :
    (bytes : Bytes)
    → length bytes < buf_size
    → print_line bytes ≡ returns (Call.put (c_string bytes) ∷ []) tt
unfolding print_line
print_line-short bytes short =
    let fits : (length bytes == buf_size) ≡ false = ground (arith, short) in rw fits refl

-- One turn of the loop.
turn-Printed :
    (fd : ℕ) (b : ℕ) (bytes more : Bytes) (p : Prog (Unit {0}))
    → length (b ∷ bytes) < buf_size
    → c_string (b ∷ bytes) ≡ b ∷ bytes
    → Printed more p
    → Printed
        ((b ∷ bytes) ++ more)
        (read_some fd buf_size (gave (b ∷ bytes)) >>= λ i. line_case i p)
unfolding line_case
turn-Printed fd b bytes more p short whole (cs, e, out) =
    let all : take 255 bytes ≡ bytes = take_of_length-le 255 bytes (omega (arith, short)) in
    let line = print_line-short (b ∷ bytes) short in
    (
      Call.read fd buf_size ∷ Call.received fd (b ∷ bytes) ∷ Call.put (b ∷ bytes) ∷ cs,
      rw (all, line, whole, e) refl,
      ground (arith, out),
    )

print_all-Printed :
    (fd : ℕ) (reads : List (Answer Bytes)) (sent : Bytes)
    → Lines reads sent
    → Printed sent (print_all fd reads)
unfolding print_all line_case
print_all-Printed fd [] sent h = absurd h
print_all-Printed fd (failed e ∷ rest) sent h = absurd h
print_all-Printed fd (gave [] ∷ rest) sent h =
    (Call.read fd buf_size ∷ Call.received fd [] ∷ [], refl, sym h)
print_all-Printed fd (gave (b ∷ bytes) ∷ rest) sent (more, e, short, whole, lines) = rw e (
    turn-Printed fd b bytes more (print_all fd rest) short whole
      (print_all-Printed fd rest more lines))

-- If the server closes after sending pieces without a null byte that are shorter than the buffer,
-- then the client exits with status 0, having printed just what the server sent.
pub print_all-prints :
    (fd : ℕ) (reads : List (Answer Bytes)) (sent : Bytes)
    → Lines reads sent
    → (cs : List Call) × (print_all fd reads ≡ exits cs 0) × (printed cs ≡ sent)
print_all-prints fd reads sent h = print_all-Printed fd reads sent h

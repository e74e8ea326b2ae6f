-- ===== src/Daytime/Session.antt =====
-- C/daytime_tcp_server.c and C/daytime_tcp_client.c on one connection.
use network_pragramming.Prelude.{
  ℕ, ◌+◌, ◌≤◌, ◌<◌, ◌≡◌, refl, ap, true, List, [], ◌∷◌, ◌++◌, Bytes, length, take, min, arith, ◌==◌,
  append-nil, length-append, length-take, take_of_length-le, Bool-cases, inl, inr, ◌∙◌,
}
use network_pragramming.Sys.{Answer, gave, Call, exits, trace, c_string}
use network_pragramming.Sys.Trace.{output_of, printed}
use network_pragramming.Daytime.Tcp.{Family, Round, time_text, serve_rounds}
use network_pragramming.Daytime.Client.{print_all}
use network_pragramming.Daytime.Client.Prints.{Lines, print_all-prints}

-- The server with one client over IPv4, whose descriptor is `conn`; write takes up to `n` bytes.
abbrev pub one_client : ℕ → Bytes → ℕ → List Round
one_client conn now n =
    record { accepted = gave (conn, Family.inet); now = now; written = gave n } ∷ []

-- What the server hands over to the connection.
abbrev pub stream : ℕ → ℕ → Bytes → ℕ → Bytes
stream listenfd conn now n = output_of conn (trace (serve_rounds listenfd (one_client conn now n)))

-- The pieces of a stream, in each of which there is something.
abbrev pub Cut : List Bytes → Bytes → Type 0
Cut [] sent = sent ≡ []
Cut ([] ∷ ps) sent = ⊥
Cut ((b ∷ p) ∷ ps) sent = (rest : Bytes) × (sent ≡ (b ∷ p) ++ rest) × Cut ps rest

-- What read answers for them, up to the end of the connection.
abbrev pub reads_of : List Bytes → List (Answer Bytes)
reads_of [] = gave [] ∷ []
reads_of (p ∷ ps) = gave p ∷ reads_of ps

c_string-append :
    (p rest : Bytes) → c_string (p ++ rest) ≡ p ++ rest → (c_string p ≡ p) × (c_string rest ≡ rest)
c_string-append [] rest h = (refl, h)
c_string-append (b ∷ p) rest h = elim (Bool-cases (b == 0)) [
  | inl e ↦ absurd (cc (rw e at h))
  | inr e ↦
      let (first, second) = c_string-append p rest (ground (arith, rw e at h)) in
      (rw e (ap (λ l. b ∷ l) first), second)
]

Cut-Lines :
    (ps : List Bytes) (sent : Bytes)
    → c_string sent ≡ sent
    → length sent < 256
    → Cut ps sent
    → Lines (reads_of ps) sent
Cut-Lines [] sent h short c = c
Cut-Lines ([] ∷ ps) sent h short c = absurd c
Cut-Lines ((b ∷ p) ∷ ps) sent h short (rest, e, c) =
    let (first, second) = c_string-append (b ∷ p) rest (rw e at h) in
    let sum : length sent ≡ length (b ∷ p) + length rest =
      ap length e ∙ length-append (b ∷ p) rest in
    (rest, e, omega (arith, sum), first, Cut-Lines ps rest second (omega (arith, sum)) c)

length-time_text : (now : Bytes) → length (time_text now) ≤ 26
length-time_text now = omega (arith, length-append (take 24 now) (13 ∷ 10 ∷ []), length-take 24 now)

stream_lem :
    (listenfd conn n : ℕ) (now : Bytes) → 26 ≤ n → stream listenfd conn now n ≡ time_text now
unfolding serve_rounds
stream_lem listenfd conn n now h =
    let self : (conn == conn) ≡ true = ground arith in
    rw self (
      append-nil (take (min n (length (time_text now))) (time_text now))
      ∙ take_of_length-le (min n (length (time_text now))) (time_text now)
          (omega (arith, length-time_text now)))

-- If the text of the time has no null byte and the server's write takes all of it, then however
-- the connection cuts what the server has written into pieces, the loop of the client behind its
-- connect, which reads and prints, prints the text of the time with "\r\n" behind it, and nothing
-- else, and exits with status 0.
pub print_all-serve_rounds :
    (listenfd conn fd n : ℕ) (now : Bytes) (ps : List Bytes)
    → c_string (time_text now) ≡ time_text now
    → 26 ≤ n
    → Cut ps (stream listenfd conn now n)
    → (cs : List Call) × (print_all fd (reads_of ps) ≡ exits cs 0) × (printed cs ≡ time_text now)
print_all-serve_rounds listenfd conn fd n now ps text all c =
    print_all-prints fd (reads_of ps) (time_text now) (
      Cut-Lines ps (time_text now) text (omega (arith, length-time_text now))
        (rw (stream_lem listenfd conn n now all) at c))

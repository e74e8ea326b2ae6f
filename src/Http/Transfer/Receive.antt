-- ===== src/Http/Transfer/Receive.antt =====
-- C/http_client.c: the response that the client stores and prints, against what the peer sends.
use network_pragramming.Prelude.{
  ℕ, ◌+◌, ◌-◌, ◌≤◌, ◌<◌, ◌≡◌, ◌⊎◌, inl, inr, refl, sym, codes, true, false, List, [], ◌∷◌, ◌++◌,
  Bytes, length, arith, ltb, ◌==◌, append-nil, append_assoc, length-append, Bool-cases,
}
use network_pragramming.Sys.{
  Answer, failed, gave, Call, Prog, returns, exits, waits, call_or_exit, ◌>>=◌, c_string,
}
use network_pragramming.Sys.Rules.{Post, Post-after, Ensures, Ensures-bind}
use network_pragramming.Http.Transfer.{
  send_loop, receive_loop, response_size, check_complete, printed_text, exchange, Answers,
}

-- read stores at most as many bytes as it is asked for; `got` bytes are there already.
abbrev pub Fits : ℕ → List (Answer Bytes) → Type 0
Fits got [] = Unit
Fits got (failed e ∷ rest) = Fits got rest
Fits got (gave bytes ∷ rest) = (got + length bytes ≤ response_size) × Fits (got + length bytes) rest

-- The bytes that the peer sends before it closes the connection.
abbrev pub stream : List (Answer Bytes) → Bytes
stream [] = []
stream (failed e ∷ rest) = []
stream (gave [] ∷ rest) = []
stream (gave (b ∷ bytes) ∷ rest) = (b ∷ bytes) ++ stream rest

stream-gave :
    (bytes : Bytes) (rest : List (Answer Bytes))
    → (length bytes == 0) ≡ false
    → stream (gave bytes ∷ rest) ≡ bytes ++ stream rest
stream-gave [] rest h = ground arith
stream-gave (b ∷ bytes) rest h = refl

stream-end :
    (bytes : Bytes) (rest : List (Answer Bytes))
    → (length bytes == 0) ≡ true
    → stream (gave bytes ∷ rest) ≡ []
stream-end [] rest h = refl
stream-end (b ∷ bytes) rest h = ground arith

-- What the receive loop returns fills the buffer, or is all that the peer sent.
abbrev Received : Bytes → Bytes → Type 0
Received whole r = (length r ≡ response_size) ⊎ ((r ≡ whole) × (length r < response_size))

Received-from :
    (fd : ℕ) (got : Bytes) (reads : List (Answer Bytes))
    → length got < response_size
    → Fits (length got) reads
    → Post (Received (got ++ stream reads)) (receive_loop fd got reads)
unfolding receive_loop
Received-from fd got [] l f = tt
Received-from fd got (failed e ∷ rest) l f = tt
Received-from fd got (gave bytes ∷ rest) l (f, fs) = elim (Bool-cases (length bytes == 0)) [
  | inl z ↦ rw (z, stream-end bytes rest z, append-nil) (inr (refl, l))
  | inr z ↦ elim (Bool-cases (ltb (length (got ++ bytes)) response_size)) [
    | inl more ↦
        rw (z, more, stream-gave bytes rest z, ← append_assoc got bytes (stream rest))
          (Post-after _ (Call.read fd (response_size - length got) ∷ [])
            (receive_loop fd (got ++ bytes) rest)
            (Received-from fd (got ++ bytes) rest (ground arith) (rw (length-append got bytes) fs)))
    | inr full ↦ rw (z, full) (inl (ground (arith, length-append got bytes)))
  ]
]

check_complete_lem :
    (whole r : Bytes)
    → Received whole r
    → Post (λ s. (s ≡ whole) × (length s < response_size)) (check_complete r)
unfolding check_complete
check_complete_lem whole r (inl e) = rw e tt
check_complete_lem whole r (inr (e, l)) = elim (Bool-cases (length r == response_size)) [
  | inl f ↦ rw f tt
  | inr f ↦ rw f (e, l)
]

abbrev Anything : List Call → Type 0
Anything cs = Unit

Ensures-Post :
    {A : Type 0} (P : A → Type 0) (cs : List Call) (p : Prog A)
    → Post P p
    → Ensures cs (λ ds a. P a) Anything p
Ensures-Post P cs (returns ds a) h = h
Ensures-Post P cs (exits ds n) h = tt
Ensures-Post P cs (waits ds) h = tt

Ensures-any : {A : Type 0} (cs : List Call) (p : Prog A) → Ensures cs (λ ds a. Unit) Anything p
Ensures-any cs (returns ds a) = tt
Ensures-any cs (exits ds n) = tt
Ensures-any cs (waits ds) = tt

-- A response that is all of `whole` and has room for a null byte, and was printed last.
abbrev Printed : Bytes → List Call → Bytes → Type 0
Printed whole cs r =
    (r ≡ whole)
    × (length r < response_size)
    × ((ds : List Call) × (cs ≡ ds ++ (Call.put (printed_text r) ∷ [])))

exchange-Printed :
    (host m : Bytes) (a : Answers)
    → Fits 0 a.reads
    → Ensures [] (Printed (stream a.reads)) Anything (exchange host m a)
unfolding exchange
exchange-Printed host m a f = skip [] (call_or_exit Call.socket 1 a.socket) _ λ cs fd.
    skip cs (call_or_exit (Call.resolve host) 1 a.host) _ λ cs addr.
      skip cs (call_or_exit (Call.connect fd) 1 a.connected) _ λ cs u.
        skip cs (send_loop fd m 0 a.writes) _ λ cs sent.
          Ensures-bind (λ ds g. Received whole g) (Printed whole) Anything cs
            (receive_loop fd [] a.reads) _
            (Ensures-Post (Received whole) cs (receive_loop fd [] a.reads)
              (Received-from fd [] a.reads (omega arith) f))
            λ cs got g.
              Ensures-bind (λ ds r. Whole r) (Printed whole) Anything cs (check_complete got) _
                (Ensures-Post Whole cs (check_complete got) (check_complete_lem whole got g))
                λ cs r (e, l).
                  let shut = cs ++ (Call.close fd ∷ []) in
                  let last =
                    append_assoc cs (Call.close fd ∷ []) (Call.put (printed_text r) ∷ []) in
                  (e, l, (shut, sym last))
  where
    whole : Bytes
    whole = stream a.reads

    Whole : Bytes → Type 0
    Whole s = (s ≡ stream a.reads) × (length s < response_size)

    skip :
        {A : Type 0} (cs : List Call) (p : Prog A) (g : A → Prog Bytes)
        → ((ds : List Call) (x : A) → Ensures ds (Printed whole) Anything (g x))
        → Ensures cs (Printed whole) Anything (p >>= g)
    skip cs p g h =
        Ensures-bind (λ ds x. Unit) (Printed whole) Anything cs p g (Ensures-any cs p)
          λ ds x t. h ds x

-- If read never stores more than it is asked for, then a client that returns has stored all that
-- the peer sent before it closed, with room for the terminating null byte behind it; and what it has
-- done last is to print that response, up to its first null byte.
pub exchange_complete :
    (host m : Bytes) (a : Answers) (cs : List Call) (r : Bytes)
    → Fits 0 a.reads
    → exchange host m a ≡ returns cs r
    → (r ≡ stream a.reads)
      × (length r < response_size)
      × ((ds : List Call) × (cs
            ≡ ds ++ (Call.put (codes "\nResponse:\n" ++ c_string r ++ codes "\n") ∷ [])))
unfolding printed_text
exchange_complete host m a cs r f e = rw e at (exchange-Printed host m a f)

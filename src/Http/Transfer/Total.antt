-- ===== src/Http/Transfer/Total.antt =====
-- C/http_client.c: a run in which the peer takes the request and closes after its response.
use network_pragramming.Prelude.{
  ℕ, ◌-◌, ◌≤◌, ◌<◌, ◌≡◌, refl, ap, true, false, List, [], ◌∷◌, ◌++◌, Bytes, length, arith, ltb,
  ◌==◌, append-nil, append_assoc, length-append,
}
use network_pragramming.Sys.{Answer, failed, gave, Call, Prog, returns, after}
use network_pragramming.Http.Transfer.{
  receive_loop, response_size, check_complete, printed_text, exchange, Answers,
}
use network_pragramming.Http.Transfer.Send.{Progress, delivered, send_loop-delivers}
use network_pragramming.Http.Transfer.Receive.{stream}

-- The peer sends some chunks and then closes the connection.
abbrev pub Closes : List (Answer Bytes) → Type 0
Closes [] = ⊥
Closes (failed e ∷ rest) = ⊥
Closes (gave [] ∷ rest) = Unit
Closes (gave (b ∷ bytes) ∷ rest) = Closes rest

abbrev Returns : Prog Bytes → Bytes → Type 0
Returns p r = (cs : List Call) × (p ≡ returns cs r)

Returns-after : (cs : List Call) (p : Prog Bytes) (r : Bytes) → Returns p r → Returns (after cs p) r
Returns-after cs p r (ds, e) = (cs ++ ds, ap (after cs) e)

receive-Returns :
    (fd : ℕ) (got : Bytes) (reads : List (Answer Bytes))
    → Closes reads
    → length (got ++ stream reads) < response_size
    → Returns (receive_loop fd got reads) (got ++ stream reads)
unfolding receive_loop
receive-Returns fd got [] c l = absurd c
receive-Returns fd got (failed e ∷ rest) c l = absurd c
receive-Returns fd got (gave [] ∷ rest) c l = rw append-nil (_, refl)
receive-Returns fd got (gave (b ∷ bytes) ∷ rest) c l =
    let e = append_assoc got (b ∷ bytes) (stream rest) in
    let room : ltb (length (got ++ (b ∷ bytes))) response_size ≡ true =
      ground (arith, ap length e, length-append (got ++ (b ∷ bytes)) (stream rest)) in
    let nonempty : (length (b ∷ bytes) == 0) ≡ false = ground arith in
    rw (nonempty, ← e, room)
      (Returns-after (Call.read fd (response_size - length got) ∷ [])
        (receive_loop fd (got ++ (b ∷ bytes)) rest) _
        (receive-Returns fd (got ++ (b ∷ bytes)) rest c (rw e l)))

-- If the host is found and the socket connects, the request is not empty, every write makes
-- progress with enough of them for the request, and the peer closes after fewer than 4095 bytes,
-- then the client returns all that the peer sent, and its writes delivered the request.
pub exchange_total :
    (host m : Bytes) (a : Answers) (fd : ℕ) (addr : Bytes)
    → a.socket ≡ gave fd
    → a.host ≡ gave addr
    → a.connected ≡ gave tt
    → 0 < length m
    → Progress a.writes
    → length m ≤ length a.writes
    → Closes a.reads
    → length (stream a.reads) < response_size
    → (ws : List Call) × (rs : List Call) × (exchange host m a
        ≡ returns
            (Call.socket
              ∷ Call.resolve host
              ∷ Call.connect fd
              ∷ (ws ++ (rs ++ (Call.close fd ∷ Call.put (printed_text (stream a.reads)) ∷ []))))
            (stream a.reads))
      × (delivered ws a.writes ≡ m)
unfolding exchange check_complete
exchange_total host m a fd addr s h c pos p l z r =
    let (ws, n, sent, whole) = send_loop-delivers fd m a.writes p (omega arith) l in
    let (rs, got) = receive-Returns fd [] a.reads z r in
    let short : (length (stream a.reads) == response_size) ≡ false = ground arith in
    (ws, rs, rw (s, h, c, sent, got, short) refl, whole)

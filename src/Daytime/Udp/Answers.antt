-- ===== src/Daytime/Udp/Answers.antt =====
-- C/daytime_udp_server.c: the answers to the datagrams.
use network_pragramming.Prelude.{ℕ, ◌<◌, ◌≡◌, refl, true, List, [], ◌∷◌, Bytes, length, arith, leb}
use network_pragramming.Sys.{gave, Call, returns, waits}
use network_pragramming.Sys.Trace.{sends}
use network_pragramming.Daytime.Udp.{
  Datagram, answer_round, answer_rounds, ends_inside, date_text, buf_size,
}

-- Each recvfrom succeeds with fewer bytes than the buffer has.
abbrev pub AllShort : List Datagram → Type 0
AllShort [] = Unit
AllShort (d ∷ ds) =
    ((bytes : Bytes) × (d.received ≡ gave bytes) × (length bytes < buf_size)) × AllShort ds

abbrev pub texts : List Datagram → List Bytes
texts [] = []
texts (d ∷ ds) = date_text d.now ∷ texts ds

answer_round-short :
    (fd : ℕ) (d : Datagram) (bytes : Bytes)
    → d.received ≡ gave bytes
    → length bytes < buf_size
    → answer_round fd d
      ≡ returns (Call.recv_from fd buf_size ∷ Call.send_to fd (date_text d.now) ∷ []) tt
unfolding answer_round ends_inside
answer_round-short fd d bytes e short =
    let inside : leb (length bytes) 255 ≡ true = ground (arith, short) in rw (e, inside) refl

-- While recvfrom succeeds with datagrams that are shorter than the buffer, the server runs on, and
-- it has answered each of them, in order, with the time at which it came.
pub answer_rounds-sends :
    (fd : ℕ) (ds : List Datagram)
    → AllShort ds
    → (cs : List Call) × (answer_rounds fd ds ≡ waits cs) × (sends fd cs ≡ texts ds)
unfolding answer_rounds
answer_rounds-sends fd [] h = (Call.recv_from fd buf_size ∷ [], refl, refl)
answer_rounds-sends fd (d ∷ ds) ((bytes, e, short), h) =
    let (cs, run, out) = answer_rounds-sends fd ds h in
    (
      Call.recv_from fd buf_size ∷ Call.send_to fd (date_text d.now) ∷ cs,
      rw (answer_round-short fd d bytes e short, run) refl,
      ground (arith, out),
    )

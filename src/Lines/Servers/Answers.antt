-- ===== src/Lines/Servers/Answers.antt =====
-- What the servers of datagrams send back.
use network_pragramming.Prelude.{
  ℕ, ◌+◌, ◌≤◌, ◌≡◌, refl, true, List, [], ◌∷◌, Bytes, codes, length, length-append, take, leb,
  arith,
}
use network_pragramming.Sys.{gave, Call, returns, waits, c_string}
use network_pragramming.Sys.Trace.{sends}
use network_pragramming.Lines.Servers.{
  Datagram, Server, buf_size, echo_back, sent_case, send_back, received_case, round, dg_echo,
}

-- recvfrom stores a text of at most 243 bytes, and sendto does not fail.
pub record Short (d : Datagram) : Type 0 where
  pub bytes : Bytes
  pub stored : d.received ≡ gave bytes
  pub short : length (c_string (take buf_size bytes)) ≤ 243
  pub taken : ℕ
  pub goes : d.sent ≡ gave taken

-- The texts of some datagrams that are all short.
pub data Texts : List Datagram → List Bytes → Type 0 where
  nothing : Texts [] []
  datagram :
      {d : Datagram} {ds : List Datagram} {ls : List Bytes} (s : Short d)
      → Texts ds ls
      → Texts (d ∷ ds) (c_string (take buf_size s.bytes) ∷ ls)

abbrev pub echoes : List Bytes → List Bytes
echoes [] = []
echoes (l ∷ ls) = echo_back l ∷ echoes ls

round-Short :
    (v : Server) (fd : ℕ) (d : Datagram) (s : Short d)
    → round v fd d
      ≡ returns
          (Call.recv_from fd buf_size
            ∷ Call.send_to fd (echo_back (c_string (take buf_size s.bytes)))
            ∷ [])
          tt
unfolding round received_case send_back sent_case
round-Short v fd d s =
    let text = c_string (take buf_size s.bytes) in
    let fits : leb (length (echo_back text) + 1) 256 ≡ true =
      ground (arith, length-append (codes "ECHO BACK : ") text, s.short) in
    rw (s.stored, s.goes, fits) refl

-- While the datagrams have at most 243 bytes in front of a null byte, and no call fails, dg_echo
-- runs on, and has sent "ECHO BACK : " and the text for each of them, also for an empty one;
-- nothing is left of a datagram when the next one is answered.
pub dg_echo-answers :
    (v : Server) (fd : ℕ) (ds : List Datagram) (ls : List Bytes)
    → Texts ds ls
    → (cs : List Call) × (dg_echo v fd ds ≡ waits cs) × (sends fd cs ≡ echoes ls)
unfolding dg_echo
dg_echo-answers v fd all out nothing = (Call.recv_from fd buf_size ∷ [], refl, refl)
dg_echo-answers v fd all out (datagram {d} {ds} {ls} s more) =
    let (cs, run, e) = dg_echo-answers v fd ds ls more in
    let text = c_string (take buf_size s.bytes) in
    (
      Call.recv_from fd buf_size ∷ Call.send_to fd (echo_back text) ∷ cs,
      rw (round-Short v fd d s, run) refl,
      ground (arith, e),
    )

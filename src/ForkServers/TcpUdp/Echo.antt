-- ===== src/ForkServers/TcpUdp/Echo.antt =====
-- The datagrams of C/select_tcp_udp_server.c and the buffer that they are read into.
use network_pragramming.Prelude.{
  ℕ, zero, suc, ◌+◌, ◌≤◌, ◌≡◌, ◌≢◌, refl, ap, true, false, [], ◌∷◌, ◌++◌, Bytes, codes, length,
  take, drop, replicate, leb, ◌==◌, arith, drop-nil, length-append, length-drop, take_of_length-le,
}
use network_pragramming.Sys.{gave, Call, returns, c_string, overlay}
use network_pragramming.ForkServers.TcpUdp.{udp_part, send_back, echo_back}

-- A text without null bytes.
abbrev pub NoNull : Bytes → Type 0
NoNull [] = Unit
NoNull (b ∷ bytes) = (b ≢ 0) × NoNull bytes

-- The buffer holds `text`, and null bytes behind it; the text leaves room for "ECHO BACK : ".
pub record Holds (text buf : Bytes) : Type 0 where
  pub nulls : ℕ
  pub stored : buf ≡ text ++ (0 ∷ replicate nulls 0)
  pub size : length text + nulls ≡ 255
  pub plain : NoNull text
  pub short : length text ≤ 243

c_string-append : (text rest : Bytes) → NoNull text → c_string (text ++ (0 ∷ rest)) ≡ text
c_string-append [] rest h = refl
c_string-append (b ∷ text) rest (n, h) =
    let live : (b == 0) ≡ false = ground arith in rw (live, c_string-append text rest h) refl

overlay-NoNull : (new old : Bytes) → NoNull new → NoNull old → NoNull (overlay new old)
overlay-NoNull [] old h k = k
overlay-NoNull (b ∷ new) [] (n, h) k =
    (n, rw (drop-nil ℕ (length new)) at (overlay-NoNull new [] h tt))
overlay-NoNull (b ∷ new) (c ∷ old) (n, h) (m, k) = (n, overlay-NoNull new old h k)

overlay-append :
    (new old : Bytes) (k : ℕ)
    → length new ≤ length old + k
    → (j : ℕ) × (overlay new (old ++ (0 ∷ replicate k 0)) ≡ overlay new old ++ (0 ∷ replicate j 0))
      × (length (overlay new old) + j ≡ length old + k)
overlay-append [] old k h = (k, refl, refl)
overlay-append (b ∷ new) [] zero h = absurd (omega arith)
overlay-append (b ∷ new) [] (suc k) h =
    let (j, e, n) = overlay-append new [] k (omega arith) in
    let e' = rw (drop-nil ℕ (length new)) at e in
    let n' = rw (drop-nil ℕ (length new)) at n in (j, ap (λ l. b ∷ l) e', omega arith)
overlay-append (b ∷ new) (c ∷ old) k h =
    let (j, e, n) = overlay-append new old k (omega arith) in (j, ap (λ l. b ∷ l) e, omega arith)

overlay_short :
    (new old : Bytes) → length new ≤ 243 → length old ≤ 243 → length (overlay new old) ≤ 243
overlay_short new old h k =
    omega (arith, length-append new (drop (length new) old), length-drop (length new) old)

Holds-overlay :
    (text buf new : Bytes)
    → Holds text buf
    → NoNull new
    → length new ≤ 243
    → Holds (overlay new text) (overlay new buf)
Holds-overlay text buf new h p s =
    let (j, e, n) = overlay-append new text h.nulls (omega (arith, h.size)) in
    record {
      nulls = j;
      stored = rw h.stored e;
      size = omega (arith, n, h.size);
      plain = overlay-NoNull new text p h.plain;
      short = overlay_short new text s h.short;
    }

send_back-Holds :
    (udpfd : ℕ) (text buf : Bytes)
    → Holds text buf
    → send_back udpfd buf ≡ returns (Call.send_to udpfd (echo_back text) ∷ []) buf
unfolding send_back
send_back-Holds udpfd text buf h =
    let same : c_string buf ≡ text =
      rw h.stored (c_string-append text (replicate h.nulls 0) h.plain) in
    let fits : leb (length (echo_back text) + 1) 256 ≡ true =
      ground (arith, length-append (codes "ECHO BACK : ") text, h.short) in
    rw (same, fits) refl

-- A datagram of at most 243 bytes, none of them null, is sent back behind "ECHO BACK : ", with
-- what an older, longer text in the buffer has behind its length; and the buffer holds that text
-- again, so that this is so for the datagrams that follow.
pub udp_part-echoes :
    (udpfd : ℕ) (text buf new : Bytes)
    → Holds text buf
    → NoNull new
    → length new ≤ 243
    → (udp_part udpfd buf (gave new)
        ≡ returns
            (Call.recv_from udpfd 256 ∷ Call.send_to udpfd (echo_back (overlay new text)) ∷ [])
            (overlay new buf))
      × Holds (overlay new text) (overlay new buf)
unfolding udp_part
udp_part-echoes udpfd text buf new h p s =
    let holds = Holds-overlay text buf new h p s in
    let all : take 256 new ≡ new = take_of_length-le 256 new (omega arith) in
    (rw (all, send_back-Holds udpfd (overlay new text) (overlay new buf) holds) refl, holds)

-- The buffer of nulls before the first datagram.
pub first-Holds : Holds [] (replicate 256 0)
first-Holds = record { nulls = 255; stored = refl; size = refl; plain = tt; short = omega arith }

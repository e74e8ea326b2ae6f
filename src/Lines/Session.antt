-- ===== src/Lines/Session.antt =====
-- C/basic_tcp_client.c talking to C/basic_tcp_server.c.
use network_pragramming.Prelude.{concat, ℕ, ◌≡◌, ap, ◌∙◌, List, [], ◌∷◌, Bytes, append-nil}
use network_pragramming.Sys.{Call, returns, trace}
use network_pragramming.Sys.Trace.{writes_to, writes_to-append, printed}
use network_pragramming.ForkServers.Loop
use network_pragramming.ForkServers.Loop.{chunks, AllWritten, closed}
use network_pragramming.ForkServers.Echo.{str_echo}
use network_pragramming.ForkServers.Echo.Echoes.{str_echo-echoes}
use network_pragramming.Lines.Clients.{Turn, tcp_client, asks}
use network_pragramming.Lines.Clients.Echoed.{lines, AllTyped, Replies, asks_echoed}

-- What str_echo of the server writes.
echoed :
    (fd : ℕ) (us : List Loop.Turn) (ls : List Bytes)
    → AllWritten us
    → chunks 255 us ≡ (ls, closed)
    → writes_to fd (trace (str_echo fd us)) ≡ ls
echoed fd us ls w e =
    let (cs, run, out, none) = str_echo-echoes fd us w (ap (λ p. p.1) e) in
    rw (run, writes_to-append fd cs (Call.read fd 255 ∷ Call.received fd [] ∷ Call.close fd ∷ []))
      (append-nil (writes_to fd cs) ∙ out ∙ ap (λ p. p.0) e)

-- If each line arrives at the server in one read, and what the server writes for it in one read at
-- the client, and no write fails, then the client sends the lines that are typed, prints them
-- again, in order and nothing else, and returns.
pub asks-str_echo :
    (fd connfd : ℕ) (ts : List Turn) (us : List Loop.Turn)
    → AllTyped ts
    → AllWritten us
    → chunks 255 us ≡ (lines ts, closed)
    → Replies ts (writes_to connfd (trace (str_echo connfd us)))
    → (cs : List Call) × (asks tcp_client fd ts ≡ returns cs tt)
      × (writes_to fd cs ≡ lines ts)
      × (printed cs ≡ concat (lines ts))
asks-str_echo fd connfd ts us h w e r =
    asks_echoed fd ts h (rw (echoed connfd us (lines ts) w e) at r)

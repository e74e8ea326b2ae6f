-- ===== src/Daytime/Addresses.antt =====
-- The loops over the addresses of getaddrinfo, which tcp_listen, udp_server and tcp_connect have
-- in common: `while (NULL != res) { socket …; if (… < 0) continue; …; res = res->ai_next; }`.
use network_pragramming.Prelude.{ℕ, Bool, true, false, List, [], ◌∷◌}
use network_pragramming.Sys.{Answer, failed, gave, Call, Prog, returns, waits, after, ◌>>=◌}

-- An address, with what socket answers at each try on it, and what setsockopt and then bind, or
-- connect, answer on the new socket.
pub record Address : Type 0 where
  pub sockets : List (Answer ℕ)
  pub reuse : Answer (Unit {0})
  pub joined : Answer (Unit {0})

-- getaddrinfo finds one address at least, or fails.
pub record Found : Type 0 where
  pub first : Address
  pub others : List Address

-- `continue` does not advance `res`, so socket is tried again for the same address.
unfoldable pub try_socket : List (Answer ℕ) → Prog ℕ
try_socket [] = waits (Call.socket ∷ [])
try_socket (failed e ∷ rest) = after (Call.socket ∷ []) (try_socket rest)
try_socket (gave fd ∷ rest) = returns (Call.socket ∷ []) fd

-- The break, or close and the next address.
unfoldable pub decide : Bool → ℕ → Prog (ℕ × Bool) → Prog (ℕ × Bool)
decide true fd later = returns [] (fd, true)
decide false fd later = after (Call.close fd ∷ []) later

-- The loop, where `fd` is the last socket; it stays the result when all addresses fail. `join` is
-- the part between socket and the break, and tells whether the loop breaks.
unfoldable pub search_list : (Address → ℕ → Prog Bool) → ℕ → List Address → Prog (ℕ × Bool)
unfolding try_socket decide
search_list join fd [] = returns [] (fd, false)
search_list join fd (a ∷ rest) = do
  d ← try_socket a.sockets
  joined ← join a d
  decide joined d (search_list join d rest)

-- The loop over all addresses. With one address at least, the 0 is never looked at.
unfoldable pub search_found : (Address → ℕ → Prog Bool) → Found → Prog (ℕ × Bool)
unfolding search_list
search_found join found = search_list join 0 (found.first ∷ found.others)

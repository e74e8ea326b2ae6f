-- ===== src/Http/Tests.antt =====
-- The HTTP client on concrete requests.
use network_pragramming.Prelude.{◌<◌, ◌≡◌, ◌↔◌, refl, List, [], ◌∷◌, ◌++◌, length, codes, arith}
use network_pragramming.Decimal.{decimal}
use network_pragramming.Sys.{gave, Call, returns, exits}
use network_pragramming.Http.Request.{Args, message_size, message}
use network_pragramming.Http.Request.Fits.{IsBare, message-fits}
use network_pragramming.Http.Transfer.{Answers, exchange, http_client, response_size, printed_text}
use network_pragramming.Http.Transfer.Send.{delivered}
use network_pragramming.Http.Transfer.Receive.{stream, exchange_complete}
use network_pragramming.Http.Transfer.Total.{exchange_total}

abbrev get_page : Args
get_page = record {
  method = codes "GET";
  path = codes "/a";
  extra = codes "x=1" ∷ codes "A: b" ∷ [];
}

get_page_text : message get_page ≡ codes "GET /a?x=1 HTTP/1.0\r\nA: b\r\n\r\n"
unfolding message
get_page_text = refl

abbrev post_form : Args
post_form = record { method = codes "POST"; path = []; extra = codes "k=v" ∷ codes "A: b" ∷ [] }

post_form_text : message post_form ≡ codes "POST / HTTP/1.0\r\nA: b\r\nContent-Length: 3\r\n\r\nk=v"
unfolding message decimal
post_form_text = refl

abbrev bare : Args
bare = record { method = []; path = codes "/a"; extra = [] }

-- 22 bytes with the null byte, in a space of 20.
bare_overflows : (length (message bare) ≡ 20) × (message_size bare ≡ 20)
unfolding message message_size
bare_overflows = (refl, refl)

message-fits_example :
    (length (message post_form) < message_size post_form) ↔ (¬ (IsBare post_form))
message-fits_example = message-fits post_form (omega arith)

abbrev answers : Answers
answers = record {
  socket = gave 3;
  host = gave (127 ∷ 0 ∷ 0 ∷ 1 ∷ []);
  connected = gave tt;
  writes = gave 2 ∷ gave 5 ∷ [];
  reads = gave (codes "ok") ∷ gave (codes "!") ∷ gave [] ∷ [];
}

abbrev calls : List Call
calls =
    Call.socket
    ∷ Call.resolve (codes "h")
    ∷ Call.connect 3
    ∷ Call.write 3 (codes "ab")
    ∷ Call.read 3 4095
    ∷ Call.read 3 4093
    ∷ Call.read 3 4092
    ∷ Call.close 3
    ∷ Call.put (codes "\nResponse:\nok!\n")
    ∷ []

exchange_runs : exchange (codes "h") (codes "ab") answers ≡ returns calls (codes "ok!")
unfolding exchange
exchange_runs = refl

exchange_complete_example :
    (codes "ok!" ≡ stream answers.reads)
    × (length (codes "ok!") < response_size)
    × ((ds : List Call) × (calls
          ≡ ds ++ (Call.put (codes "\nResponse:\n" ++ codes "ok!" ++ codes "\n") ∷ [])))
exchange_complete_example =
    exchange_complete (codes "h") (codes "ab") answers calls (codes "ok!") (omega arith)
      exchange_runs

exchange_total_example :
    (ws : List Call) × (rs : List Call) × (exchange (codes "h") (codes "ab") answers
      ≡ returns
          (Call.socket
            ∷ Call.resolve (codes "h")
            ∷ Call.connect 3
            ∷ (ws ++ (rs ++ (Call.close 3 ∷ Call.put (printed_text (stream answers.reads)) ∷ []))))
          (stream answers.reads))
    × (delivered ws answers.writes ≡ codes "ab")
exchange_total_example =
    exchange_total (codes "h") (codes "ab") answers 3 (127 ∷ 0 ∷ 0 ∷ 1 ∷ []) refl refl refl
      (omega arith) (omega arith) (omega arith) tt (omega arith)

no_arguments : (a : Answers) → http_client (codes "h" ∷ codes "80" ∷ []) a ≡ exits [] 1
unfolding http_client
no_arguments a = refl

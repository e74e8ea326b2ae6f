-- ===== src/Http/Request.antt =====
-- C/http_client.c, lines 24-102: the size of the request and its text.
pub mod Fits
use network_pragramming.Prelude.{
  ℕ, zero, suc, ◌+◌, ◌-◌, ◌^◌, ◌≤◌, ◌<◌, ◌≡◌, ◌≢◌, ◌⊎◌, ◌↔◌, inl, inr, refl, sym, ◌∙◌, Bool, true,
  false, List, [], ◌∷◌, ◌++◌, Bytes, length, codes, arith, ltb, if◌then◌else◌, length-append,
  bytes_eq, bytes_eq_iff, append_assoc, Bool-cases,
}
use network_pragramming.Decimal.{decimal, length-decimal}

-- argv[3], argv[4] and argv[5], argv[6], ...; so argc is 5 + length extra.
pub record Args : Type 0 where
  pub method : Bytes
  pub path : Bytes
  pub extra : List Bytes

abbrev pub crlf : Bytes
crlf = codes "\r\n"

-- !strcmp(argv[3], "GET")
abbrev pub is_get : Bytes → Bool
is_get m = bytes_eq m (codes "GET")

-- The loop over argv[6], argv[7], ... that adds strlen(argv[i]) + strlen("\r\n").
pub headers_size : List Bytes → ℕ
headers_size [] = 0
headers_size (h ∷ hs) = length h + length crlf + headers_size hs

get_size : Args → List Bytes → ℕ
get_size a [] =
    length (codes "%s %s%s%s HTTP/1.0\r\n") + length a.method + length a.path + length crlf
get_size a (q ∷ hs) =
    length (codes "%s %s%s%s HTTP/1.0\r\n")
    + length a.method
    + length a.path
    + length q
    + headers_size hs
    + length crlf

other_size : Args → List Bytes → ℕ
other_size a [] =
    length (codes "%s %s HTTP/1.0\r\n") + length a.method + length a.path + length crlf
other_size a (b ∷ hs) =
    length (codes "%s %s HTTP/1.0\r\n")
    + length a.method
    + length a.path
    + headers_size hs
    + (length (codes "Content-Length: %d\r\n") + 10)
    + length crlf
    + length b

-- The argument of malloc.
unfoldable pub message_size : Args → ℕ
unfolding get_size other_size headers_size
message_size a = if is_get a.method then get_size a a.extra else other_size a a.extra

-- strlen(s) > 0 ? s : d
pub or_default : Bytes → Bytes → Bytes
or_default [] d = d
or_default (c ∷ s) d = c ∷ s

-- The strcat loops over argv[6], argv[7], ...
pub headers_text : List Bytes → Bytes
headers_text [] = []
headers_text (h ∷ hs) = h ++ (crlf ++ headers_text hs)

request_line : Bytes → Bytes → Bytes
request_line m target = m ++ (codes " " ++ (target ++ codes " HTTP/1.0\r\n"))

-- strlen(argv[5]) > 0 ? "?" : "", then argv[5]
query_text : Bytes → Bytes
query_text [] = []
query_text (c ∷ q) = b'?' ∷ c ∷ q

get_message : Args → List Bytes → Bytes
get_message a [] =
    request_line (or_default a.method (codes "GET")) (or_default a.path (codes "/")) ++ crlf
get_message a (q ∷ hs) =
    request_line (or_default a.method (codes "GET")) (or_default a.path (codes "/") ++ query_text q)
    ++ (headers_text hs ++ crlf)

other_message : Args → List Bytes → Bytes
other_message a [] =
    request_line (or_default a.method (codes "POST")) (or_default a.path (codes "/")) ++ crlf
other_message a (b ∷ hs) =
    request_line (or_default a.method (codes "POST")) (or_default a.path (codes "/"))
    ++ (headers_text hs
        ++ (codes "Content-Length: " ++ (decimal (length b) ++ (crlf ++ (crlf ++ b)))))

-- The text in `message` when it is complete, without its terminating null byte.
unfoldable pub message : Args → Bytes
unfolding or_default headers_text request_line query_text get_message other_message
message a = if is_get a.method then get_message a a.extra else other_message a a.extra

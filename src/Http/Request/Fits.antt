-- ===== src/Http/Request/Fits.antt =====
-- C/http_client.c: whether the request fits the space that the program allocates for it.
use network_pragramming.Prelude.{
  ℕ, ◌+◌, ◌^◌, ◌≤◌, ◌<◌, ◌≡◌, ◌≢◌, ◌⊎◌, ◌↔◌, inl, inr, refl, List, [], ◌∷◌, ◌++◌, Bytes, length,
  codes, arith, length-append, Bool-cases,
}
use network_pragramming.Decimal.{length-decimal}
use network_pragramming.Http.Request.{
  Args, crlf, is_get, headers_size, get_size, other_size, message_size, or_default, headers_text,
  request_line, query_text, get_message, other_message, message,
}

abbrev args : Bytes → Bytes → List Bytes → Args
args m p extra = record { method = m; path = p; extra = extra }

length-headers_text : (hs : List Bytes) → length (headers_text hs) ≡ headers_size hs
unfolding headers_text headers_size
length-headers_text [] = refl
length-headers_text (h ∷ hs) = omega (
  arith,
  length-append h (crlf ++ headers_text hs),
  length-append crlf (headers_text hs),
  length-headers_text hs,
)

length-request_line : (m t : Bytes) → length (request_line m t) ≡ length m + length t + 12
unfolding request_line
length-request_line m t = omega (
  arith,
  length-append m (codes " " ++ (t ++ codes " HTTP/1.0\r\n")),
  length-append t (codes " HTTP/1.0\r\n"),
)

length-or_default : (s d : Bytes) → length (or_default s d) ≤ length s + length d
unfolding or_default
length-or_default [] d = omega arith
length-or_default (c ∷ s) d = omega arith

length-query_text : (q : Bytes) → length (query_text q) ≤ length q + 1
unfolding query_text
length-query_text [] = omega arith
length-query_text (c ∷ q) = omega arith

ruleset lengths =
    (arith, length-headers_text, length-request_line, length-or_default, length-query_text)

get-fits : (a : Args) (extra : List Bytes) → length (get_message a extra) < get_size a extra
unfolding get_message get_size
get-fits a [] = omega (lengths, length-append {0} {A = ℕ})
get-fits a (q ∷ hs) = omega (lengths, length-append {0} {A = ℕ})

body-fits :
    (a : Args) (b : Bytes) (hs : List Bytes)
    → length b < 10 ^ 10
    → length (other_message a (b ∷ hs)) < other_size a (b ∷ hs)
unfolding other_message other_size
body-fits a b hs h = omega (lengths, length-append {0} {A = ℕ}, length-decimal 9 (length b) h)

-- With no argument behind the path, other methods than GET fit unless the method is empty.
bare-fits :
    (m p : Bytes) → let a = args m p [] in m ≢ [] → length (other_message a []) < other_size a []
unfolding other_message other_size or_default
bare-fits [] p h = absurd (h refl)
bare-fits (c ∷ m) p h = omega (lengths, length-append {0} {A = ℕ})

bare_overflows : (p : Bytes) → let a = args [] p [] in other_size a [] ≤ length (other_message a [])
unfolding other_message other_size or_default
bare_overflows [] = omega (lengths, length-append {0} {A = ℕ})
bare_overflows (c ∷ p) = omega (lengths, length-append {0} {A = ℕ})

-- argv[5] as the body, where it is given.
abbrev pub body : List Bytes → Bytes
body [] = []
body (b ∷ hs) = b

-- No argument behind the path, and an empty method.
abbrev pub IsBare : Args → Type 0
IsBare a = (a.extra ≡ []) × (a.method ≡ [])

fits_cases :
    (m p : Bytes) (extra : List Bytes)
    → let a = args m p extra in
      length (body extra) < 10 ^ 10
      → (IsBare a × (message_size a ≤ length (message a)))
        ⊎ (¬ (IsBare a) × (length (message a) < message_size a))
unfolding message message_size
fits_cases [] p [] h = inl ((refl, refl), bare_overflows p)
fits_cases (c ∷ m) p [] h = elim (Bool-cases (is_get (c ∷ m))) [
  | inl g ↦ inr (ground arith, rw g (get-fits (args (c ∷ m) p []) []))
  | inr g ↦ inr (ground arith, rw g (bare-fits (c ∷ m) p (ground arith)))
]
fits_cases m p (b ∷ hs) h = elim (Bool-cases (is_get m)) [
  | inl g ↦ inr (ground arith, rw g (get-fits (args m p (b ∷ hs)) (b ∷ hs)))
  | inr g ↦ inr (ground arith, rw g (body-fits (args m p (b ∷ hs)) b hs h))
]

-- The request with its terminating null byte fits the allocated space exactly when some argument
-- stands behind the path or the method is not empty, for a body of less than 10 ^ 10 bytes.
pub message-fits :
    (a : Args)
    → length (body a.extra) < 10 ^ 10
    → (length (message a) < message_size a) ↔ (¬ (IsBare a))
message-fits a h = elim (fits_cases a.method a.path a.extra h) [
  | inl (bare, over) ↦ (λ f. absurd (omega arith), λ n. absurd (n bare))
  | inr (n, f) ↦ (λ _. n, λ _. f)
]

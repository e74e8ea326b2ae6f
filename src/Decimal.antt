-- ===== src/Decimal.antt =====
-- The decimal print of a number, as sprintf writes it for %d and %ld.
use network_pragramming.Prelude.{
  ℕ, zero, suc, ◌+◌, ◌*◌, ◌/◌, ◌%◌, ◌^◌, ◌≤◌, ◌<◌, ◌≡◌, refl, [], ◌∷◌, Bytes, length, codes, arith,
  ltb, leb, if◌then◌else◌, ◌-◌, Bool, ◌&&◌, false, ◌++◌,
}
use native.Mathlib.Nat.{pow-suc}

-- The digits of `n` in front of `out`; the fuel bounds their number.
unfoldable pub digits : ℕ → ℕ → Bytes → Bytes
digits zero n out = out
digits (suc f) n out =
    let more = digits f (n / 10) ((b'0' + n % 10) ∷ out) in
    if ltb n 10 then (b'0' + n) ∷ out else more

-- A 64-bit number has at most 20 digits.
unfoldable pub decimal : ℕ → Bytes
unfolding digits
decimal n = digits 20 n []

decimal_test : decimal 1024 ≡ codes "1024"
unfolding decimal
decimal_test = refl

div-lt-pow : (k n : ℕ) → n < 10 ^ suc k → n / 10 < 10 ^ k
div-lt-pow k n h = let e : 10 ^ suc k ≡ 10 ^ k * 10 = pow-suc 10 k in omega arith

-- A number below 10 ^ (k + 1) has at most k + 1 digits.
length-digits :
    (k f n : ℕ) (out : Bytes) → n < 10 ^ suc k → length (digits f n out) ≤ suc k + length out
unfolding digits
length-digits k zero n out h = omega arith
length-digits zero (suc f) n out h = ground arith
length-digits (suc k) (suc f) n out h =
    ground (arith, length-digits k f (n / 10) ((b'0' + n % 10) ∷ out) (div-lt-pow (suc k) n h))

-- A number below 10 ^ (k + 1) is printed in at most k + 1 bytes.
pub length-decimal : (k n : ℕ) → n < 10 ^ suc k → length (decimal n) ≤ suc k
unfolding decimal
length-decimal k n h = omega (arith, length-digits k 20 n [] h)

is_digit : ℕ → Bool
is_digit c = leb b'0' c && leb c b'9'

atoi_from : ℕ → Bytes → ℕ
atoi_from n [] = n
atoi_from n (c ∷ s) = let more = atoi_from (n * 10 + (c - b'0')) s in if is_digit c then more else n

-- atoi, on a text that begins with a digit: the number that its first digits spell.
unfoldable pub atoi : Bytes → ℕ
unfolding is_digit atoi_from
atoi s = atoi_from 0 s

-- Scanning the last digit after the digits before it.
atoi_last : (n : ℕ) (out : Bytes) → atoi_from (n / 10) ((b'0' + n % 10) ∷ out) ≡ atoi_from n out
unfolding atoi_from is_digit
atoi_last n out = ground arith

-- A number of one digit.
atoi_first : (n : ℕ) (out : Bytes) → n < 10 → atoi_from 0 ((b'0' + n) ∷ out) ≡ atoi_from n out
unfolding atoi_from is_digit
atoi_first n out h = ground arith

atoi_stop :
    (n c : ℕ) (rest : Bytes) → (leb b'0' c && leb c b'9') ≡ false → atoi_from n (c ∷ rest) ≡ n
unfolding atoi_from is_digit
atoi_stop n c rest d = rw d refl

atoi-digits :
    (k f n : ℕ) (out : Bytes)
    → n < 10 ^ suc k
    → k < f
    → atoi_from 0 (digits f n out) ≡ atoi_from n out
unfolding digits
atoi-digits k zero n out h l = absurd (omega arith)
atoi-digits zero (suc f) n out h l = ground (arith, atoi_first n out)
atoi-digits (suc k) (suc f) n out h l = ground (
  arith,
  atoi_first n out,
  atoi-digits k f (n / 10) ((b'0' + n % 10) ∷ out) (div-lt-pow (suc k) n h) (omega arith),
  atoi_last n out,
)

digits-append : (f n : ℕ) (out rest : Bytes) → digits f n (out ++ rest) ≡ digits f n out ++ rest
unfolding digits
digits-append zero n out rest = refl
digits-append (suc f) n out rest =
    ground (arith, digits-append f (n / 10) ((b'0' + n % 10) ∷ out) rest)

-- What sprintf prints of a number below 10 ^ 20, atoi reads back, whatever non-digit follows it.
pub atoi-decimal :
    (n c : ℕ) (rest : Bytes)
    → n < 10 ^ 20
    → (leb b'0' c && leb c b'9') ≡ false
    → atoi (decimal n ++ (c ∷ rest)) ≡ n
unfolding atoi decimal
atoi-decimal n c rest h d = ground (
  arith,
  digits-append 20 n [] (c ∷ rest),
  atoi-digits 19 20 n (c ∷ rest) h (omega arith),
  atoi_stop n c rest d,
)

-- The same of the text alone.
pub atoi-decimal_alone : (n : ℕ) → n < 10 ^ 20 → atoi (decimal n) ≡ n
unfolding atoi decimal
atoi-decimal_alone n h = atoi-digits 19 20 n [] h (omega arith)

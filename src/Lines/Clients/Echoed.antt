-- ===== src/Lines/Clients/Echoed.antt =====
-- C/basic_tcp_client.c with a server that sends each line back.
use network_pragramming.Prelude.{
  concat, ℕ, ◌<◌, ◌≤◌, ◌≡◌, refl, ap, true, Bool-cases, inl, inr, List, [], ◌∷◌, ◌++◌, Bytes,
  length, ltb, ◌==◌, if◌then◌else◌, arith, take_of_length-le,
}
use network_pragramming.Sys.{gave, Call, returns, exits, c_string}
use network_pragramming.Sys.Trace.{writes_to, printed}
use network_pragramming.Lines.Clients.{
  Turn, tcp_client, ask, asks, sent_case, reply_case, shown, print_reply,
}

-- The lines that the client sends.
abbrev pub lines : List Turn → List Bytes
lines [] = []
lines (t ∷ ts) = c_string t.line ∷ lines ts

-- fgets stores at least one byte and at most 255, and the write succeeds.
pub record Typed (t : Turn) : Type 0 where
  pub taken : ℕ
  pub writes : t.sent ≡ gave taken
  pub some_bytes : 0 < length (c_string t.line)
  pub short : length (c_string t.line) ≤ 255

abbrev pub AllTyped : List Turn → Type 0
AllTyped [] = Unit
AllTyped (t ∷ ts) = Typed t × AllTyped ts

-- The client's reads store these texts.
abbrev pub Replies : List Turn → List Bytes → Type 0
Replies [] [] = Unit
Replies [] (r ∷ rs) = ⊥
Replies (t ∷ ts) [] = ⊥
Replies (t ∷ ts) (r ∷ rs) = (t.reply ≡ gave r) × Replies ts rs

c_string_idem : (bytes : Bytes) → c_string (c_string bytes) ≡ c_string bytes
c_string_idem [] = refl
c_string_idem (b ∷ bytes) = elim (Bool-cases (b == 0)) [
  | inl e ↦ rw e refl
  | inr e ↦ rw (e, e, c_string_idem bytes) refl
]

shown_line :
    (fd : ℕ) (r : Bytes)
    → 0 < length r
    → length r ≤ 255
    → c_string r ≡ r
    → shown tcp_client fd r ≡ returns (Call.put r ∷ []) tt
unfolding shown print_reply
shown_line fd [] n h e = absurd (omega arith)
shown_line fd (b ∷ r) n h e =
    let fits : ltb (length (b ∷ r)) 256 ≡ true = ground arith in
    let run : (if ltb (length (c_string (b ∷ r))) 256
          then returns (Call.put (c_string (b ∷ r)) ∷ []) tt
          else exits [] 134)
        ≡ returns (Call.put (b ∷ r) ∷ []) tt =
      rw (e, fits) refl in
    run

ask_echoed :
    (fd : ℕ) (t : Turn)
    → Typed t
    → t.reply ≡ gave (c_string t.line)
    → ask tcp_client fd t
      ≡ returns
          (Call.write fd (c_string t.line)
            ∷ Call.read fd 255
            ∷ Call.received fd (c_string t.line)
            ∷ Call.put (c_string t.line)
            ∷ [])
          tt
unfolding ask sent_case reply_case
ask_echoed fd t y e =
    rw
      (
        y.writes,
        e,
        take_of_length-le 255 (c_string t.line) y.short,
        shown_line fd (c_string t.line) y.some_bytes y.short (c_string_idem t.line),
      )
      refl

pub asks_echoed :
    (fd : ℕ) (ts : List Turn)
    → AllTyped ts
    → Replies ts (lines ts)
    → (cs : List Call) × (asks tcp_client fd ts ≡ returns cs tt)
      × (writes_to fd cs ≡ lines ts)
      × (printed cs ≡ concat (lines ts))
unfolding asks
asks_echoed fd [] h r = ([], refl, refl, refl)
asks_echoed fd (t ∷ ts) (y, h) (e, r) =
    let (cs, run, out, shows) = asks_echoed fd ts h r in
    (
      Call.write fd (c_string t.line)
          ∷ Call.read fd 255
          ∷ Call.received fd (c_string t.line)
          ∷ Call.put (c_string t.line)
          ∷ cs,
      rw (ask_echoed fd t y e, run) refl,
      ground (arith, out),
      ap (λ l. c_string t.line ++ l) shows,
    )

-- ===== src/Sys/Rules.antt =====
-- Rules on what a program returns, however its calls are answered.
use network_pragramming.Prelude.{refl, ap, sym, append_assoc, List, [], ◌++◌, ◌≡◌}
use network_pragramming.Sys.{Call, Prog, after, trace, ◌>>=◌, returns, exits, waits}

-- `Q` holds of what the program returns, if it returns.
abbrev pub Post : {A : Type 0} → (A → Type 0) → Prog A → Type 0
Post Q (returns cs a) = Q a
Post Q (exits cs n) = Unit
Post Q (waits cs) = Unit

pub Post-after :
    {A : Type 0} (Q : A → Type 0) (cs : List Call) (p : Prog A) → Post Q p → Post Q (after cs p)
Post-after Q cs (returns ds a) h = h
Post-after Q cs (exits ds n) h = tt
Post-after Q cs (waits ds) h = tt

pub Post-bind :
    {A B : Type 0} (P : A → Type 0) (Q : B → Type 0) (m : Prog A) (f : A → Prog B)
    → Post P m
    → ((a : A) → P a → Post Q (f a))
    → Post Q (m >>= f)
Post-bind P Q (returns cs a) f h k = Post-after Q cs (f a) (k a h)
Post-bind P Q (exits cs n) f h k = tt
Post-bind P Q (waits cs) f h k = tt

-- A step of which nothing has to be known.
pub Post-skip :
    {A B : Type 0} (Q : B → Type 0) (m : Prog A) (f : A → Prog B)
    → ((a : A) → Post Q (f a))
    → Post Q (m >>= f)
Post-skip Q (returns cs a) f k = Post-after Q cs (f a) (k a)
Post-skip Q (exits cs n) f k = tt
Post-skip Q (waits cs) f k = tt

pub Post-imp :
    {A : Type 0} (P Q : A → Type 0) (p : Prog A) → Post P p → ((a : A) → P a → Q a) → Post Q p
Post-imp P Q (returns cs a) h k = k a h
Post-imp P Q (exits cs n) h k = tt
Post-imp P Q (waits cs) h k = tt

pub Post-returns :
    {A : Type 0} (Q : A → Type 0) (p : Prog A) (cs : List Call) (a : A)
    → Post Q p
    → p ≡ returns cs a
    → Q a
Post-returns Q p cs a h e = rw e at h

-- After the calls `cs`, the program ends with `Q` of all calls and its value, or stops with `E` of
-- all calls.
abbrev pub Ensures :
    {A : Type 0} → List Call → (List Call → A → Type 0) → (List Call → Type 0) → Prog A → Type 0
Ensures cs Q E (returns ds a) = Q (cs ++ ds) a
Ensures cs Q E (exits ds n) = E (cs ++ ds)
Ensures cs Q E (waits ds) = E (cs ++ ds)

pub Ensures-after :
    {A : Type 0} (Q : List Call → A → Type 0) (E : List Call → Type 0) (cs ds : List Call)
    (p : Prog A)
    → Ensures (cs ++ ds) Q E p
    → Ensures cs Q E (after ds p)
Ensures-after Q E cs ds (returns es a) h = rw (append_assoc cs ds es) at h
Ensures-after Q E cs ds (exits es n) h = rw (append_assoc cs ds es) at h
Ensures-after Q E cs ds (waits es) h = rw (append_assoc cs ds es) at h

pub Ensures-bind :
    {A B : Type 0} (P : List Call → A → Type 0) (Q : List Call → B → Type 0)
    (E : List Call → Type 0) (cs : List Call) (m : Prog A) (f : A → Prog B)
    → Ensures cs P E m
    → ((ds : List Call) (a : A) → P ds a → Ensures ds Q E (f a))
    → Ensures cs Q E (m >>= f)
Ensures-bind P Q E cs (returns ds a) f h k = Ensures-after Q E cs ds (f a) (k (cs ++ ds) a h)
Ensures-bind P Q E cs (exits ds n) f h k = h
Ensures-bind P Q E cs (waits ds) f h k = h

-- What holds however the program ends, holds of its trace.
pub Ensures-trace :
    {A : Type 0} (E : List Call → Type 0) (p : Prog A) → Ensures [] (λ ds _. E ds) E p → E (trace p)
Ensures-trace E (returns ds a) h = h
Ensures-trace E (exits ds n) h = h
Ensures-trace E (waits ds) h = h

-- Calls in front of calls.
pub after-append :
    {A : Type 0} (cs ds : List Call) (p : Prog A) → after cs (after ds p) ≡ after (cs ++ ds) p
after-append cs ds (returns es a) = ap (λ l. returns l a) (sym (append_assoc cs ds es))
after-append cs ds (exits es n) = ap (λ l. exits l n) (sym (append_assoc cs ds es))
after-append cs ds (waits es) = ap waits (sym (append_assoc cs ds es))

pub after-nil : {A : Type 0} (p : Prog A) → after [] p ≡ p
after-nil (returns es a) = refl
after-nil (exits es n) = refl
after-nil (waits es) = refl

pub trace-after : {A : Type 0} (cs : List Call) (p : Prog A) → trace (after cs p) ≡ cs ++ trace p
trace-after cs (returns es a) = refl
trace-after cs (exits es n) = refl
trace-after cs (waits es) = refl

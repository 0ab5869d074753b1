-- ===== src/Daemon/Answered.antt =====
-- What a client is answered that asks for an image.
use mathlib.Core.List.{reverse-append, reverse-reverse}
use bb_action_router.Base.{
  Text, codes, same, strip_prefix, ℕ, zero, suc, ◌+◌, ◌<◌, ◌≡◌, refl, sym, ap, subst, ◌∙◌, ◌≢◌, inl,
  inr, Bool, true, false, ◌&&◌, ◌||◌, none, some, List, [], ◌∷◌, ◌++◌, map, reverse, arith, ltb,
  leb, ◌==◌, ==_iff, Bool-cases, length, length-append, All, All-append,
}
use bb_action_router.Status.{Error, Result, ok, err}
use bb_action_router.Router.Template.{spaces, strip_one, trim_left, trim_space}
use bb_action_router.Daemon.Connection.{
  Roots, read_string, split_two, parse_request, answer, serve, serve_line, handle_connection,
}

-- Bytes of printed ASCII characters without the space.
abbrev pub IsPlain : Text → Type 0
IsPlain = All (λ c. (32 < c) × (c < 127))

abbrev IsPrinted : Text → Type 0
IsPrinted = All (λ c. (31 < c) × (c < 127))

not_same : (c d : ℕ) → c ≢ d → (c == d) ≡ false
not_same c d n = elim (Bool-cases (c == d)) [ inl t ↦ absurd (n ((==_iff c d).0 t)) | inr f ↦ f ]

read_string-line :
    (line rest : Text)
    → IsPrinted line
    → read_string (line ++ (codes "\n" ++ rest)) ≡ some (line ++ codes "\n")
unfolding read_string
read_string-line [] rest h = refl
read_string-line (c ∷ line) rest h =
    rw (read_string-line line rest h.1, not_same c b'\n' (λ e. omega (arith, h.0, e))) refl

split_two-word :
    (word rest : Text) → IsPlain word → split_two (word ++ (codes " " ++ rest)) ≡ (word, some rest)
unfolding split_two
split_two-word [] rest h = refl
split_two-word (c ∷ word) rest h =
    rw (split_two-word word rest h.1, not_same c b' ' (λ e. omega (arith, h.0, e))) refl

-- No prefix begins with a printed character but the space.
abbrev blank : List Text → Bool
blank [] = true
blank ([] ∷ ps) = false
blank ((c ∷ cs) ∷ ps) = (leb c 32 || leb 127 c) && blank ps

strip_one-plain :
    (ps : List Text) (c : ℕ) (s : Text)
    → blank ps ≡ true
    → 32 < c
    → c < 127
    → strip_one ps (c ∷ s) ≡ none
unfolding strip_one strip_prefix
strip_one-plain [] c s e h k = refl
strip_one-plain ([] ∷ ps) c s e h k = cc e
strip_one-plain ((x ∷ xs) ∷ ps) c s e h k =
    rw (not_same x c (λ f. ground arith)) (strip_one-plain ps c s (ground arith) h k)

trim_left-still :
    (ps : List Text) (fuel : ℕ) (s : Text) → strip_one ps s ≡ none → trim_left ps fuel s ≡ s
unfolding trim_left
trim_left-still ps zero s e = refl
trim_left-still ps (suc fuel) s e = rw (e, trim_left) refl

last_plain :
    (s : Text)
    → IsPlain s
    → s ≢ []
    → (front : Text) × (c : ℕ) × (s ≡ front ++ (c ∷ [])) × (32 < c) × (c < 127)
last_plain [] h n = absurd (n refl)
last_plain (c ∷ []) h n = ([], c, refl, h.0.0, h.0.1)
last_plain (c ∷ d ∷ s) h n =
    let (front, x, e, low, high) = last_plain (d ∷ s) h.1 (λ f. cc f) in
    (c ∷ front, x, ap (◌∷◌ c) e, low, high)

newline_gone : (t : Text) → strip_one (map reverse spaces) (b'\n' ∷ t) ≡ some t
unfolding strip_one strip_prefix
newline_gone t = refl

trim_newline :
    (fuel c : ℕ) (t : Text)
    → 32 < c
    → c < 127
    → trim_left (map reverse spaces) (fuel + 1) (b'\n' ∷ c ∷ t) ≡ c ∷ t
unfolding trim_left
trim_newline fuel c t low high =
    let one : fuel + 1 ≡ suc fuel = omega arith in
    let gone : strip_one (map reverse spaces) (b'\n' ∷ c ∷ t) ≡ some (c ∷ t) =
      newline_gone (c ∷ t) in
    rw (one, gone, trim_left)
      (trim_left-still (map reverse spaces) fuel (c ∷ t)
        (strip_one-plain (map reverse spaces) c t refl low high))

-- The newline behind a request is all that is trimmed.
trim_space-request :
    (front : Text) (c a : ℕ) (s : Text)
    → 32 < c
    → c < 127
    → 32 < a
    → a < 127
    → front ++ (c ∷ []) ≡ a ∷ s
    → trim_space ((front ++ (c ∷ [])) ++ codes "\n") ≡ front ++ (c ∷ [])
unfolding trim_space
trim_space-request front c a s low high low_a high_a e =
    let line = front ++ (c ∷ []) in
    let whole = line ++ codes "\n" in
    let starts : strip_one spaces whole ≡ none =
      subst (λ t. strip_one spaces (t ++ codes "\n") ≡ none) (sym e)
        (strip_one-plain spaces a (s ++ codes "\n") refl low_a high_a) in
    let turned : reverse whole ≡ b'\n' ∷ (c ∷ reverse front) =
      reverse-append line (codes "\n") ∙ ap (λ t. b'\n' ∷ t) (reverse-append front (c ∷ [])) in
    rw
      (
        trim_left-still spaces (length whole) whole starts,
        turned,
        length-append line (codes "\n"),
        trim_newline (length line) c (reverse front) low high,
      )
      (ap reverse (sym (reverse-append front (c ∷ []))) ∙ reverse-reverse line)

plain-IsPrinted : (s : Text) → IsPlain s → IsPrinted s
plain-IsPrinted [] h = tt
plain-IsPrinted (c ∷ s) h = (omega (arith, h.0), plain-IsPrinted s h.1)

abbrev is_printed : Text → Bool
is_printed [] = true
is_printed (c ∷ s) = (ltb 31 c && ltb c 127) && is_printed s

is_printed-IsPrinted : (s : Text) → is_printed s ≡ true → IsPrinted s
is_printed-IsPrinted [] e = tt
is_printed-IsPrinted (c ∷ s) e = (ground arith, is_printed-IsPrinted s (ground arith))

-- What is left of the request, and the reference in it.
trim_space-acquire :
    (ref : Text)
    → ref ≢ []
    → IsPlain ref
    → trim_space (codes "ACQUIRE " ++ (ref ++ codes "\n")) ≡ codes "ACQUIRE " ++ ref
trim_space-acquire ref some_ref plain =
    let (front, c, e, low, high) = last_plain ref plain some_ref in
    subst (λ t. trim_space (codes "ACQUIRE " ++ (t ++ codes "\n")) ≡ codes "ACQUIRE " ++ t) (sym e)
      (trim_space-request (codes "ACQUIRE " ++ front) c b'A'
        (codes "CQUIRE " ++ (front ++ (c ∷ []))) low high (omega arith) (omega arith) refl)

parse_request-acquire : (ref : Text) → parse_request (codes "ACQUIRE " ++ ref) ≡ some ref
unfolding parse_request split_two same
parse_request-acquire ref = refl

module _ {S : Type 0} (h : Roots S) (meanwhile : S → S) where
  serve_line-acquire :
      (ref : Text) (s : S)
      → ref ≢ []
      → IsPlain ref
      → serve_line h meanwhile (some (codes "ACQUIRE " ++ (ref ++ codes "\n"))) s
        ≡ answer h meanwhile (h.acquire ref s)
  unfolding serve_line serve
  serve_line-acquire ref s some_ref plain =
      rw (trim_space-acquire ref some_ref plain, parse_request-acquire ref) refl

  handle_connection-answer :
      (ref rest : Text) (s : S)
      → ref ≢ []
      → IsPlain ref
      → let a = answer h meanwhile (h.acquire ref s) in
        handle_connection h meanwhile (codes "ACQUIRE " ++ (ref ++ (codes "\n" ++ rest))) s
        ≡ (codes "HI\n" ++ a.0, a.1)
  unfolding handle_connection
  handle_connection-answer ref rest s some_ref plain =
      let line = codes "ACQUIRE " ++ ref in
      let read = read_string-line line rest (
        All-append (λ c. (31 < c) × (c < 127)) (codes "ACQUIRE ") ref
          (is_printed-IsPrinted (codes "ACQUIRE ") refl) (plain-IsPrinted ref plain)) in
      rw (read, serve_line-acquire ref s some_ref plain) refl

  -- The answer for what Acquire returns, and the server in the end.
  pub data Answered : Result (Text × (S → S)) × S → Text × S → Type 0 where
    served :
        (path : Text) (release : S → S) (s : S)
        → Answered
            (ok (path, release), s)
            (codes "HI\nOK " ++ (path ++ codes "\n"), release (meanwhile s))
    failed :
        (e : Error) (s : S)
        → Answered (err e, s) (codes "HI\nERROR " ++ (h.message e ++ codes "\n"), s)

  answer-Answered :
      (r : Result (Text × (S → S)) × S)
      → let a = answer h meanwhile r in Answered r (codes "HI\n" ++ a.0, a.1)
  unfolding answer
  answer-Answered (ok (path, release), s) = served path release s
  answer-Answered (err e, s) = failed e s

  -- A client that asks for a reference, of printed characters without a space and not empty, in the
  -- form of the protocol is greeted and answered what Acquire returns for just that reference,
  -- whatever it sends behind the line. With a path, the release func that came with it has been
  -- called in the end; with an error, the server is as Acquire left it.
  pub handle_connection_lem :
      (ref rest : Text) (s : S)
      → ref ≢ []
      → IsPlain ref
      → Answered
          (h.acquire ref s)
          (handle_connection h meanwhile (codes "ACQUIRE " ++ (ref ++ (codes "\n" ++ rest))) s)
  handle_connection_lem ref rest s some_ref plain =
      subst (λ r. Answered (h.acquire ref s) r)
        (sym (handle_connection-answer ref rest s some_ref plain))
        (answer-Answered (h.acquire ref s))

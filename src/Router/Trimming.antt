-- ===== src/Router/Trimming.antt =====
-- strings.TrimSpace, as truthy calls it: the loop and its fuel.
use mathlib.Core.Path.{ap₂}
use mathlib.Core.Bool.{false≢true}
use mathlib.Core.List.{append_assoc, reverse_aux, reverse-append, reverse-reverse}
use bb_action_router.Base.{
  Text, strip_prefix, ℕ, zero, suc, ◌+◌, ◌≤◌, ◌<◌, ◌≡◌, refl, sym, ap, subst, ◌∙◌, ◌≢◌, inl, inr,
  Bool, true, false, none, some, List, [], ◌∷◌, ◌++◌, map, reverse, arith, ◌==◌, if◌then◌else◌,
  ==_iff, Bool-cases, Option-cases, length, length-append, All,
}
use bb_action_router.Router.Template.{spaces, strip_one, trim_left, trim_space}

abbrev NonEmpty : List Text → Type 0
NonEmpty = All (λ p. p ≢ [])

strip_prefix-append : (p s : Text) → (strip_prefix p s).0 ≡ true → s ≡ p ++ (strip_prefix p s).1
unfolding strip_prefix
strip_prefix-append [] s e = refl
strip_prefix-append (p ∷ ps) [] e = cc e
strip_prefix-append (p ∷ ps) (c ∷ s) e = elim (Bool-cases (p == c)) [
  | inl f ↦ rw f (
      ap₂ (λ x xs. x ∷ xs) (sym ((==_iff p c).0 f))
        (strip_prefix-append ps s
          (subst (λ b. (if b then strip_prefix ps s else (false, c ∷ s)).0 ≡ true) f e)))
  | inr f ↦
      absurd
        (false≢true (subst (λ b. (if b then strip_prefix ps s else (false, c ∷ s)).0 ≡ true) f e))
]

length-non_empty : (p : Text) → p ≢ [] → 0 < length p
length-non_empty [] h = absurd (h refl)
length-non_empty (x ∷ xs) h = omega arith

-- What one round leaves is the text behind something that is not empty.
abbrev Behind : Text → Text → Type 0
Behind s rest = (front : Text) × (s ≡ front ++ rest) × (length rest < length s)

strip_one-Behind :
    (prefixes : List Text) (s rest : Text)
    → NonEmpty prefixes
    → strip_one prefixes s ≡ some rest
    → Behind s rest
unfolding strip_one
strip_one-Behind [] s rest h e = cc e
strip_one-Behind (p ∷ ps) s rest h e = elim (Bool-cases (strip_prefix p s).0) [
  | inl f ↦
      let cut = strip_prefix-append p s f in
      let same_rest : (strip_prefix p s).1 ≡ rest = ground arith in
      let whole : s ≡ p ++ rest = cut ∙ ap (λ x. p ++ x) same_rest in
      (p, whole, ground (arith, ap length whole, length-append p rest, length-non_empty p h.0))
  | inr f ↦ strip_one-Behind ps s rest h.1 (ground arith)
]

-- With prefixes that are not empty, trimming with the length of the text for fuel stops where none
-- of the prefixes is left in front, and drops nothing but a front of the text.
trim_left-stops :
    (prefixes : List Text) (fuel : ℕ) (s : Text)
    → NonEmpty prefixes
    → length s ≤ fuel
    → (strip_one prefixes (trim_left prefixes fuel s) ≡ none)
      × (front : Text) × (s ≡ front ++ trim_left prefixes fuel s)
unfolding trim_left
trim_left-stops prefixes zero s h l = elim (Option-cases (strip_one prefixes s)) [
  | inl e ↦ (e, [], refl)
  | inr (rest, e) ↦
      let cut = strip_one-Behind prefixes s rest h e in absurd (omega (arith, cut.2, l))
]
trim_left-stops prefixes (suc fuel) s h l = elim (Option-cases (strip_one prefixes s)) [
  | inl e ↦
      let stopped : trim_left prefixes (suc fuel) s ≡ s = rw (e, trim_left) refl in
      subst (λ t. (strip_one prefixes t ≡ none) × (front : Text) × (s ≡ front ++ t)) (sym stopped)
        (e, [], refl)
  | inr (rest, e) ↦
      let went : trim_left prefixes (suc fuel) s ≡ trim_left prefixes fuel rest =
        rw (e, trim_left) refl in
      let cut = strip_one-Behind prefixes s rest h e in
      let more = trim_left-stops prefixes fuel rest h (omega (arith, cut.2, l)) in
      subst (λ t. (strip_one prefixes t ≡ none) × (front : Text) × (s ≡ front ++ t)) (sym went)
        (
          more.0,
          cut.0 ++ more.1,
          cut.1
              ∙ (ap (λ x. cut.0 ++ x) more.2
                  ∙ sym (append_assoc cut.0 more.1 (trim_left prefixes fuel rest))),
        )
]

strip_prefix-longer :
    (p t v : Text) → (strip_prefix p t).0 ≡ true → (strip_prefix p (t ++ v)).0 ≡ true
unfolding strip_prefix
strip_prefix-longer [] t v e = refl
strip_prefix-longer (p ∷ ps) [] v e = cc e
strip_prefix-longer (p ∷ ps) (c ∷ t) v e = ground (arith, strip_prefix-longer ps t v)

strip_one-shorter :
    (prefixes : List Text) (t v : Text)
    → strip_one prefixes (t ++ v) ≡ none
    → strip_one prefixes t ≡ none
unfolding strip_one
strip_one-shorter [] t v e = refl
strip_one-shorter (p ∷ ps) t v e =
    ground (arith, strip_prefix-longer p t v, strip_one-shorter ps t v)

abbrev none_empty : List Text → Bool
none_empty [] = true
none_empty ([] ∷ ps) = false
none_empty ((c ∷ cs) ∷ ps) = none_empty ps

none_empty-NonEmpty : (ps : List Text) → none_empty ps ≡ true → NonEmpty ps
none_empty-NonEmpty [] e = tt
none_empty-NonEmpty ([] ∷ ps) e = cc e
none_empty-NonEmpty ((c ∷ cs) ∷ ps) e = (λ h. ground arith, none_empty-NonEmpty ps e)

length-reverse_aux : (s t : Text) → length (reverse_aux s t) ≡ length s + length t
length-reverse_aux [] t = omega arith
length-reverse_aux (c ∷ s) t = omega (arith, length-reverse_aux s (c ∷ t))

-- What is left of `cut` when a text is dropped from its reverse.
reversed :
    (cut turned front : Text)
    → reverse cut ≡ front ++ turned
    → cut ≡ reverse turned ++ reverse front
reversed cut turned front e =
    sym (reverse-reverse cut) ∙ (ap reverse e ∙ reverse-append front turned)

-- The trimmed text has no white space at either end, and is the text less a front and a back; the
-- length of the text is fuel enough for both loops.
pub trim_space_lem :
    (s : Text)
    → (strip_one spaces (trim_space s) ≡ none)
      × (strip_one (map reverse spaces) (reverse (trim_space s)) ≡ none)
      × (front : Text) × (back : Text) × (s ≡ front ++ (trim_space s ++ back))
unfolding trim_space
trim_space_lem s =
    let cut = trim_left spaces (length s) s in
    let head =
      trim_left-stops spaces (length s) s (none_empty-NonEmpty spaces refl) (omega arith) in
    let turned = trim_left (map reverse spaces) (length cut) (reverse cut) in
    let tail =
      trim_left-stops (map reverse spaces) (length cut) (reverse cut)
        (none_empty-NonEmpty (map reverse spaces) refl)
        (omega (arith, length-reverse_aux cut [])) in
    let whole = reversed cut turned tail.1 tail.2 in
    (
      strip_one-shorter spaces (reverse turned) (reverse tail.1)
          (ap (strip_one spaces) (sym whole) ∙ head.0),
      ap (strip_one (map reverse spaces)) (reverse-reverse turned) ∙ tail.0,
      head.1,
      reverse tail.1,
      head.2 ∙ ap (λ x. head.1 ++ x) whole,
    )

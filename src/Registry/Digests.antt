-- ===== src/Registry/Digests.antt =====
-- What a reference looks like in which a digest is found.
use bb_action_router.Base.{
  Text, strip_prefix, ◌≡◌, refl, sym, ap, subst, ◌∙◌, inl, inr, Bool, true, false, ◌&&◌, none, some,
  [], ◌∷◌, ◌++◌, arith, ◌==◌, if◌then◌else◌, ==_iff, Bool-cases, Option-cases, length,
}
use mathlib.Core.Path.{ap₂}
use bb_action_router.Registry.References.{digest_mark, all_hex, match_here, find_digest}

-- The digits of a SHA-256 digest.
abbrev pub IsDigest : Text → Type 0
IsDigest digits = (all_hex digits ≡ true) × (length digits ≡ 64)

strip_prefix-append : (p s : Text) → (strip_prefix p s).0 ≡ true → s ≡ p ++ (strip_prefix p s).1
unfolding strip_prefix
strip_prefix-append [] s e = refl
strip_prefix-append (p ∷ ps) [] e = cc e
strip_prefix-append (p ∷ ps) (c ∷ s) e = elim (Bool-cases (p == c)) [
  | inl f ↦ rw f (
      ap₂ (λ x xs. x ∷ xs) (sym ((==_iff p c).0 f))
        (strip_prefix-append ps s
          (subst (λ b. (if b then strip_prefix ps s else (false, c ∷ s)).0 ≡ true) f e)))
  | inr f ↦ cc (subst (λ b. (if b then strip_prefix ps s else (false, c ∷ s)).0 ≡ true) f e)
]

match_here-IsDigest :
    (s digits : Text) → match_here s ≡ some digits → (s ≡ digest_mark ++ digits) × IsDigest digits
unfolding match_here
match_here-IsDigest s digits e =
    matched (strip_prefix digest_mark s) (strip_prefix-append digest_mark s) e
  where
    matched :
        (r : Bool × Text)
        → (r.0 ≡ true → s ≡ digest_mark ++ r.1)
        → (if r.0 && (all_hex r.1 && length r.1 == 64) then some r.1 else none) ≡ some digits
        → (s ≡ digest_mark ++ digits) × IsDigest digits
    matched (false, rest) h e = cc e
    matched (true, rest) h e = elim (Bool-cases (all_hex rest && length rest == 64)) [
      | inl f ↦
          let found =
            ap (λ o. elim o [ none ↦ rest | some t ↦ t ])
              (subst (λ b. (if b then some rest else none) ≡ some digits) f e) in
          subst (λ t. (s ≡ digest_mark ++ t) × IsDigest t) found (h refl, ground arith)
      | inr f ↦ cc (subst (λ b. (if b then some rest else none) ≡ some digits) f e)
    ]

-- The digest that is found stands behind its mark, at the end of the reference.
pub find_digest-IsDigest :
    (s digits : Text)
    → find_digest s ≡ some digits
    → (front : Text) × (s ≡ front ++ (digest_mark ++ digits)) × IsDigest digits
unfolding find_digest
find_digest-IsDigest [] digits e = cc e
find_digest-IsDigest (c ∷ s) digits e = elim (Option-cases (match_here (c ∷ s))) [
  | inl f ↦
      let later : find_digest s ≡ some digits =
        subst (λ o. elim o [ some d ↦ some d | none ↦ find_digest s ] ≡ some digits) f e in
      let (front, cut, d) = find_digest-IsDigest s digits later in (c ∷ front, ap (◌∷◌ c) cut, d)
  | inr (t, f) ↦
      let now =
        match_here-IsDigest (c ∷ s) digits
          (f ∙ subst (λ o. elim o [ some d ↦ some d | none ↦ find_digest s ] ≡ some digits) f e) in
      ([], now.0, now.1)
]

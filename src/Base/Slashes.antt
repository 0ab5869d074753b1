-- ===== src/Base/Slashes.antt =====
-- Paths as their parts: strings.Split and strings.Join on slashes.
use Prim.Native.Nat.{ℕ}
use mathlib.Core.Path.{◌≡◌, refl, sym, ap, ◌∙◌}
use mathlib.Core.List.{List, [], ◌∷◌, ◌++◌, append_assoc}
use native.Mathlib.Omega.{arith}
use bb_action_router.Base.Tests.{◌==◌, if◌then◌else◌}
use bb_action_router.Base.Bytes.{Text, codes, join_with}

-- One more byte at the front of the first part.
unfoldable pub add_byte : ℕ → List Text → List Text
add_byte c [] = (c ∷ []) ∷ []
add_byte c (part ∷ parts) = if c == b'/' then [] ∷ part ∷ parts else (c ∷ part) ∷ parts

-- strings.Split(s, "/")
unfoldable pub split_slash : Text → List Text
split_slash [] = [] ∷ []
split_slash (c ∷ s) = add_byte c (split_slash s)

join-add_byte :
    (c : ℕ) (parts : List Text)
    → join_with (codes "/") (add_byte c parts) ≡ c ∷ join_with (codes "/") parts
unfolding join_with add_byte
join-add_byte c [] = refl
join-add_byte c (p ∷ []) = ground arith
join-add_byte c (p ∷ q ∷ parts) = ground arith

pub join-split : (s : Text) → join_with (codes "/") (split_slash s) ≡ s
unfolding join_with split_slash
join-split [] = refl
join-split (c ∷ s) = join-add_byte c (split_slash s) ∙ ap (◌∷◌ c) (join-split s)

pub join-append :
    (sep b : Text) (bs : List Text) (p : Text) (ps : List Text)
    → join_with sep ((b ∷ bs) ++ (p ∷ ps))
      ≡ join_with sep (b ∷ bs) ++ (sep ++ join_with sep (p ∷ ps))
unfolding join_with
join-append sep b [] p ps = refl
join-append sep b (c ∷ bs) p ps =
    ap (λ t. b ++ (sep ++ t)) (join-append sep c bs p ps)
    ∙ (ap (◌++◌ b) (sym (append_assoc sep (join_with sep (c ∷ bs)) (sep ++ join_with sep (p ∷ ps))))
        ∙ sym (append_assoc b (sep ++ join_with sep (c ∷ bs)) (sep ++ join_with sep (p ∷ ps))))

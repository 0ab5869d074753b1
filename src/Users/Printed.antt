-- ===== src/Users/Printed.antt =====
-- Lines and fields that are read back from a text.
use bb_action_router.Base.{
  Text, codes, join_with, ℕ, zero, suc, ◌≡◌, refl, ap, ◌∙◌, inl, inr, false, List, [], ◌∷◌, ◌++◌,
  map, ◌==◌, Bool-cases, All,
}
use bb_action_router.Users.Lines.{cons_byte, split_lines, drop_cr}
use bb_action_router.Users.Entries.{split_n}

abbrev pub Without : ℕ → Text → Type 0
Without b = All (λ c. (c == b) ≡ false)

cons_byte-All :
    (b c : ℕ) (lines : List Text)
    → (c == b) ≡ false
    → All (Without b) lines
    → All (Without b) (cons_byte c lines)
unfolding cons_byte
cons_byte-All b c [] e h = ((e, tt), tt)
cons_byte-All b c (line ∷ lines) e h = ((e, h.0), h.1)

pub split_lines-Without_newline : (s : Text) → All (Without b'\n') (split_lines s)
unfolding split_lines
split_lines-Without_newline [] = tt
split_lines-Without_newline (c ∷ s) = elim (Bool-cases (c == b'\n')) [
  | inl e ↦ rw e (tt, split_lines-Without_newline s)
  | inr e ↦ rw e (cons_byte-All b'\n' c (split_lines s) e (split_lines-Without_newline s))
]

pub split_lines-Without : (b : ℕ) (s : Text) → Without b s → All (Without b) (split_lines s)
unfolding split_lines
split_lines-Without b [] h = tt
split_lines-Without b (c ∷ s) h = elim (Bool-cases (c == b'\n')) [
  | inl e ↦ rw e (tt, split_lines-Without b s h.1)
  | inr e ↦ rw e (cons_byte-All b c (split_lines s) h.0 (split_lines-Without b s h.1))
]

-- A line in front of its newline is the first line.
split_lines-line :
    (line s : Text) → Without b'\n' line → split_lines (line ++ (b'\n' ∷ s)) ≡ line ∷ split_lines s
unfolding split_lines cons_byte
split_lines-line [] s h = refl
split_lines-line (c ∷ line) s h = rw (h.0, split_lines-line line s h.1) refl

join_more :
    (sep line last : Text) (lines : List Text)
    → join_with sep (line ∷ (lines ++ (last ∷ [])))
      ≡ line ++ (sep ++ join_with sep (lines ++ (last ∷ [])))
unfolding join_with
join_more sep line last [] = refl
join_more sep line last (next ∷ lines) = refl

-- Lines that are joined, the last with a newline of its own, are read back.
pub split_lines-join :
    (lines : List Text) (last : Text)
    → All (Without b'\n') lines
    → Without b'\n' last
    → split_lines (join_with (codes "\n") (lines ++ ((last ++ codes "\n") ∷ [])))
      ≡ lines ++ (last ∷ [])
unfolding join_with split_lines
split_lines-join [] last h k = split_lines-line last [] k
split_lines-join (line ∷ lines) last h k =
    ap split_lines (join_more (codes "\n") line (last ++ codes "\n") lines)
    ∙ (split_lines-line line (join_with (codes "\n") (lines ++ ((last ++ codes "\n") ∷ []))) h.0
        ∙ ap (λ ls. line ∷ ls) (split_lines-join lines last h.1 k))

drop_cr-Without : (s : Text) → Without b'\r' s → drop_cr s ≡ s
unfolding drop_cr
drop_cr-Without [] h = refl
drop_cr-Without (c ∷ []) h = rw (h.0) refl
drop_cr-Without (c ∷ d ∷ s) h = ap (◌∷◌ c) (drop_cr-Without (d ∷ s) h.1)

pub map-drop_cr : (lines : List Text) → All (Without b'\r') lines → map drop_cr lines ≡ lines
map-drop_cr [] h = refl
map-drop_cr (line ∷ lines) h = rw (drop_cr-Without line h.0, map-drop_cr lines h.1) refl

pub split_n-field :
    (cuts : ℕ) (field s : Text)
    → Without b':' field
    → split_n (suc cuts) (field ++ (b':' ∷ s)) ≡ field ∷ split_n cuts s
unfolding split_n cons_byte
split_n-field cuts [] s h = refl
split_n-field cuts (c ∷ field) s h = rw (h.0, split_n-field cuts field s h.1) refl

pub split_n-last : (cuts : ℕ) (s : Text) → Without b':' s → split_n cuts s ≡ s ∷ []
unfolding split_n cons_byte
split_n-last zero [] h = refl
split_n-last (suc cuts) [] h = refl
split_n-last zero (c ∷ s) h = refl
split_n-last (suc cuts) (c ∷ s) h = rw (h.0, split_n-last (suc cuts) s h.1) refl

pub split_n-zero : (s : Text) → split_n 0 s ≡ s ∷ []
unfolding split_n
split_n-zero [] = refl
split_n-zero (c ∷ s) = refl

-- As many fields as there are cuts have no colon in them.
abbrev pub Plain : ℕ → List Text → Type 0
Plain zero fields = Unit
Plain (suc cuts) [] = Unit
Plain (suc cuts) (field ∷ fields) = Without b':' field × Plain cuts fields

cons_byte-Plain :
    (cuts c : ℕ) (fields : List Text)
    → (c == b':') ≡ false
    → Plain (suc cuts) fields
    → Plain (suc cuts) (cons_byte c fields)
unfolding cons_byte
cons_byte-Plain zero c [] e h = ((e, tt), tt)
cons_byte-Plain (suc cuts) c [] e h = ((e, tt), tt)
cons_byte-Plain cuts c (field ∷ fields) e h = ((e, h.0), h.1)

pub split_n-Plain : (cuts : ℕ) (s : Text) → Plain cuts (split_n cuts s)
unfolding split_n
split_n-Plain zero s = tt
split_n-Plain (suc zero) [] = (tt, tt)
split_n-Plain (suc (suc cuts)) [] = (tt, tt)
split_n-Plain (suc cuts) (c ∷ s) = elim (Bool-cases (c == b':')) [
  | inl e ↦ rw e (tt, split_n-Plain cuts s)
  | inr e ↦ rw e (cons_byte-Plain cuts c (split_n (suc cuts) s) e (split_n-Plain (suc cuts) s))
]

pub split_n-Without : (b cuts : ℕ) (s : Text) → Without b s → All (Without b) (split_n cuts s)
unfolding split_n
split_n-Without b zero [] h = (tt, tt)
split_n-Without b (suc cuts) [] h = (tt, tt)
split_n-Without b zero (c ∷ s) h = (h, tt)
split_n-Without b (suc cuts) (c ∷ s) h = elim (Bool-cases (c == b':')) [
  | inl e ↦ rw e (tt, split_n-Without b cuts s h.1)
  | inr e ↦ rw e (cons_byte-All b c (split_n (suc cuts) s) h.0 (split_n-Without b (suc cuts) s h.1))
]

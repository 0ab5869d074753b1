-- ===== src/Users/Clean.antt =====
-- Bytes that do not get into what is kept of the entries, nor into numbers.
use bb_action_router.Base.{
  Text, IsDigit, decimal-All, ℕ, suc, ◌≡◌, inl, inr, false, List, [], ◌∷◌, ◌==◌, Bool-cases, All,
  All-map,
}
use bb_action_router.Users.Entries.{Kept, take_fields, take_line, take_lines, number}
use bb_action_router.Users.Printed.{Without, Plain, split_n-Plain, split_n-Without}
use bb_action_router.Users.Replaced.{fields_of, Is, take_line-other, take_line-with_id}

-- None of the three texts has the byte.
abbrev pub Lacks : ℕ → Kept → Type 0
Lacks b k = Without b k.name × Without b k.shell × Without b k.members

-- The texts that other fields follow have no colon.
abbrev pub NoColon : Kept → Type 0
NoColon k = Without b':' k.name × Without b':' k.members

take_fields-Lacks :
    (b : ℕ) (fields : List Text) (k : Kept)
    → All (Without b) fields
    → Lacks b k
    → Lacks b (take_fields fields k)
unfolding take_fields
take_fields-Lacks b [] k h l = l
take_fields-Lacks b (a ∷ []) k h l = (h.0, l.1, l.2)
take_fields-Lacks b (a ∷ c ∷ []) k h l = (h.0, l.1, l.2)
take_fields-Lacks b (a ∷ c ∷ d ∷ []) k h l = (h.0, l.1, l.2)
take_fields-Lacks b (a ∷ c ∷ d ∷ e ∷ []) k h l = (h.0, l.1, h.1.1.1.0)
take_fields-Lacks b (a ∷ c ∷ d ∷ e ∷ f ∷ []) k h l = (h.0, l.1, h.1.1.1.0)
take_fields-Lacks b (a ∷ c ∷ d ∷ e ∷ f ∷ g ∷ []) k h l = (h.0, l.1, h.1.1.1.0)
take_fields-Lacks b (a ∷ c ∷ d ∷ e ∷ f ∷ g ∷ i ∷ []) k h l = (h.0, h.1.1.1.1.1.1.0, h.1.1.1.0)
take_fields-Lacks b (a ∷ c ∷ d ∷ e ∷ f ∷ g ∷ i ∷ j ∷ fields) k h l = (h.0, l.1, h.1.1.1.0)

take_fields-NoColon :
    (fields : List Text) (k : Kept) → Plain 6 fields → NoColon k → NoColon (take_fields fields k)
unfolding take_fields
take_fields-NoColon [] k h l = l
take_fields-NoColon (a ∷ []) k h l = (h.0, l.1)
take_fields-NoColon (a ∷ c ∷ []) k h l = (h.0, l.1)
take_fields-NoColon (a ∷ c ∷ d ∷ []) k h l = (h.0, l.1)
take_fields-NoColon (a ∷ c ∷ d ∷ e ∷ []) k h l = (h.0, h.1.1.1.0)
take_fields-NoColon (a ∷ c ∷ d ∷ e ∷ f ∷ []) k h l = (h.0, h.1.1.1.0)
take_fields-NoColon (a ∷ c ∷ d ∷ e ∷ f ∷ g ∷ []) k h l = (h.0, h.1.1.1.0)
take_fields-NoColon (a ∷ c ∷ d ∷ e ∷ f ∷ g ∷ i ∷ []) k h l = (h.0, h.1.1.1.0)
take_fields-NoColon (a ∷ c ∷ d ∷ e ∷ f ∷ g ∷ i ∷ j ∷ fields) k h l = (h.0, h.1.1.1.0)

module _ (id : ℕ) where
  take_line-Lacks :
      (b : ℕ) (line : Text) (r : Kept × List Text)
      → Without b line
      → Lacks b r.0
      → Lacks b (take_line id line r).0
  take_line-Lacks b line r h l = elim (Bool-cases (Is id line)) [
    | inl e ↦
        rw (take_line-with_id id line r e)
          (take_fields-Lacks b (fields_of line) r.0 (split_n-Without b 6 line h) l)
    | inr e ↦ rw (take_line-other id line r e) l
  ]

  pub take_lines-Lacks :
      (b : ℕ) (lines : List Text) (r : Kept × List Text)
      → All (Without b) lines
      → Lacks b r.0
      → Lacks b (take_lines id lines r).0
  unfolding take_lines
  take_lines-Lacks b [] r h l = l
  take_lines-Lacks b (line ∷ lines) r h l =
      take_lines-Lacks b lines (take_line id line r) h.1 (take_line-Lacks b line r h.0 l)

  take_line-NoColon :
      (line : Text) (r : Kept × List Text) → NoColon r.0 → NoColon (take_line id line r).0
  take_line-NoColon line r l = elim (Bool-cases (Is id line)) [
    | inl e ↦
        rw (take_line-with_id id line r e)
          (take_fields-NoColon (fields_of line) r.0 (split_n-Plain 6 line) l)
    | inr e ↦ rw (take_line-other id line r e) l
  ]

  pub take_lines-NoColon :
      (lines : List Text) (r : Kept × List Text) → NoColon r.0 → NoColon (take_lines id lines r).0
  unfolding take_lines
  take_lines-NoColon [] r l = l
  take_lines-NoColon (line ∷ lines) r l =
      take_lines-NoColon lines (take_line id line r) (take_line-NoColon line r l)

pub number-Without : (b n : ℕ) → ((c : ℕ) → IsDigit c → (c == b) ≡ false) → Without b (number n)
number-Without b n h = All-map h (number n) (decimal-All (suc n) n [] tt)

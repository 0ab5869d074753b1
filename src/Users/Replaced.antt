-- ===== src/Users/Replaced.antt =====
-- What setIDEntry keeps of a file, and what it takes from the entries that it replaces.
use bb_action_router.Base.{
  Text, codes, join_with, ℕ, zero, suc, ◌≤◌, ◌≡◌, refl, sym, ap, ◌∙◌, ◌⊎◌, inl, inr, Bool, true,
  false, not, ◌&&◌, Option, none, some, List, [], ◌∷◌, ◌++◌, map, arith, ltb, ◌==◌, if◌then◌else◌,
  Bool-cases, Option-cases, length, filter,
}
use mathlib.Core.List.{append-nil, append_assoc}
use bb_action_router.Status.{Error, ok, err, status, unknown, ◌>>=◌}
use bb_action_router.Users.Lines.{cons_byte, split_lines, drop_cr, fits, scan}
use bb_action_router.Users.Entries.{
  split_n, Kept, has_id, take_fields, take_line, take_lines, default_entry, set_id_entry,
}

-- The fields of a line of passwd or group.
abbrev pub fields_of : Text → List Text
fields_of = split_n 6

abbrev pub Is : ℕ → Text → Bool
Is id line = has_id id (fields_of line)

abbrev pub others : ℕ → List Text → List Text
others id = filter (λ line. not (Is id line))

abbrev pub field : ℕ → List Text → Text
field i [] = []
field zero (f ∷ fields) = f
field (suc i) (f ∷ fields) = field i fields

-- The fields of the last line that passes a test of its fields.
unfoldable pub last_such : (List Text → Bool) → List Text → Option (List Text)
last_such test [] = none
last_such test (line ∷ lines) = elim (last_such test lines) [
  | some fields ↦ some fields
  | none ↦ if test (fields_of line) then some (fields_of line) else none
]

abbrev pub field_or : Text → ℕ → Option (List Text) → Text
field_or default_value i none = default_value
field_or default_value i (some fields) = field i fields

module _ (id : ℕ) where
  abbrev pub has_shell : List Text → Bool
  has_shell fields = has_id id fields && length fields == 7

  abbrev pub has_members : List Text → Bool
  has_members fields = has_id id fields && ltb 3 (length fields)

  -- The name is that of the last entry with the id, the shell that of the last which has one, and
  -- the members are those of the last which has them.
  pub record IsKept (lines : List Text) (before kept : Kept) : Type 0 where
    pub name : kept.name ≡ field_or before.name 0 (last_such (has_id id) lines)
    pub shell : kept.shell ≡ field_or before.shell 6 (last_such has_shell lines)
    pub members : kept.members ≡ field_or before.members 3 (last_such has_members lines)

  take_fields_lem :
      (fields : List Text) (k : Kept)
      → length fields ≤ 7
      → has_id id fields ≡ true
      → ((take_fields fields k).name ≡ field 0 fields)
        × ((take_fields fields k).shell ≡ (if length fields == 7 then field 6 fields else k.shell))
        × ((take_fields fields k).members
            ≡ (if ltb 3 (length fields) then field 3 fields else k.members))
  unfolding take_fields has_id
  take_fields_lem [] k le h = cc h
  take_fields_lem (a ∷ []) k le h = cc h
  take_fields_lem (a ∷ b ∷ []) k le h = cc h
  take_fields_lem (a ∷ b ∷ c ∷ []) k le h = (refl, refl, refl)
  take_fields_lem (a ∷ b ∷ c ∷ d ∷ []) k le h = (refl, refl, refl)
  take_fields_lem (a ∷ b ∷ c ∷ d ∷ e ∷ []) k le h = (refl, refl, refl)
  take_fields_lem (a ∷ b ∷ c ∷ d ∷ e ∷ f ∷ []) k le h = (refl, refl, refl)
  take_fields_lem (a ∷ b ∷ c ∷ d ∷ e ∷ f ∷ g ∷ []) k le h = (refl, refl, refl)
  take_fields_lem (a ∷ b ∷ c ∷ d ∷ e ∷ f ∷ g ∷ h' ∷ fields) k le h = absurd (omega arith)

  -- One line, with or without the id.
  pub take_line-other :
      (line : Text) (r : Kept × List Text)
      → Is id line ≡ false
      → take_line id line r ≡ (r.0, r.1 ++ (line ∷ []))
  unfolding take_line
  take_line-other line r e = rw e refl

  pub take_line-with_id :
      (line : Text) (r : Kept × List Text)
      → Is id line ≡ true
      → take_line id line r ≡ (take_fields (fields_of line) r.0, r.1)
  unfolding take_line
  take_line-with_id line r e = rw e refl

  pub take_lines-others :
      (lines : List Text) (r : Kept × List Text)
      → (take_lines id lines r).1 ≡ r.1 ++ others id lines
  unfolding take_lines
  take_lines-others [] r = sym (append-nil r.1)
  take_lines-others (line ∷ lines) r = elim (Bool-cases (Is id line)) [
    | inl e ↦
        take_lines-others lines (take_line id line r) ∙ rw (take_line-with_id line r e, e) refl
    | inr e ↦
        take_lines-others lines (take_line id line r)
        ∙ (ap (λ s. s.1 ++ others id lines) (take_line-other line r e)
            ∙ (append_assoc r.1 (line ∷ []) (others id lines) ∙ rw e refl))
  ]

  length-cons_byte :
      (n c : ℕ) (fields : List Text) → length fields ≤ suc n → length (cons_byte c fields) ≤ suc n
  unfolding cons_byte
  length-cons_byte n c [] h = omega arith
  length-cons_byte n c (f ∷ fields) h = h

  length-split_n : (cuts : ℕ) (s : Text) → length (split_n cuts s) ≤ suc cuts
  unfolding split_n
  length-split_n zero [] = omega arith
  length-split_n (suc cuts) [] = omega arith
  length-split_n zero (c ∷ s) = omega arith
  length-split_n (suc cuts) (c ∷ s) = elim (Bool-cases (c == b':')) [
    | inl e ↦ rw e (omega (arith, length-split_n cuts s))
    | inr e ↦
        rw e (length-cons_byte (suc cuts) c (split_n (suc cuts) s) (length-split_n (suc cuts) s))
  ]

  last_such-cons :
      (test : List Text → Bool) (d : Text) (i : ℕ) (line : Text) (lines : List Text)
      → field_or d i (last_such test (line ∷ lines))
        ≡ field_or
            (if test (fields_of line) then field i (fields_of line) else d)
            i
            (last_such test lines)
  unfolding last_such
  last_such-cons test d i line lines = elim (Option-cases (last_such test lines)) [
    | inl e ↦ rw (e, last_such) (ground arith)
    | inr (fs, e) ↦ rw (e, last_such) refl
  ]

  Step : Text → Kept → Kept → Type 0
  Step line before after =
      (after.name ≡ (if has_id id (fields_of line) then field 0 (fields_of line) else before.name))
      × (after.shell
          ≡ (if has_shell (fields_of line) then field 6 (fields_of line) else before.shell))
      × (after.members
          ≡ (if has_members (fields_of line) then field 3 (fields_of line) else before.members))

  take_line-Step : (line : Text) (r : Kept × List Text) → Step line r.0 (take_line id line r).0
  unfolding Step
  take_line-Step line r = elim (Bool-cases (Is id line)) [
    | inl e ↦
        let t = take_fields_lem (fields_of line) r.0 (length-split_n 6 line) e in
        rw (take_line-with_id line r e, e) t
    | inr e ↦ rw (take_line-other line r e, e) (refl, refl, refl)
  ]

  pub take_lines-IsKept :
      (lines : List Text) (r : Kept × List Text) → IsKept lines r.0 (take_lines id lines r).0
  unfolding take_lines last_such Step
  take_lines-IsKept [] r = record { name = refl; shell = refl; members = refl }
  take_lines-IsKept (line ∷ lines) r =
      let ih = take_lines-IsKept lines (take_line id line r) in
      let step = take_line-Step line r in
      record {
        name =
            ih.name
            ∙ (ap (λ d. field_or d 0 (last_such (has_id id) lines)) step.0
                ∙ sym (last_such-cons (has_id id) r.0.name 0 line lines));
        shell =
            ih.shell
            ∙ (ap (λ d. field_or d 6 (last_such has_shell lines)) step.1
                ∙ sym (last_such-cons has_shell r.0.shell 6 line lines));
        members =
            ih.members
            ∙ (ap (λ d. field_or d 3 (last_such has_members lines)) step.2
                ∙ sym (last_such-cons has_members r.0.members 3 line lines));
      }

-- The file is refused exactly if a line of it does not fit or the archive fails. Else the lines
-- without the id stay, in their order, and one entry follows them. Its name is that of the last
-- line with the id, its shell that of the last one which has all seven fields, and its members
-- those of the last one which has a fourth field; without such a line, they are the defaults.
pub set_id_entry_lem :
    (id : ℕ) (name : Text) (entry_line : Kept → Text) (data_ : Text) (failure : Option Error)
    → ((k : Kept) × (fits (split_lines data_) ≡ true)
        × (failure ≡ none)
        × IsKept id (map drop_cr (split_lines data_)) (default_entry name) k
        × (set_id_entry id name entry_line data_ failure
            ≡ ok (
                join_with
                  (codes "\n")
                  (others id (map drop_cr (split_lines data_)) ++ (entry_line k ∷ [])))))
      ⊎ ((e : Error) × ((fits (split_lines data_) ≡ false) ⊎ (failure ≡ some e))
          × (set_id_entry id name entry_line data_ failure ≡ err e))
unfolding set_id_entry scan ◌>>=◌
set_id_entry_lem id name entry_line data_ failure = elim (Bool-cases (fits (split_lines data_))) [
  | inr e ↦ inr (status unknown "bufio.Scanner: token too long", inl e, rw e refl)
  | inl e ↦ elim (Option-cases failure) [
    | inr (x, f) ↦ inr (x, inr f, rw (e, f) refl)
    | inl f ↦
        let lines = map drop_cr (split_lines data_) in
        let start : Kept × List Text = (default_entry name, []) in
        inl (
          (take_lines id lines start).0,
          e,
          f,
          take_lines-IsKept id lines start,
          rw (e, f)
              (ap
                (λ ls.
                  ok (
                    join_with (codes "\n") (ls ++ (entry_line (take_lines id lines start).0 ∷ []))))
                (take_lines-others id lines start)),
        )
  ]
]

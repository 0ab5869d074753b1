-- ===== src/Users/Again.antt =====
-- Files that setIDEntry has rewritten, rewritten again.
use bb_action_router.Base.{
  Text, codes, join_with, ℕ, ◌≡◌, refl, sym, ap, subst, ◌∙◌, inl, inr, true, false, not, Option,
  none, List, [], ◌∷◌, ◌++◌, map, if◌then◌else◌, Bool-cases, filter, All, All-append, All-filter,
}
use mathlib.Core.List.{append_assoc, append-nil}
use bb_action_router.Status.{Error, Result, ok, err, status, unknown, ◌>>=◌}
use bb_action_router.Users.Lines.{split_lines, drop_cr, fits, scan}
use bb_action_router.Users.Entries.{Kept, take_fields, take_lines, default_entry, set_id_entry}
use bb_action_router.Users.Printed.{
  Without, split_lines-Without_newline, split_lines-Without, split_lines-join, map-drop_cr,
}
use bb_action_router.Users.Replaced.{
  fields_of, Is, others, take_line-other, take_line-with_id, take_lines-others,
}
use bb_action_router.Users.Clean.{Lacks, NoColon, take_lines-Lacks, take_lines-NoColon}

module _ (id : ℕ) where
  All-others : (P : Text → Type 0) (lines : List Text) → All P lines → All P (others id lines)
  All-others P lines h = All-filter P (λ line. not (Is id line)) lines h

  others-Is : (lines : List Text) → All (λ line. Is id line ≡ false) (others id lines)
  others-Is [] = tt
  others-Is (line ∷ lines) = elim (Bool-cases (Is id line)) [
    | inl e ↦ rw e (others-Is lines)
    | inr e ↦ rw e (e, others-Is lines)
  ]

  -- Lines without the id, and an entry with it.
  take_lines-last :
      (lines : List Text) (last : Text) (r : Kept × List Text)
      → All (λ line. Is id line ≡ false) lines
      → Is id last ≡ true
      → take_lines id (lines ++ (last ∷ [])) r ≡ (take_fields (fields_of last) r.0, r.1 ++ lines)
  unfolding take_lines
  take_lines-last [] last r h e =
      take_line-with_id id last r e
      ∙ ap (λ xs. (take_fields (fields_of last) r.0, xs)) (sym (append-nil r.1))
  take_lines-last (line ∷ lines) last r h e =
      ap (take_lines id (lines ++ (last ∷ []))) (take_line-other id line r h.0)
      ∙ (take_lines-last lines last (r.0, r.1 ++ (line ∷ [])) h.1 e
          ∙ ap (λ xs. (take_fields (fields_of last) r.0, xs)) (append_assoc r.1 (line ∷ []) lines))

  filter-last :
      (lines : List Text) (last : Text)
      → All (λ line. Is id line ≡ false) lines
      → Is id last ≡ true
      → filter (Is id) (lines ++ (last ∷ [])) ≡ last ∷ []
  filter-last [] last h e = rw e refl
  filter-last (line ∷ lines) last h e = rw h.0 (filter-last lines last h.1 e)

-- What a second pass makes of a file: what it was, unless the new entry has become too long.
abbrev pub Unchanged : Text → Result Text → Type 0
Unchanged out r = r ≡ (
    if fits (split_lines out) then ok out else err (status unknown "bufio.Scanner: token too long"))

-- The one entry with the id that a file has after a pass, and what a second pass makes of it.
abbrev pub HasOne : ℕ → (Text → Option Error → Result Text) → Text → Text → Text → Type 0
HasOne id set data_ entry out =
    (set data_ none ≡ ok out)
    × (filter (Is id) (split_lines out) ≡ entry ∷ [])
    × Unchanged out (set out none)

module _ (id : ℕ) (name : Text) (entry_line : Kept → Text) (data_ : Text) where
  pub kept_of : Kept
  kept_of = (take_lines id (map drop_cr (split_lines data_)) (default_entry name, [])).0

  -- The text of the entry that is written, and what it has to be for a second pass to find it.
  pub record IsStable (entry : Text) : Type 0 where
    pub printed : entry_line kept_of ≡ entry ++ codes "\n"
    pub no_newline : Without b'\n' entry
    pub no_cr : Without b'\r' entry
    pub found : Is id entry ≡ true
    pub same_again :
        entry_line (take_fields (fields_of entry) (default_entry name)) ≡ entry_line kept_of

  module _ (b : ℕ) (plain : Without b'\r' data_) (h : Without b name) where
    pub kept_of-Lacks :
        All (Without b) (split_lines data_) → Without b (codes "/bin/sh") → Lacks b kept_of
    unfolding kept_of
    kept_of-Lacks l sh =
        take_lines-Lacks id b (map drop_cr (split_lines data_)) (default_entry name, [])
          (subst (All (Without b))
            (sym (map-drop_cr (split_lines data_) (split_lines-Without b'\r' data_ plain))) l)
          (h, sh, tt)

  pub kept_of-NoColon : Without b':' name → NoColon kept_of
  unfolding kept_of
  kept_of-NoColon h =
      take_lines-NoColon id (map drop_cr (split_lines data_)) (default_entry name, []) (h, tt)

  module _ (plain : Without b'\r' data_) (short : fits (split_lines data_) ≡ true) where
    lines : List Text
    lines = split_lines data_

    kept_lines : List Text
    kept_lines = others id lines

    not_cr : All (Without b'\r') lines
    unfolding lines
    not_cr = split_lines-Without b'\r' data_ plain

    written : Text → Text
    written last = join_with (codes "\n") (kept_lines ++ (last ∷ []))

    -- A pass over a text whose lines fit.
    one_pass :
        (t : Text)
        → fits (split_lines t) ≡ true
        → set_id_entry id name entry_line t none
          ≡ ok (
              join_with (codes "\n") (
                (take_lines id (map drop_cr (split_lines t)) (default_entry name, [])).1
                ++ (entry_line
                      (take_lines id (map drop_cr (split_lines t)) (default_entry name, [])).0
                    ∷ [])))
    unfolding set_id_entry scan ◌>>=◌
    one_pass t e = rw e refl

    first_pass : set_id_entry id name entry_line data_ none ≡ ok (written (entry_line kept_of))
    unfolding written kept_lines lines kept_of
    first_pass =
        one_pass data_ short
        ∙ ap (λ ls. ok (join_with (codes "\n") (ls ++ (entry_line kept_of ∷ []))))
            (take_lines-others id (map drop_cr (split_lines data_)) (default_entry name, [])
              ∙ ap (others id) (map-drop_cr (split_lines data_) not_cr))

    module _ (entry : Text) (s : IsStable entry) where
      pub out : Text
      out = written (entry_line kept_of)

      lines_again : split_lines out ≡ kept_lines ++ (entry ∷ [])
      unfolding out written kept_lines lines
      lines_again =
          ap (λ e. split_lines (join_with (codes "\n") (others id (split_lines data_) ++ (e ∷ []))))
            s.printed
          ∙ split_lines-join (others id (split_lines data_)) entry
              (All-others id (Without b'\n') (split_lines data_)
                (split_lines-Without_newline data_))
              s.no_newline

      scanned_again : map drop_cr (split_lines out) ≡ kept_lines ++ (entry ∷ [])
      unfolding kept_lines
      scanned_again =
          ap (map drop_cr) lines_again
          ∙ map-drop_cr (others id lines ++ (entry ∷ [])) (
              All-append (Without b'\r') (others id lines) (entry ∷ [])
                (All-others id (Without b'\r') lines not_cr) (s.no_cr, tt))

      taken_again :
          take_lines id (map drop_cr (split_lines out)) (default_entry name, [])
          ≡ (take_fields (fields_of entry) (default_entry name), kept_lines)
      unfolding kept_lines
      taken_again =
          ap (λ ls. take_lines id ls (default_entry name, [])) scanned_again
          ∙ take_lines-last id (others id lines) entry (default_entry name, []) (others-Is id lines)
              s.found

      second_pass : Unchanged out (set_id_entry id name entry_line out none)
      unfolding out written set_id_entry scan ◌>>=◌
      second_pass = elim (Bool-cases (fits (split_lines out))) [
        | inr e ↦ rw e refl
        | inl e ↦ rw e (
            ap (λ r. ok (join_with (codes "\n") (r.1 ++ (entry_line r.0 ∷ [])))) taken_again
            ∙ ap (λ x. ok (join_with (codes "\n") (kept_lines ++ (x ∷ [])))) s.same_again)
      ]

      pub stable : HasOne id (set_id_entry id name entry_line) data_ entry out
      unfolding kept_lines out written
      stable = (
        first_pass,
        ap (filter (Is id)) lines_again
            ∙ filter-last id (others id lines) entry (others-Is id lines) s.found,
        second_pass,
      )

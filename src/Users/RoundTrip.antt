-- ===== src/Users/RoundTrip.antt =====
-- passwd and group as the visitor rewrites them, and rewrites them again.
use bb_action_router.Base.{
  Text, codes, atoi-decimal, ℕ, ◌^◌, ◌<◌, ◌≡◌, refl, ap, ◌∙◌, true, false, List, [], ◌∷◌, ◌++◌,
  arith, ◌==◌, All-append,
}
use mathlib.Core.List.{append_assoc}
use bb_action_router.Router.Config.{UnixUser}
use bb_action_router.Users.Lines.{split_lines, fits}
use bb_action_router.Users.Entries.{
  Kept, is_id, has_id, take_fields, default_entry, number, passwd_line, group_line, set_passwd,
  set_group,
}
use bb_action_router.Users.Printed.{
  Without, split_lines-Without_newline, split_lines-Without, split_n-field, split_n-last,
  split_n-zero,
}
use bb_action_router.Users.Replaced.{fields_of}
use bb_action_router.Users.Clean.{Lacks, NoColon, number-Without}
use bb_action_router.Users.Again.{HasOne, kept_of, kept_of-Lacks, kept_of-NoColon, IsStable, stable}

-- A user that can stand in the files: its ids are uint32 values, and its name keeps to its field.
pub record IsPlain (user : UnixUser) : Type 0 where
  pub uid : user.uid < 2 ^ 32
  pub gid : user.gid < 2 ^ 32
  pub colon : Without b':' user.name
  pub newline : Without b'\n' user.name
  pub cr : Without b'\r' user.name

number-colon : (n : ℕ) → Without b':' (number n)
number-colon n = number-Without b':' n (λ c h. ground arith)

number-newline : (n : ℕ) → Without b'\n' (number n)
number-newline n = number-Without b'\n' n (λ c h. ground arith)

number-cr : (n : ℕ) → Without b'\r' (number n)
number-cr n = number-Without b'\r' n (λ c h. ground arith)

found_by :
    (id : ℕ) (a b : Text) (fields : List Text)
    → id < 2 ^ 32
    → has_id id (a ∷ b ∷ number id ∷ fields) ≡ true
unfolding has_id is_id
found_by id a b fields h = rw (atoi-decimal id (omega arith)) (ground arith)

module _ (user : UnixUser) (p : IsPlain user) where
  module _ (k : Kept) where
    passwd_entry : Text
    passwd_entry =
        k.name
        ++ (codes ":x:"
            ++ (number user.uid
                ++ (codes ":" ++ (number user.gid ++ (codes "::/tmp:" ++ k.shell)))))

    group_entry : Text
    group_entry = k.name ++ (codes ":x:" ++ (number user.gid ++ (codes ":" ++ k.members)))

    passwd_printed : passwd_line user k ≡ passwd_entry ++ codes "\n"
    unfolding passwd_line passwd_entry
    passwd_printed = simp (append_assoc)

    group_printed : group_line user k ≡ group_entry ++ codes "\n"
    unfolding group_line group_entry
    group_printed = simp (append_assoc)

    passwd_fields :
        Without b':' k.name
        → fields_of passwd_entry
          ≡ k.name
            ∷ codes "x"
            ∷ number user.uid
            ∷ number user.gid
            ∷ []
            ∷ codes "/tmp"
            ∷ k.shell
            ∷ []
    unfolding passwd_entry
    passwd_fields h =
        split_n-field 5 k.name _ h
        ∙ ap (λ fs. k.name ∷ fs)
            (split_n-field 4 (codes "x") _ (refl, tt)
              ∙ ap (λ fs. codes "x" ∷ fs)
                  (split_n-field 3 (number user.uid) _ (number-colon user.uid)
                    ∙ ap (λ fs. number user.uid ∷ fs)
                        (split_n-field 2 (number user.gid) _ (number-colon user.gid)
                          ∙ ap (λ fs. number user.gid ∷ fs)
                              (split_n-field 1 [] _ tt
                                ∙ ap (λ fs. [] ∷ fs)
                                    (split_n-field 0 (codes "/tmp") k.shell
                                        (refl, (refl, (refl, (refl, tt))))
                                      ∙ ap (λ fs. codes "/tmp" ∷ fs) (split_n-zero k.shell))))))

    group_fields :
        NoColon k → fields_of group_entry ≡ k.name ∷ codes "x" ∷ number user.gid ∷ k.members ∷ []
    unfolding group_entry
    group_fields h =
        split_n-field 5 k.name _ h.0
        ∙ ap (λ fs. k.name ∷ fs)
            (split_n-field 4 (codes "x") _ (refl, tt)
              ∙ ap (λ fs. codes "x" ∷ fs)
                  (split_n-field 3 (number user.gid) _ (number-colon user.gid)
                    ∙ ap (λ fs. number user.gid ∷ fs) (split_n-last 3 k.members h.1)))

    module _ (b : ℕ) (l : Lacks b k) (colon : (b':' == b) ≡ false)
        (letters : Without b (codes "x/tmp")) (digits : (n : ℕ) → Without b (number n)) where
      passwd_lacks : Without b passwd_entry
      unfolding passwd_entry
      passwd_lacks =
          All-append (λ c. (c == b) ≡ false) k.name _ l.0
            (
              colon,
              (
                letters.0,
                (
                  colon,
                  All-append (λ c. (c == b) ≡ false) (number user.uid) _ (digits user.uid)
                      (
                        colon,
                        All-append (λ c. (c == b) ≡ false) (number user.gid) _ (digits user.gid)
                            (
                              colon,
                              (
                                colon,
                                (
                                  letters.1.0,
                                  (
                                    letters.1.1.0,
                                    (letters.1.1.1.0, (letters.1.1.1.1.0, (colon, l.1))),
                                  ),
                                ),
                              ),
                            ),
                      ),
                ),
              ),
            )

      group_lacks : Without b group_entry
      unfolding group_entry
      group_lacks =
          All-append (λ c. (c == b) ≡ false) k.name _ l.0
            (
              colon,
              (
                letters.0,
                (
                  colon,
                  All-append (λ c. (c == b) ≡ false) (number user.gid) _ (digits user.gid)
                      (colon, l.2),
                ),
              ),
            )

  module _ (data_ : Text) (plain : Without b'\r' data_) where
    module _ (id : ℕ) (line : Kept → Text) where
      k : Kept
      k = kept_of id user.name line data_

      newline-Lacks : Lacks b'\n' k
      unfolding k
      newline-Lacks =
          kept_of-Lacks id user.name line data_ b'\n' plain p.newline
            (split_lines-Without_newline data_) (ground arith)

      cr-Lacks : Lacks b'\r' k
      unfolding k
      cr-Lacks =
          kept_of-Lacks id user.name line data_ b'\r' plain p.cr
            (split_lines-Without b'\r' data_ plain) (ground arith)

      no_colon : NoColon k
      unfolding k
      no_colon = kept_of-NoColon id user.name line data_ p.colon

    passwd-IsStable :
        IsStable user.uid user.name
          (passwd_line user)
          data_
          (passwd_entry (k user.uid (passwd_line user)))
    unfolding k take_fields passwd_line
    passwd-IsStable =
        let kept = k user.uid (passwd_line user) in
        let fields = passwd_fields kept (no_colon user.uid (passwd_line user)).0 in
        record {
          printed = passwd_printed kept;
          no_newline =
              passwd_lacks kept b'\n' (newline-Lacks user.uid (passwd_line user)) refl
                (ground arith) number-newline;
          no_cr =
              passwd_lacks kept b'\r' (cr-Lacks user.uid (passwd_line user)) refl (ground arith)
                number-cr;
          found = ap (has_id user.uid) fields ∙ found_by user.uid _ _ _ p.uid;
          same_again =
              ap (λ fs. passwd_line user (take_fields fs (default_entry user.name))) fields;
        }

    group-IsStable :
        IsStable user.gid user.name
          (group_line user)
          data_
          (group_entry (k user.gid (group_line user)))
    unfolding k take_fields group_line
    group-IsStable =
        let kept = k user.gid (group_line user) in
        let fields = group_fields kept (no_colon user.gid (group_line user)) in
        record {
          printed = group_printed kept;
          no_newline =
              group_lacks kept b'\n' (newline-Lacks user.gid (group_line user)) refl (ground arith)
                number-newline;
          no_cr =
              group_lacks kept b'\r' (cr-Lacks user.gid (group_line user)) refl (ground arith)
                number-cr;
          found = ap (has_id user.gid) fields ∙ found_by user.gid _ _ _ p.gid;
          same_again = ap (λ fs. group_line user (take_fields fs (default_entry user.name))) fields;
        }

-- Of a file without carriage returns whose lines fit, either rewriting makes one that has exactly
-- one entry with the id of the user or group. Rewritten again that file stays as it is, unless
-- the new entry is too long for a line. The name of the user must keep to its field.
pub set_again :
    (user : UnixUser)
    → IsPlain user
    → (data_ : Text) → Without b'\r' data_
    → fits (split_lines data_) ≡ true
    → ((entry after : Text) × HasOne user.uid (set_passwd user) data_ entry after)
      × ((entry after : Text) × HasOne user.gid (set_group user) data_ entry after)
unfolding set_passwd set_group
set_again user p data_ plain short =
    let passwd = passwd-IsStable user p data_ plain in
    let group = group-IsStable user p data_ plain in
    (
      (_, _, stable user.uid user.name (passwd_line user) data_ plain short _ passwd),
      (_, _, stable user.gid user.name (group_line user) data_ plain short _ group),
    )

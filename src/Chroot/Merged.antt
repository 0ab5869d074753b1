-- ===== src/Chroot/Merged.antt =====
-- The router and the helper agree on the image root: where mergeDockerRootOp.apply of
-- pkg/actionrouter/op_merge.go moves the working directory, splitChrootPath finds the root that the
-- worker made of the input root, whatever directory that is.
use bb_action_router.Base.{
  Text, codes, same, join_with, same_refl, split_slash, add_byte, join-split, ℕ, ◌≡◌, refl, sym, ap,
  subst, ◌∙◌, inl, inr, some, List, [], ◌∷◌, ◌++◌, arith, ◌==◌, Bool-cases, All,
}
use bb_action_router.Status.{Result, ok, ok-injective}
use bb_action_router.Reapi.{Command}
use bb_action_router.Router.State.{World, State}
use bb_action_router.Router.Template.{Template}
use mathlib.Core.Option.{some-injective}
use mathlib.Core.List.{append-nil, append_assoc}
use bb_action_router.Router.Merge.{bazel_input_root_directory_name, apply_merge}
use bb_action_router.Router.Merging.{Merges, merged, refused, apply_merge-Merges}
use bb_action_router.Chroot.Split.{
  root_of, split_parts, split_chroot_path, IsOther, split_parts-found, split_parts-passed,
}

split_slash-parts : (s : Text) → (p : Text) × (ps : List Text) × (split_slash s ≡ p ∷ ps)
unfolding split_slash add_byte
split_slash-parts [] = ([], [], refl)
split_slash-parts (c ∷ s) =
    let (p, ps, e) = split_slash-parts s in
    elim (Bool-cases (c == b'/')) [
      | inl slash ↦ ([], p ∷ ps, rw (e, slash) refl)
      | inr other ↦ (c ∷ p, ps, rw (e, other) refl)
    ]

add_byte-append :
    (c : ℕ) (p : Text) (ps qs : List Text) → add_byte c ((p ∷ ps) ++ qs) ≡ add_byte c (p ∷ ps) ++ qs
unfolding add_byte
add_byte-append c p ps qs = ground arith

split_slash-append :
    (a b : Text) → split_slash (a ++ (codes "/" ++ b)) ≡ split_slash a ++ split_slash b
unfolding split_slash
split_slash-append [] b = (let (p, ps, e) = split_slash-parts b in rw e (unfold add_byte in refl))
split_slash-append (c ∷ a) b =
    let (p, ps, e) = split_slash-parts a in
    ap (add_byte c) (split_slash-append a b ∙ ap (λ l. l ++ split_slash b) e)
    ∙ add_byte-append c p ps (split_slash b)
    ∙ ap (λ l. add_byte c l ++ split_slash b) (sym e)

split_parts-others :
    (before xs ys : List Text)
    → All IsOther xs
    → split_parts before (xs ++ ys) ≡ split_parts (before ++ xs) ys
split_parts-others before [] ys all = ap (λ l. split_parts l ys) (sym (append-nil before))
split_parts-others before (x ∷ xs) ys all =
    split_parts-passed before x (xs ++ ys) all.0
    ∙ split_parts-others (before ++ (x ∷ [])) xs ys all.1
    ∙ ap (λ l. split_parts l ys) (append_assoc before (x ∷ []) xs)

root_of-split : (c : ℕ) (base : Text) → root_of (split_slash (c ∷ base)) ≡ c ∷ base
unfolding root_of same
root_of-split c base = rw (join-split (c ∷ base)) refl

abbrev Name : Text
Name = bazel_input_root_directory_name

split_slash-name : split_slash Name ≡ Name ∷ []
unfolding split_slash add_byte
split_slash-name = refl

split_slash-below : (wd : Text) → split_slash (Name ++ (codes "/" ++ wd)) ≡ Name ∷ split_slash wd
split_slash-below wd = split_slash-append Name wd ∙ ap (λ l. l ++ split_slash wd) split_slash-name

join-below : (wd : Text) → join_with (codes "/") (Name ∷ split_slash wd) ≡ Name ++ (codes "/" ++ wd)
join-below wd =
    ap (join_with (codes "/")) (sym (split_slash-below wd)) ∙ join-split (Name ++ (codes "/" ++ wd))

split_moved :
    (c : ℕ) (base wd : Text)
    → All IsOther (split_slash (c ∷ base))
    → let moved = codes "/" ++ (Name ++ (codes "/" ++ wd)) in
      split_chroot_path ((c ∷ base) ++ moved) ≡ ok (c ∷ base, moved)
unfolding split_chroot_path
split_moved c base wd others =
    ap (split_parts []) (
      split_slash-append (c ∷ base) (Name ++ (codes "/" ++ wd))
      ∙ ap (λ l. split_slash (c ∷ base) ++ l) (split_slash-below wd))
    ∙ split_parts-others [] (split_slash (c ∷ base)) (Name ∷ split_slash wd) others
    ∙ split_parts-found (split_slash (c ∷ base)) Name (split_slash wd) (same_refl Name)
    ∙ rw (root_of-split c base, join-below wd) refl

-- When a merge has succeeded, its command has a working directory below the input root of the
-- action. Run from there, in a directory where a worker has put the merged root and which has no
-- part with the name of the input root, the helper takes just that directory for the image root,
-- and goes to the working directory within it.
pub merged_root_is_found :
    (w : World) (image_ref : Template) (s : State) (command : Command) (c : ℕ) (base : Text)
    → (apply_merge w image_ref s).0 ≡ ok tt
    → (apply_merge w image_ref s).1.command ≡ some (ok command)
    → All IsOther (split_slash (c ∷ base))
    → split_chroot_path ((c ∷ base) ++ (codes "/" ++ command.working_directory))
      ≡ ok (c ∷ base, codes "/" ++ command.working_directory)
merged_root_is_found w image_ref s command c base succeeds is_left others =
    go _ (apply_merge-Merges w image_ref s) succeeds is_left
  where
    go :
        (r : Result (Unit {0}) × State)
        → Merges w image_ref s r
        → r.0 ≡ ok tt
        → r.1.command ≡ some (ok command)
        → split_chroot_path ((c ∷ base) ++ (codes "/" ++ command.working_directory))
          ≡ ok (c ∷ base, codes "/" ++ command.working_directory)
    go _ (refused x u loads) done left = cc done
    go _ (merged m) done left =
        subst
          (λ (d : Command).
            split_chroot_path ((c ∷ base) ++ (codes "/" ++ d.working_directory))
            ≡ ok (c ∷ base, codes "/" ++ d.working_directory))
          (ok-injective (some-injective _ _ left))
          (split_moved c base m.command.working_directory others)

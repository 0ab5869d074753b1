-- ===== src/Chroot/Split.antt =====
-- splitChrootPath of cmd/bb_chroot_helper_privileged/main.go.
use bb_action_router.Base.{
  Text, codes, same, join_with, same_iff, split_slash, join-split, join-append, ◌≡◌, refl, sym, ap,
  subst, ◌∙◌, inl, inr, true, false, List, [], ◌∷◌, ◌++◌, arith, if◌then◌else◌, Bool-cases, All,
  All-append,
}
use mathlib.Core.List.{append-nil, append_assoc}
use bb_action_router.Status.{Result, Result-cases, ok, err, status, unknown}
use bb_action_router.Router.Merge.{bazel_input_root_directory_name}

-- The directory to change the root to: "/" for the parts of an empty path.
unfoldable pub root_of : List Text → Text
root_of parts =
    let chroot_dir = join_with (codes "/") parts in
    if same chroot_dir [] then codes "/" else chroot_dir

-- The loop over the parts, with those before the index.
unfoldable pub split_parts : List Text → List Text → Result (Text × Text)
split_parts before [] = err (status unknown "could not find %s in path %s")
split_parts before (part ∷ parts) =
    let rest = split_parts (before ++ (part ∷ [])) parts in
    if same part bazel_input_root_directory_name
    then ok (root_of before, codes "/" ++ join_with (codes "/") (part ∷ parts))
    else rest

unfoldable pub split_chroot_path : Text → Result (Text × Text)
split_chroot_path cwd = split_parts [] (split_slash cwd)

abbrev pub IsOther : Text → Type 0
IsOther part = same part bazel_input_root_directory_name ≡ false

-- A path as what stands before the first part with the name of the input root, and the rest.
pub record SplitsAt (parts : List Text) (chroot_dir working_dir : Text) : Type 0 where
  before : List Text
  rest : List Text
  whole : parts ≡ before ++ (bazel_input_root_directory_name ∷ rest)
  first : All IsOther before
  chroot : chroot_dir ≡ root_of before
  working :
      working_dir ≡ codes "/" ++ join_with (codes "/") (bazel_input_root_directory_name ∷ rest)

abbrev Answer : List Text → Result (Text × Text) → Type 0
Answer parts (ok r) = SplitsAt parts r.0 r.1
Answer parts (err e) = All IsOther parts

module _ (before : List Text) (part : Text) (parts : List Text) where
  pub split_parts-found :
      same part bazel_input_root_directory_name ≡ true
      → split_parts before (part ∷ parts)
        ≡ ok (root_of before, codes "/" ++ join_with (codes "/") (part ∷ parts))
  unfolding split_parts
  split_parts-found e = rw (e) refl

  pub split_parts-passed :
      same part bazel_input_root_directory_name ≡ false
      → split_parts before (part ∷ parts) ≡ split_parts (before ++ (part ∷ [])) parts
  unfolding split_parts
  split_parts-passed e = rw (e) refl

split_parts-Answer :
    (before parts : List Text)
    → All IsOther before
    → Answer (before ++ parts) (split_parts before parts)
unfolding split_parts
split_parts-Answer before [] h = subst (All IsOther) (sym (append-nil before)) h
split_parts-Answer before (part ∷ parts) h =
    elim (Bool-cases (same part bazel_input_root_directory_name)) [
      | inl e ↦
          let named = (same_iff part bazel_input_root_directory_name).0 e in
          subst (Answer (before ++ (part ∷ parts))) (sym (split_parts-found before part parts e))
            (record {
              before = before;
              rest = parts;
              whole = ap (λ p. before ++ (p ∷ parts)) named;
              first = h;
              chroot = refl;
              working = ap (λ p. codes "/" ++ join_with (codes "/") (p ∷ parts)) named;
            })
      | inr e ↦
          subst (Answer (before ++ (part ∷ parts))) (sym (split_parts-passed before part parts e)) (
            subst (λ all. Answer all (split_parts (before ++ (part ∷ [])) parts))
              (append_assoc before (part ∷ []) parts)
              (split_parts-Answer (before ++ (part ∷ [])) parts
                (All-append IsOther before (part ∷ []) h (e, tt))))
    ]

abbrev pub Answers : Text → Result (Text × Text) → Type 0
Answers cwd (ok r) =
    (parted : SplitsAt (split_slash cwd) r.0 r.1) × (cwd
      ≡ join_with (codes "/") parted.before ++ r.1)
Answers cwd (err e) = All IsOther (split_slash cwd)

joined_again :
    (s w : Text) (before rest : List Text)
    → split_slash (b'/' ∷ s) ≡ before ++ (bazel_input_root_directory_name ∷ rest)
    → w ≡ codes "/" ++ join_with (codes "/") (bazel_input_root_directory_name ∷ rest)
    → (b'/' ∷ s) ≡ join_with (codes "/") before ++ w
unfolding join_with
joined_again s w [] [] e f = ground (arith, join-split (b'/' ∷ s), ap (join_with (codes "/")) e)
joined_again s w [] (p ∷ rest) e f =
    ground (arith, join-split (b'/' ∷ s), ap (join_with (codes "/")) e)
joined_again s w (b ∷ before) rest e f =
    sym (join-split (b'/' ∷ s))
    ∙ (ap (join_with (codes "/")) e
        ∙ (join-append (codes "/") b before bazel_input_root_directory_name rest
            ∙ ap (join_with (codes "/") (b ∷ before) ++◌) (sym f)))

-- An absolute path is refused exactly if none of its parts has the name of the input root. Else
-- it is split at the first such part: the working directory is the path from that part on, the
-- root what stands before it, or "/" where nothing does, and the two make up the whole path.
pub split_chroot_path-Answers : (s : Text) → Answers (b'/' ∷ s) (split_chroot_path (b'/' ∷ s))
unfolding split_chroot_path
split_chroot_path-Answers s = elim (Result-cases (split_parts [] (split_slash (b'/' ∷ s)))) [
  | inl (r, e) ↦
      let parted =
        subst (Answer (split_slash (b'/' ∷ s))) e
          (split_parts-Answer [] (split_slash (b'/' ∷ s)) tt) in
      subst (Answers (b'/' ∷ s)) (sym e)
        (parted, joined_again s r.1 parted.before parted.rest parted.whole parted.working)
  | inr (x, e) ↦ subst (Answers (b'/' ∷ s)) (sym e) (
      subst (Answer (split_slash (b'/' ∷ s))) e (split_parts-Answer [] (split_slash (b'/' ∷ s)) tt))
]

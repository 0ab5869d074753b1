-- ===== src/Layers/Proper.antt =====
-- Trees in which every directory has each name at most once.
pub mod Changes
use bb_action_router.Base.{
  Text, same, same_iff, same_refl, same_comm, has, put, remove, IsMap, put-IsMap, remove-IsMap, ℕ,
  ◌+◌, ◌≤◌, ◌≡◌, refl, sym, ap, subst, ◌∙◌, inl, inr, Bool, true, false, not, ◌&&◌, ◌||◌, none,
  some, List, [], ◌∷◌, arith, if◌then◌else◌, Bool-cases, Option-cases, All,
}
use bb_action_router.Reapi.{FileNode, SymlinkNode}
use bb_action_router.Layers.Tree.{
  Dir, dir, Dirs, no_dirs, more_dirs, new_dir, find_dir, remove_dir, put_dir, delete, put_sub_dir,
  put_file, put_symlink, put_hard_link, at_child, sub_dirs,
}

unfoldable pub has_dir : Text → Dirs → Bool
has_dir name no_dirs = false
has_dir name (more_dirs n d ds) = let rest = has_dir name ds in if same n name then true else rest

abbrev pub count : Bool → ℕ
count true = 1
count false = 0

-- How many of the four maps have the name.
abbrev pub occurrences : Text → Dir → ℕ
occurrences name (dir ds fs ss hs) =
    count (has_dir name ds) + count (has name fs) + (count (has name ss) + count (has name hs))

unfoldable mutual
  pub IsProper : Dir → Type 0
  IsProper (dir ds fs ss hs) =
      ((name : Text) → occurrences name (dir ds fs ss hs) ≤ 1)
      × (IsMap fs × IsMap ss × IsMap hs)
      × (All (λ e. e.1.name ≡ e.0) fs × All (λ e. e.1.name ≡ e.0) ss)
      × AllProper ds

  pub AllProper : Dirs → Type 0
  AllProper no_dirs = Unit
  AllProper (more_dirs n d ds) = (has_dir n ds ≡ false) × IsProper d × AllProper ds

module _ {ℓ} {V : Type ℓ} where
  has-put : (k j : Text) (v : V) (m : List (Text × V)) → has k (put j v m) ≡ (same j k || has k m)
  unfolding has put
  has-put k j v [] = ground arith
  has-put k j v ((i, w) ∷ m) = ground (arith, has-put k j v m, same_iff i j)

  has-remove : (k j : Text) (m : List (Text × V)) → has k (remove j m) ≡ (not (same j k) && has k m)
  unfolding has remove
  has-remove k j [] = ground arith
  has-remove k j ((i, w) ∷ m) =
      ground (arith, has-remove k j m, same_iff i j, same_iff i k, same_iff j k)

  All-put :
      (P : Text × V → Type 0) (j : Text) (v : V) (m : List (Text × V))
      → P (j, v)
      → All P m
      → All P (put j v m)
  unfolding put
  All-put P j v [] p h = (p, tt)
  All-put P j v ((i, w) ∷ m) p h = elim (Bool-cases (same i j)) [
    | inl e ↦ rw e (p, h.1)
    | inr e ↦ rw e (h.0, All-put P j v m p h.1)
  ]

  All-remove :
      (P : Text × V → Type 0) (j : Text) (m : List (Text × V)) → All P m → All P (remove j m)
  unfolding remove
  All-remove P j [] h = tt
  All-remove P j ((i, w) ∷ m) h = elim (Bool-cases (same i j)) [
    | inl e ↦ rw e (All-remove P j m h.1)
    | inr e ↦ rw e (h.0, All-remove P j m h.1)
  ]

has_dir-put :
    (k j : Text) (d : Dir) (ds : Dirs) → has_dir k (put_dir j d ds) ≡ (same j k || has_dir k ds)
unfolding has_dir put_dir
has_dir-put k j d no_dirs = ground arith
has_dir-put k j d (more_dirs i e ds) = ground (arith, has_dir-put k j d ds, same_iff i j)

has_dir-remove :
    (k j : Text) (ds : Dirs) → has_dir k (remove_dir j ds) ≡ (not (same j k) && has_dir k ds)
unfolding has_dir remove_dir
has_dir-remove k j no_dirs = ground arith
has_dir-remove k j (more_dirs i e ds) =
    ground (arith, has_dir-remove k j ds, same_iff i j, same_iff i k, same_iff j k)

find_dir-has : (k : Text) (ds : Dirs) → find_dir k ds ≡ none → has_dir k ds ≡ false
unfolding find_dir has_dir
find_dir-has k no_dirs e = refl
find_dir-has k (more_dirs i d ds) e = ground (arith, find_dir-has k ds)

found-has : (k : Text) (ds : Dirs) (d : Dir) → find_dir k ds ≡ some d → has_dir k ds ≡ true
unfolding find_dir has_dir
found-has k no_dirs d e = cc e
found-has k (more_dirs i c ds) d e = ground (arith, found-has k ds d)

AllProper-put :
    (j : Text) (d : Dir) (ds : Dirs) → IsProper d → AllProper ds → AllProper (put_dir j d ds)
unfolding put_dir AllProper has_dir
AllProper-put j d no_dirs p h = (refl, p, tt)
AllProper-put j d (more_dirs i e ds) p h = elim (Bool-cases (same i j)) [
  | inl f ↦ rw f (ap (λ x. has_dir x ds) (sym ((same_iff i j).0 f)) ∙ h.0, p, h.2)
  | inr f ↦
      rw f
        (ground (arith, has_dir-put i j d ds, same_comm i j, h.0), h.1, AllProper-put j d ds p h.2)
]

AllProper-remove : (j : Text) (ds : Dirs) → AllProper ds → AllProper (remove_dir j ds)
unfolding remove_dir AllProper has_dir
AllProper-remove j no_dirs h = tt
AllProper-remove j (more_dirs i e ds) h = elim (Bool-cases (same i j)) [
  | inl f ↦ rw f (AllProper-remove j ds h.2)
  | inr f ↦ rw f (ground (arith, has_dir-remove i j ds, h.0), h.1, AllProper-remove j ds h.2)
]

AllProper-find :
    (j : Text) (ds : Dirs) (d : Dir) → AllProper ds → find_dir j ds ≡ some d → IsProper d
unfolding find_dir AllProper
AllProper-find j no_dirs d h e = cc e
AllProper-find j (more_dirs i c ds) d h e = elim (Bool-cases (same i j)) [
  | inl f ↦ let same_dir : c ≡ d = ground arith in subst IsProper same_dir h.1
  | inr f ↦ AllProper-find j ds d h.2 (ground arith)
]

pub new_dir-IsProper : IsProper new_dir
unfolding IsProper AllProper has has_dir
new_dir-IsProper = ((λ name. omega arith), (tt, tt, tt), (tt, tt), tt)

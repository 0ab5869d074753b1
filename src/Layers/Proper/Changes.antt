-- ===== src/Layers/Proper/Changes.antt =====
-- Changes of a directory after which it still has each name at most once.
use bb_action_router.Base.{
  Text, same, same_iff, same_refl, put-IsMap, remove-IsMap, ◌≡◌, refl, ◌∙◌, inl, inr, some, List,
  [], ◌∷◌, arith, if◌then◌else◌, Option-cases,
}
use bb_action_router.Reapi.{FileNode, SymlinkNode}
use bb_action_router.Layers.Tree.{
  Dir, dir, new_dir, find_dir, delete, put_sub_dir, put_file, put_symlink, put_hard_link, at_child,
  sub_dirs,
}
use bb_action_router.Layers.Proper.{
  occurrences, IsProper, AllProper, has-put, has-remove, All-put, All-remove, has_dir-put,
  has_dir-remove, found-has, AllProper-put, AllProper-remove, AllProper-find, new_dir-IsProper,
}

occurrences-delete :
    (k j : Text) (d : Dir) → occurrences k (delete j d) ≡ (if same j k then 0 else occurrences k d)
unfolding delete
occurrences-delete k j (dir ds fs ss hs) =
    ground (arith, has_dir-remove k j ds, has-remove k j fs, has-remove k j ss, has-remove k j hs)

pub delete-IsProper : (j : Text) (d : Dir) → IsProper d → IsProper (delete j d)
unfolding IsProper delete
delete-IsProper j (dir ds fs ss hs) (once, (mf, ms, mh), (nf, ns), all) = (
  (λ name. ground (arith, occurrences-delete name j (dir ds fs ss hs), once name)),
  (remove-IsMap j fs mf, remove-IsMap j ss ms, remove-IsMap j hs mh),
  (All-remove (λ e. e.1.name ≡ e.0) j fs nf, All-remove (λ e. e.1.name ≡ e.0) j ss ns),
  AllProper-remove j ds all,
)

-- A directory in which the name is free may be given an entry of that name.
pub put_file-IsProper :
    (j : Text) (f : FileNode) (d : Dir)
    → f.name ≡ j
    → occurrences j d ≡ 0
    → IsProper d
    → IsProper (put_file j f d)
unfolding IsProper
put_file-IsProper j f (dir ds fs ss hs) named free (once, (mf, ms, mh), (nf, ns), all) = (
  (λ name. ground (arith, has-put name j f fs, once name, same_iff j name, free)),
  (put-IsMap j f fs mf, ms, mh),
  (All-put (λ e. e.1.name ≡ e.0) j f fs named nf, ns),
  all,
)

pub put_symlink-IsProper :
    (j : Text) (l : SymlinkNode) (d : Dir)
    → l.name ≡ j
    → occurrences j d ≡ 0
    → IsProper d
    → IsProper (put_symlink j l d)
unfolding IsProper
put_symlink-IsProper j l (dir ds fs ss hs) named free (once, (mf, ms, mh), (nf, ns), all) = (
  (λ name. ground (arith, has-put name j l ss, once name, same_iff j name, free)),
  (mf, put-IsMap j l ss ms, mh),
  (nf, All-put (λ e. e.1.name ≡ e.0) j l ss named ns),
  all,
)

pub put_hard_link-IsProper :
    (j target : Text) (d : Dir)
    → occurrences j d ≡ 0
    → IsProper d
    → IsProper (put_hard_link j target d)
unfolding IsProper
put_hard_link-IsProper j target (dir ds fs ss hs) free (once, (mf, ms, mh), named, all) = (
  (λ name. ground (arith, has-put name j target hs, once name, same_iff j name, free)),
  (mf, ms, put-IsMap j target hs mh),
  named,
  all,
)

put_sub_dir-IsProper :
    (j : Text) (c d : Dir)
    → IsProper c
    → occurrences j d ≡ 0
    → IsProper d
    → IsProper (put_sub_dir j c d)
unfolding IsProper
put_sub_dir-IsProper j c (dir ds fs ss hs) p free (once, maps, named, all) = (
  (λ name. ground (arith, has_dir-put name j c ds, once name, same_iff j name, free)),
  maps,
  named,
  AllProper-put j c ds p all,
)

pub free_after_delete : (j : Text) (d : Dir) → occurrences j (delete j d) ≡ 0
free_after_delete j d = occurrences-delete j j d ∙ rw (same_refl j) refl

-- A subdirectory may be replaced.
replace_dir-IsProper :
    (j : Text) (c old d : Dir)
    → find_dir j (sub_dirs d) ≡ some old
    → IsProper d
    → IsProper c
    → IsProper (put_sub_dir j c d)
unfolding IsProper
replace_dir-IsProper j c old (dir ds fs ss hs) found (once, maps, named, all) p = (
  (λ name.
      ground
        (arith, has_dir-put name j c ds, found-has j ds old found, once name, same_iff j name)),
  maps,
  named,
  AllProper-put j c ds p all,
)

sub_dirs-AllProper : (d : Dir) → IsProper d → AllProper (sub_dirs d)
unfolding IsProper
sub_dirs-AllProper (dir ds fs ss hs) h = h.3

pub at_child-IsProper :
    (path : List Text) (f : Dir → Dir) (d : Dir)
    → ((c : Dir) → IsProper c → IsProper (f c))
    → IsProper d
    → IsProper (at_child path f d)
unfolding at_child
at_child-IsProper [] f d keeps h = keeps d h
at_child-IsProper (name ∷ path) f d keeps h = elim (Option-cases (find_dir name (sub_dirs d))) [
  | inr (c, e) ↦
      let new = at_child path f c in
      let p =
        at_child-IsProper path f c keeps
          (AllProper-find name (sub_dirs d) c (sub_dirs-AllProper d h) e) in
      rw (e, at_child) (replace_dir-IsProper name new c d e h p)
  | inl e ↦
      let new = at_child path f new_dir in
      let p = at_child-IsProper path f new_dir keeps new_dir-IsProper in
      rw (e, at_child)
        (put_sub_dir-IsProper name new (delete name d) p (free_after_delete name d)
          (delete-IsProper name d h))
]

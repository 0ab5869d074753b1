-- ===== src/Layers/Tree.antt =====
-- uploadDirState: a directory with its four maps. The map of the subdirectories is a type of its
-- own, in mutual recursion with the directories.
use bb_action_router.Base.{
  Text, same, put, remove, Option, none, some, List, [], ◌∷◌, if◌then◌else◌,
}
use bb_action_router.Reapi.{FileNode, SymlinkNode}

mutual
  pub data Dir : Type 0 where
    dir : Dirs → List (Text × FileNode) → List (Text × SymlinkNode) → List (Text × Text) → Dir

  pub data Dirs : Type 0 where
    no_dirs : Dirs
    more_dirs : Text → Dir → Dirs → Dirs

abbrev pub sub_dirs : Dir → Dirs
sub_dirs (dir ds fs ss hs) = ds

abbrev pub files : Dir → List (Text × FileNode)
files (dir ds fs ss hs) = fs

abbrev pub symlinks : Dir → List (Text × SymlinkNode)
symlinks (dir ds fs ss hs) = ss

abbrev pub hard_links : Dir → List (Text × Text)
hard_links (dir ds fs ss hs) = hs

-- newUploadDirState
abbrev pub new_dir : Dir
new_dir = dir no_dirs [] [] []

-- The operations of Go's maps, on subdirectories.
unfoldable pub find_dir : Text → Dirs → Option Dir
find_dir name no_dirs = none
find_dir name (more_dirs n d ds) = if same n name then some d else find_dir name ds

unfoldable pub remove_dir : Text → Dirs → Dirs
remove_dir name no_dirs = no_dirs
remove_dir name (more_dirs n d ds) =
    let rest = remove_dir name ds in if same n name then rest else more_dirs n d rest

unfoldable pub put_dir : Text → Dir → Dirs → Dirs
put_dir name new no_dirs = more_dirs name new no_dirs
put_dir name new (more_dirs n d ds) =
    let rest = put_dir name new ds in
    if same n name then more_dirs name new ds else more_dirs n d rest

-- uploadDirState.delete
unfoldable pub delete : Text → Dir → Dir
delete name (dir ds fs ss hs) =
    dir (remove_dir name ds) (remove name fs) (remove name ss) (remove name hs)

abbrev pub put_sub_dir : Text → Dir → Dir → Dir
put_sub_dir name new (dir ds fs ss hs) = dir (put_dir name new ds) fs ss hs

abbrev pub put_file : Text → FileNode → Dir → Dir
put_file name file (dir ds fs ss hs) = dir ds (put name file fs) ss hs

abbrev pub put_symlink : Text → SymlinkNode → Dir → Dir
put_symlink name link (dir ds fs ss hs) = dir ds fs (put name link ss) hs

abbrev pub put_hard_link : Text → Text → Dir → Dir
put_hard_link name target (dir ds fs ss hs) = dir ds fs ss (put name target hs)

-- getChildDirState
unfoldable pub get_child : List Text → Dir → Option Dir
get_child [] d = some d
get_child (name ∷ path) d = elim (find_dir name (sub_dirs d)) [
  | none ↦ none
  | some child ↦ get_child path child
]

-- getOrCreateChildDirState, and what is then done to the directory that it returns: the tree is
-- a tree, so the change shows in it at that path alone.
unfoldable pub at_child : List Text → (Dir → Dir) → Dir → Dir
at_child [] f d = f d
at_child (name ∷ path) f d = elim (find_dir name (sub_dirs d)) [
  | some child ↦ put_sub_dir name (at_child path f child) d
  | none ↦ put_sub_dir name (at_child path f new_dir) (delete name d)
]

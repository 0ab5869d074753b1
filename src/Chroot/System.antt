-- ===== src/Chroot/System.antt =====
-- The process that bb_chroot_helper_privileged runs in, as its system calls see and change it.
-- Files have inodes, so that two paths can be hard links to one file. Each call may fail.
use bb_action_router.Base.{
  Text, ℤ, lookup, put, remove, ℕ, ◌+◌, Bool, true, false, Option, none, some, List, [], ◌∷◌, ◌++◌,
  ◌==◌, if◌then◌else◌,
}
use bb_action_router.Status.{Error, Result, ok, err, external, not_found, or_else}

-- The files, the inode of each path, and an inode that is free.
pub record Disk : Type 0 where
  pub names : List (Text × ℕ)
  pub contents : ℕ → Text
  pub free : ℕ

abbrev pub contents_of : Disk → Option ℕ → Option Text
contents_of d none = none
contents_of d (some i) = some (d.contents i)

unfoldable pub read : Text → Disk → Option Text
read path d = contents_of d (lookup path d.names)

abbrev pub set_contents : (ℕ → Text) → ℕ → Text → ℕ → Text
set_contents contents i t j = if j == i then t else contents j

abbrev pub change_inode : Text → (Text → Text) → Disk → Option ℕ → Disk
change_inode path f d (some i) = record d {
  contents = set_contents d.contents i (f (d.contents i));
}
change_inode path f d none = record {
  names = put path d.free d.names;
  contents = set_contents d.contents d.free (f []);
  free = d.free + 1;
}

-- A write through a path: to its file if there is one, else to a new file.
unfoldable pub change : Text → (Text → Text) → Disk → Disk
change path f d = change_inode path f d (lookup path d.names)

unfoldable pub unlink : Text → Disk → Disk
unlink path d = record d { names = remove path d.names }

pub data MountFlag : Type 0 where
  no_suid no_exec no_dev bind recursive private : MountFlag

pub record Mount : Type 0 where
  pub source : Text
  pub target : Text
  pub fs_type : Text
  pub flags : List MountFlag

pub data Call : Type 0 where
  unshare : Call
  mount : Mount → Call
  make_dirs : Text → ℕ → Call
  read_file : Text → Call
  remove_file : Text → Call
  write_file : Text → Text → ℕ → Call
  open_append : Text → ℕ → Call
  write_open : Text → Text → Call
  close : Text → Call
  chroot : Text → Call
  chdir : Text → Call
  set_groups : List ℤ → Call
  set_gid : ℤ → Call
  set_uid : ℤ → Call
  exec : List Text → Call

pub record Process : Type 0 where
  pub uid : ℤ
  pub gid : ℤ
  pub groups : List ℤ
  -- Paths from the root of the host, which is the empty text.
  pub root : Text
  pub cwd : Text
  pub own_namespace : Bool
  pub mounts : List Mount
  pub disk : Disk
  -- The program that the process has become.
  pub running : Option (List Text)

-- A write that fails has written nothing. The paths of chroot and chdir are absolute, so they lead
-- from the root that the process has at that time.
unfoldable pub effect : Call → Process → Process
effect unshare p = record p { own_namespace = true }
effect (mount m) p = record p { mounts = p.mounts ++ (m ∷ []) }
effect (make_dirs path mode) p = p
effect (read_file path) p = p
effect (remove_file path) p = record p { disk = unlink path p.disk }
effect (write_file path t mode) p = record p { disk = change path (λ old. t) p.disk }
effect (open_append path mode) p = record p { disk = change path (λ old. old) p.disk }
effect (write_open path t) p = record p { disk = change path (λ old. old ++ t) p.disk }
effect (close path) p = p
effect (chroot path) p = record p { root = p.root ++ path }
effect (chdir path) p = record p { cwd = p.root ++ path }
effect (set_groups groups) p = record p { groups = groups }
effect (set_gid gid) p = record p { gid = gid }
effect (set_uid uid) p = record p { uid = uid }
effect (exec args) p = record p { running = some args }

abbrev pub Exec : Type 0 → Type 0
Exec A = Process → Result A × Process

abbrev pub return : {A : Type 0} → A → Exec A
return a p = (ok a, p)

abbrev pub throw : {A : Type 0} → Error → Exec A
throw e p = (err e, p)

abbrev pub continue : {A B : Type 0} → Result A → (A → Exec B) → Exec B
continue (ok a) f p = f a p
continue (err e) f p = (err e, p)

infixl 5 ◌>>=◌ ◌>>◌
unfoldable pub ◌>>=◌ : {A B : Type 0} → Exec A → (A → Exec B) → Exec B
◌>>=◌ m f p = continue (m p).0 f (m p).1

unfoldable pub ◌>>◌ : {B : Type 0} → Exec (Unit {0}) → Exec B → Exec B
unfolding ◌>>=◌
m >> n = m >>= λ _. n

-- `if err != nil { return g(err) }`
unfoldable pub on_error : {A : Type 0} → (Error → Error) → Exec A → Exec A
on_error g m p = (or_else (m p).0 g, (m p).1)

-- `if err != nil && !ignored(err) { return g(err) }`
abbrev pub unless_error : Bool → Error → Result (Unit {0})
unless_error true e = ok tt
unless_error false e = err e

abbrev pub ignoring_result : (Error → Bool) → Result (Unit {0}) → Result (Unit {0})
ignoring_result ignored (ok u) = ok u
ignoring_result ignored (err e) = unless_error (ignored e) e

unfoldable pub ignoring : (Error → Bool) → Exec (Unit {0}) → Exec (Unit {0})
ignoring ignored m p = (ignoring_result ignored (m p).0, (m p).1)

abbrev pub found : Option Text → Result Text
found none = err (external not_found)
found (some t) = ok t

abbrev pub present : Option Text → Result (Unit {0})
present none = err (external not_found)
present (some t) = ok tt

-- Which call fails, in which state.
module _ (fails : Process → Call → Option Error) where
  unfoldable pub perform : Call → Exec (Unit {0})
  perform c p = elim (fails p c) [ some e ↦ (err e, p) | none ↦ (ok tt, effect c p) ]

  unfoldable pub read_all : Text → Exec Text
  read_all path p = elim (fails p (read_file path)) [
    | some e ↦ (err e, p)
    | none ↦ (found (read path p.disk), p)
  ]

  unfoldable pub remove_path : Text → Exec (Unit {0})
  remove_path path p = elim (fails p (remove_file path)) [
    | some e ↦ (err e, p)
    | none ↦ (present (read path p.disk), effect (remove_file path) p)
  ]

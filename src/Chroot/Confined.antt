-- ===== src/Chroot/Confined.antt =====
-- Conditions that the calls of the helper keep.
pub mod Steps
use bb_action_router.Base.{
  Text, codes, ℤ, ◌≡◌, refl, ◌∙◌, Bool, true, false, Option, none, some, List, [], ◌∷◌, ◌++◌,
  if◌then◌else◌,
}
use Prim.Native.String.{String}
use bb_action_router.Status.{Error, errorf}
use bb_action_router.Chroot.System.{
  Call, unshare, mount, make_dirs, read_file, remove_file, open_append, write_open, close, chroot,
  chdir, set_groups, set_gid, set_uid, exec, Process, effect, return, on_error, perform, read,
}
use bb_action_router.Chroot.Run.{
  UserCredentials, MountPoint, mount_points, join_path, exists_already, setup_mounts,
  append_to_file, ensure_user, create_build_user, copy_resolv_conf, drop_privileges, run,
  build_user,
}
use bb_action_router.Chroot.Leads.{
  Leads, >>=-Leads, >>-Leads, on_error-Leads, perform-Leads, ignoring-Leads, read_all-Leads,
  remove-Leads, file_contains_user-Leads, FailsBadly,
}

-- The calls that leave files and credentials alone, and those that leave the credentials alone.
abbrev pub Mounting : Call → Type 0
Mounting unshare = Unit
Mounting (mount m) = Unit
Mounting (make_dirs path mode) = Unit
Mounting _ = ⊥

abbrev pub Early : Call → Type 0
Early (set_uid uid) = ⊥
Early (exec args) = ⊥
Early _ = Unit

module _ (host_root chroot_dir working_dir : Text) (creds : UserCredentials) where
  -- In its own mount namespace, below the new root, in the working directory below that root, and
  -- with the
  -- credentials of the build user alone.
  abbrev pub IsConfined : Process → Type 0
  IsConfined p =
      (p.own_namespace ≡ true)
      × (p.root ≡ host_root ++ chroot_dir)
      × (p.cwd ≡ (host_root ++ chroot_dir) ++ working_dir)
      × (p.groups ≡ creds.gid ∷ [])
      × (p.gid ≡ creds.gid)
      × (p.uid ≡ creds.uid)

  abbrev pub Executes : List Text → Unit {0} → Process → Type 0
  Executes args u p = (p.running ≡ some args) × IsConfined p

-- What is kept while the helper has its privileges, and what a call that is refused means.
pub record Regime (fails : Process → Call → Option Error) (args : List Text)
    (Bad Priv Late Readable : Process → Type 0) : Type 0 where
  pub refused : (c : Call) → FailsBadly Bad fails Priv c
  pub refused_late : FailsBadly Bad fails Late (exec args)
  pub keeps : (c : Call) → Early c → (p : Process) → Priv p → Priv (effect c p)
  pub lowers : (uid : ℤ) (p : Process) → Priv p → Late (effect (set_uid uid) p)
  pub keeps_readable : (c : Call) → Mounting c → (p : Process) → Readable p → Readable (effect c p)
  pub absent :
      (p : Process) → Priv p → Readable p → read (codes "/etc/resolv.conf") p.disk ≡ none → Bad p

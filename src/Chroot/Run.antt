-- ===== src/Chroot/Run.antt =====
-- What the helper does: mounts, resolv.conf, the build user, chroot, privileges and exec.
use bb_action_router.Base.{
  Text, codes, same, strip_prefix, decimal, atoi, ℤ, pos, negsuc, ℕ, suc, Bool, false, ◌||◌, Option,
  none, some, List, [], ◌∷◌, ◌++◌, ◌==◌, if◌then◌else◌,
}
use Prim.Native.String.{String}
use bb_action_router.Status
use bb_action_router.Status.{
  Error, Result, ok, err, status, unknown, errorf, external, or_else, code_of, is_not_found,
  is_already_exists,
}
use bb_action_router.Chroot.Split.{split_chroot_path}
use bb_action_router.Chroot.System.{
  MountFlag, no_suid, no_exec, no_dev, bind, recursive, private, Call, unshare, mount, make_dirs,
  write_file, open_append, write_open, close, chroot, chdir, set_groups, set_gid, set_uid, exec,
  Process, Exec, return, throw, ◌>>=◌, ◌>>◌, on_error, ignoring, perform, read_all, remove_path,
}

abbrev pub build_user : Text
build_user = codes "build"

pub record UserCredentials : Type 0 where
  pub uid : ℤ
  pub gid : ℤ

-- What the helper asks its host for: the ids of a user as texts, and its own directory.
pub record Host : Type 0 where
  pub lookup_id : Text → Result (Text × Text)
  pub getwd : Result Text
  pub eval_symlinks : Text → Result Text

abbrev pub parsed : String → Option ℤ → Result ℤ
parsed message none = err (errorf message (external unknown))
parsed message (some n) = ok n

unfoldable pub lookup_user : Host → Text → Result UserCredentials
lookup_user h username =
    Status.◌>>=◌ (or_else (h.lookup_id username) (errorf "failed to lookup user %s: %w")) λ ids.
      Status.◌>>=◌ (parsed "failed to parse uid: %w" (atoi ids.0)) λ uid.
        Status.◌>>=◌ (parsed "failed to parse gid: %w" (atoi ids.1))
          λ gid. ok (record { uid = uid; gid = gid })

-- The arguments behind the marker, if it is there.
unfoldable pub skip_marker : List Text → List Text
skip_marker [] = []
skip_marker (arg ∷ args) = if same arg (codes "--") then args else arg ∷ args

-- %d
unfoldable pub format_int : ℤ → Text
format_int (pos n) = decimal (suc n) n []
format_int (negsuc n) = b'-' ∷ decimal (suc (suc n)) (suc n) []

-- filepath.Join of a directory that has been cleaned and a name in it.
abbrev pub join_path : Text → Text → Text
join_path dir name = if same dir (codes "/") then codes "/" ++ name else dir ++ (codes "/" ++ name)

pub record MountPoint : Type 0 where
  pub source : Text
  pub target : Text
  pub fs_type : Text
  pub flags : List MountFlag
  pub mode : ℕ

abbrev pub mount_points : List MountPoint
mount_points =
    record {
      source = codes "proc";
      target = codes "proc";
      fs_type = codes "proc";
      flags = no_suid ∷ no_exec ∷ no_dev ∷ [];
      mode = 0o755;
    }
    ∷ record {
      source = codes "sysfs";
      target = codes "sys";
      fs_type = codes "sysfs";
      flags = no_suid ∷ no_exec ∷ no_dev ∷ [];
      mode = 0o755;
    }
    ∷ record {
      source = codes "/dev";
      target = codes "dev";
      fs_type = [];
      flags = bind ∷ recursive ∷ [];
      mode = 0o755;
    }
    ∷ record {
      source = codes "tmpfs";
      target = codes "tmp";
      fs_type = codes "tmpfs";
      flags = no_suid ∷ no_dev ∷ [];
      mode = 0o777;
    }
    ∷ []

abbrev pub exists_already : Error → Bool
exists_already e = is_already_exists (code_of e)

abbrev pub does_not_exist : Error → Bool
does_not_exist e = is_not_found (code_of e)

unfoldable pub any_line : Text → List Text → Bool
any_line prefix [] = false
any_line prefix (line ∷ lines) = (strip_prefix prefix line).0 || any_line prefix lines

-- strings.Split(s, "\n")
unfoldable pub newline_parts : Text → List Text
newline_parts [] = [] ∷ []
newline_parts (c ∷ s) = elim (newline_parts s) [
  | [] ↦ []
  | (part ∷ parts) ↦ if c == b'\n' then [] ∷ part ∷ parts else (c ∷ part) ∷ parts
]

unfoldable pub has_user : Text → Text → Bool
has_user username data_ = any_line (username ++ codes ":") (newline_parts data_)

-- The result of os.ReadFile, with a file that does not exist as one without users.
abbrev pub user_in : Text → Result Text → Result Bool
user_in username (ok data_) = ok (has_user username data_)
user_in username (err e) = if does_not_exist e then ok false else err e

abbrev pub passwd_line : UserCredentials → Text
passwd_line creds =
    build_user
    ++ (codes ":x:"
        ++ (format_int creds.uid
            ++ (codes ":" ++ (format_int creds.gid ++ codes "::/tmp:/bin/sh\n"))))

abbrev pub group_line : UserCredentials → Text
group_line creds = build_user ++ (codes ":x:" ++ (format_int creds.gid ++ codes ":\n"))

module _ (fails : Process → Call → Option Error) where
  unfoldable pub setup_mounts : Text → List MountPoint → Exec (Unit {0})
  setup_mounts chroot_dir [] = return tt
  setup_mounts chroot_dir (m ∷ ms) =
      let target_path = join_path chroot_dir m.target in
      on_error (errorf "failed to create /%s mount point: %w")
        (ignoring exists_already (perform fails (make_dirs target_path m.mode)))
      >> on_error (errorf "failed to mount /%s: %w") (
          perform fails (
            mount (record {
              source = m.source;
              target = target_path;
              fs_type = m.fs_type;
              flags = m.flags;
            })))
      >> setup_mounts chroot_dir ms

  unfoldable pub append_to_file : Text → Text → Exec (Unit {0})
  append_to_file path line =
      perform fails (open_append path 0o644)
      >> perform fails (write_open path line)
      >> perform fails (close path)

  unfoldable pub file_contains_user : Text → Text → Exec Bool
  file_contains_user path username p =
      (user_in username (read_all fails path p).0, (read_all fails path p).1)

  -- One half of createBuildUser: an entry is appended if the file has none.
  unfoldable pub ensure_user : String → String → Text → Text → Exec (Unit {0})
  ensure_user check append path line =
      on_error (errorf check) (file_contains_user path build_user) >>= λ found.
      if found then return tt else on_error (errorf append) (append_to_file path line)

  unfoldable pub create_build_user : Text → UserCredentials → Exec (Unit {0})
  create_build_user chroot_dir creds =
      ensure_user "failed to check /etc/passwd for build user: %w"
        "failed to append build user to /etc/passwd: %w" (join_path chroot_dir (codes "etc/passwd"))
        (passwd_line creds)
      >> ensure_user "failed to check /etc/group for build group: %w"
          "failed to append build group to /etc/group: %w"
          (join_path chroot_dir (codes "etc/group")) (group_line creds)

  unfoldable pub copy_resolv_conf : Text → Exec (Unit {0})
  copy_resolv_conf chroot_dir =
      let dst = join_path chroot_dir (codes "etc/resolv.conf") in
      on_error (errorf "failed to read %s: %w") (read_all fails (codes "/etc/resolv.conf"))
      >>= λ data_.
          on_error (errorf "failed to create %s: %w")
            (perform fails (make_dirs (join_path chroot_dir (codes "etc")) 0o755))
          >> on_error (errorf "failed to remove existing %s: %w")
              (ignoring does_not_exist (remove_path fails dst))
          >> on_error (errorf "failed to write %s: %w") (perform fails (write_file dst data_ 0o644))

  unfoldable pub drop_privileges : UserCredentials → Exec (Unit {0})
  drop_privileges creds =
      on_error (errorf "failed to setgroups: %w") (perform fails (set_groups (creds.gid ∷ [])))
      >> on_error (errorf "failed to setgid: %w") (perform fails (set_gid creds.gid))
      >> on_error (errorf "failed to setuid: %w") (perform fails (set_uid creds.uid))

  unfoldable pub run : Text → Text → UserCredentials → List Text → Exec (Unit {0})
  run chroot_dir working_dir creds args =
      on_error (errorf "failed to unshare mount namespace: %w") (perform fails unshare)
      >> on_error (errorf "failed to make mounts private: %w") (
          perform fails (
            mount (record {
              source = [];
              target = codes "/";
              fs_type = [];
              flags = private ∷ recursive ∷ [];
            })))
      >> setup_mounts chroot_dir mount_points
      >> copy_resolv_conf chroot_dir
      >> create_build_user chroot_dir creds
      >> on_error (errorf "failed to chroot to %s: %w") (perform fails (chroot chroot_dir))
      >> on_error (errorf "failed to chdir to %s: %w") (perform fails (chdir working_dir))
      >> on_error (errorf "failed to drop privileges: %w") (drop_privileges creds)
      >> on_error (errorf "failed to exec %s: %w") (perform fails (exec args))

  -- main. An error is what it prints before it exits with 1.
  unfoldable pub main : Host → List Text → Exec (Unit {0})
  main h args p = elim (skip_marker args) [
    | [] ↦ throw (status unknown "Usage: %s [--] <command> [args...]") p
    | (command ∷ rest) ↦ elim (lookup_user h build_user) [
      | err e ↦ throw e p
      | ok creds ↦ elim h.getwd [
        | err e ↦ throw (errorf "failed to get working directory: %v" e) p
        | ok cwd ↦ elim (h.eval_symlinks cwd) [
          | err e ↦ throw (errorf "failed to resolve working directory: %v" e) p
          | ok resolved ↦ elim (split_chroot_path resolved) [
            | err e ↦ throw e p
            | ok place ↦ run place.0 place.1 creds (command ∷ rest) p
          ]
        ]
      ]
    ]
  ]

-- ===== src/Chroot/Confined/Steps.antt =====
-- The steps of the helper, one after the other, under a regime that their calls keep.
use bb_action_router.Base.{
  Text, codes, ◌≡◌, refl, ap, ◌∙◌, Bool, true, false, Option, List, [], ◌∷◌, ◌++◌, if◌then◌else◌,
}
use Prim.Native.String.{String}
use bb_action_router.Status.{Error, errorf}
use bb_action_router.Chroot.System.{
  Call, unshare, make_dirs, read_file, remove_file, open_append, write_open, close, chroot, chdir,
  set_groups, set_gid, set_uid, exec, Process, effect, return, on_error, perform,
}
use bb_action_router.Chroot.Run.{
  UserCredentials, MountPoint, mount_points, join_path, exists_already, setup_mounts,
  append_to_file, ensure_user, create_build_user, copy_resolv_conf, drop_privileges, run,
  build_user,
}
use bb_action_router.Chroot.Leads.{
  Leads, >>=-Leads, >>-Leads, on_error-Leads, perform-Leads, ignoring-Leads, read_all-Leads,
  remove-Leads, file_contains_user-Leads,
}
use bb_action_router.Chroot.Confined.{Mounting, Early, IsConfined, Executes, Regime}

module _ (fails : Process → Call → Option Error) (args : List Text)
    (Bad Priv Late Readable : Process → Type 0) (g : Regime fails args Bad Priv Late Readable)
    (host_root : Text) where
  -- The namespace is unshared first, and stays so.
  Own : Process → Type 0
  Own p = Priv p × (p.own_namespace ≡ true) × (p.root ≡ host_root)

  Start : Process → Type 0
  Start p = Priv p × (p.root ≡ host_root) × Readable p

  OwnStart : Process → Type 0
  OwnStart p = Priv p × (p.own_namespace ≡ true) × (p.root ≡ host_root) × Readable p

  abbrev KeepsOwn : Call → Type 0
  KeepsOwn c =
      (p : Process) → ((effect c p).own_namespace ≡ p.own_namespace) × ((effect c p).root ≡ p.root)

  -- A call that keeps the privileges.
  call : (c : Call) → Early c → KeepsOwn c → Leads Bad Own (λ (u : Unit {0}). Own) (perform fails c)
  unfolding Own
  call c early own =
      perform-Leads Bad fails c (λ p e h f. g.refused c p e h.0 f)
        (λ p h. (g.keeps c early p h.0, (own p).0 ∙ h.1, (own p).1 ∙ h.2))

  mounting :
      (c : Call)
      → Mounting c
      → Early c
      → KeepsOwn c
      → Leads Bad OwnStart (λ (u : Unit {0}). OwnStart) (perform fails c)
  unfolding OwnStart
  mounting c m early own =
      perform-Leads Bad fails c (λ p e h f. g.refused c p e h.0 f)
        (λ p h.
          (g.keeps c early p h.0, (own p).0 ∙ h.1, (own p).1 ∙ h.2, g.keeps_readable c m p h.3))

  setup_mounts-Leads :
      (chroot_dir : Text) (ms : List MountPoint)
      → Leads Bad OwnStart (λ (u : Unit {0}). OwnStart) (setup_mounts fails chroot_dir ms)
  unfolding setup_mounts OwnStart effect
  setup_mounts-Leads chroot_dir [] = record { runs = λ p h. h }
  setup_mounts-Leads chroot_dir (m ∷ ms) =
      >>-Leads Bad
        (>>-Leads Bad
          (on_error-Leads Bad (errorf "failed to create /%s mount point: %w") (
            ignoring-Leads Bad fails exists_already
              (make_dirs (join_path chroot_dir m.target) m.mode)
              (λ p e h f. g.refused (make_dirs (join_path chroot_dir m.target) m.mode) p e h.0 f)
              (λ p h. h)))
          (on_error-Leads Bad (errorf "failed to mount /%s: %w")
            (mounting _ tt tt (λ p. (refl, refl)))))
        (setup_mounts-Leads chroot_dir ms)

  append_to_file-Leads :
      (path line : Text) → Leads Bad Own (λ (u : Unit {0}). Own) (append_to_file fails path line)
  unfolding append_to_file effect
  append_to_file-Leads path line =
      >>-Leads Bad
        (>>-Leads Bad (call (open_append path 0o644) tt (λ p. (refl, refl)))
          (call (write_open path line) tt (λ p. (refl, refl))))
        (call (close path) tt (λ p. (refl, refl)))

  ensure_user-Leads :
      (check append : String) (path line : Text)
      → Leads Bad Own (λ (u : Unit {0}). Own) (ensure_user fails check append path line)
  unfolding ensure_user Own
  ensure_user-Leads check append path line =
      >>=-Leads Bad
        (on_error-Leads Bad (errorf check) (
          file_contains_user-Leads Bad fails path build_user
            (λ p e h f. g.refused (read_file path) p e h.0 f)))
        added
    where
      added :
          (found : Bool)
          → Leads Bad Own
              (λ (u : Unit {0}). Own)
              (if found
                then return tt
                else on_error (errorf append) (append_to_file fails path line))
      added true = record { runs = λ p h. h }
      added false = on_error-Leads Bad (errorf append) (append_to_file-Leads path line)

  copy_resolv_conf-Leads :
      (chroot_dir : Text)
      → Leads Bad OwnStart (λ (u : Unit {0}). Own) (copy_resolv_conf fails chroot_dir)
  unfolding copy_resolv_conf effect OwnStart Own
  copy_resolv_conf-Leads chroot_dir =
      >>=-Leads Bad
        (on_error-Leads Bad (errorf "failed to read %s: %w") (
          read_all-Leads Bad fails {Q = λ t. Own} (codes "/etc/resolv.conf")
            (λ p e h f. g.refused (read_file (codes "/etc/resolv.conf")) p e h.0 f)
            (λ p h f. g.absent p h.0 h.3 f) (λ p t h f. (h.0, h.1, h.2))))
        (λ t.
          >>-Leads Bad
            (>>-Leads Bad
              (on_error-Leads Bad (errorf "failed to create %s: %w")
                (call _ tt (λ p. (refl, refl))))
              (on_error-Leads Bad (errorf "failed to remove existing %s: %w") (
                remove-Leads Bad fails _ (λ p e h f. g.refused _ p e h.0 f)
                  (λ p h. (
                    g.keeps (remove_file (join_path chroot_dir (codes "etc/resolv.conf"))) tt p h.0,
                    h.1,
                    h.2,
                  )))))
            (on_error-Leads Bad (errorf "failed to write %s: %w") (call _ tt (λ p. (refl, refl)))))

  create_build_user-Leads :
      (chroot_dir : Text) (creds : UserCredentials)
      → Leads Bad Own (λ (u : Unit {0}). Own) (create_build_user fails chroot_dir creds)
  unfolding create_build_user
  create_build_user-Leads chroot_dir creds =
      >>-Leads Bad (ensure_user-Leads _ _ _ _) (ensure_user-Leads _ _ _ _)

  module _ (chroot_dir working_dir : Text) (creds : UserCredentials) where
    InRoot : Process → Type 0
    InRoot p = Priv p × (p.own_namespace ≡ true) × (p.root ≡ host_root ++ chroot_dir)

    InPlace : Process → Type 0
    InPlace p =
        Priv p
        × (p.own_namespace ≡ true)
        × (p.root ≡ host_root ++ chroot_dir)
        × (p.cwd ≡ (host_root ++ chroot_dir) ++ working_dir)

    InGroups : Process → Type 0
    InGroups p =
        Priv p
        × (p.own_namespace ≡ true)
        × (p.root ≡ host_root ++ chroot_dir)
        × (p.cwd ≡ (host_root ++ chroot_dir) ++ working_dir)
        × (p.groups ≡ creds.gid ∷ [])

    InGroup : Process → Type 0
    InGroup p =
        Priv p
        × (p.own_namespace ≡ true)
        × (p.root ≡ host_root ++ chroot_dir)
        × (p.cwd ≡ (host_root ++ chroot_dir) ++ working_dir)
        × (p.groups ≡ creds.gid ∷ [])
        × (p.gid ≡ creds.gid)

    Lowered : Process → Type 0
    Lowered p = Late p × IsConfined host_root chroot_dir working_dir creds p

    drop_privileges-Leads :
        Leads Bad InPlace (λ (u : Unit {0}). Lowered) (drop_privileges fails creds)
    unfolding drop_privileges InPlace InGroups InGroup Lowered effect
    drop_privileges-Leads =
        >>-Leads Bad {Q = InGroup}
          (>>-Leads Bad {Q = InGroups}
            (on_error-Leads Bad (errorf "failed to setgroups: %w") (
              perform-Leads Bad fails (set_groups (creds.gid ∷ []))
                (λ p e h f. g.refused (set_groups (creds.gid ∷ [])) p e h.0 f)
                (λ p h. (g.keeps (set_groups (creds.gid ∷ [])) tt p h.0, h.1, h.2, h.3, refl))))
            (on_error-Leads Bad (errorf "failed to setgid: %w") (
              perform-Leads Bad fails (set_gid creds.gid)
                (λ p e h f. g.refused (set_gid creds.gid) p e h.0 f)
                (λ p h. (g.keeps (set_gid creds.gid) tt p h.0, h.1, h.2, h.3, h.4, refl)))))
          (on_error-Leads Bad (errorf "failed to setuid: %w") (
            perform-Leads Bad fails (set_uid creds.uid)
              (λ p e h f. g.refused (set_uid creds.uid) p e h.0 f)
              (λ p h. (g.lowers creds.uid p h.0, (h.1, h.2, h.3, h.4, h.5, refl)))))

    pub run-Leads :
        Leads Bad
          (λ p. Priv p × (p.root ≡ host_root) × Readable p)
          (Executes host_root chroot_dir working_dir creds args)
          (run fails chroot_dir working_dir creds args)
    unfolding run Own OwnStart InRoot InPlace Lowered effect
    run-Leads =
        >>-Leads Bad {Q = Lowered}
          (>>-Leads Bad {Q = InPlace}
            (>>-Leads Bad {Q = InRoot}
              (>>-Leads Bad {Q = Own}
                (>>-Leads Bad {Q = Own}
                  (>>-Leads Bad {Q = OwnStart}
                    (>>-Leads Bad {Q = OwnStart}
                      (>>-Leads Bad {Q = OwnStart}
                        (on_error-Leads Bad (errorf "failed to unshare mount namespace: %w") (
                          perform-Leads Bad fails unshare (λ p e h f. g.refused unshare p e h.0 f)
                            (λ p h. (
                              g.keeps unshare tt p h.0,
                              refl,
                              h.1,
                              g.keeps_readable unshare tt p h.2,
                            ))))
                        (on_error-Leads Bad (errorf "failed to make mounts private: %w")
                          (mounting _ tt tt (λ p. (refl, refl)))))
                      (setup_mounts-Leads chroot_dir mount_points))
                    (copy_resolv_conf-Leads chroot_dir))
                  (create_build_user-Leads chroot_dir creds))
                (on_error-Leads Bad (errorf "failed to chroot to %s: %w") (
                  perform-Leads Bad fails (chroot chroot_dir)
                    (λ p e h f. g.refused (chroot chroot_dir) p e h.0 f)
                    (λ p h.
                      (g.keeps (chroot chroot_dir) tt p h.0, h.1, ap (λ r. r ++ chroot_dir) h.2)))))
              (on_error-Leads Bad (errorf "failed to chdir to %s: %w") (
                perform-Leads Bad fails (chdir working_dir)
                  (λ p e h f. g.refused (chdir working_dir) p e h.0 f)
                  (λ p h. (
                    g.keeps (chdir working_dir) tt p h.0,
                    h.1,
                    h.2,
                    ap (λ r. r ++ working_dir) h.2,
                  )))))
            (on_error-Leads Bad (errorf "failed to drop privileges: %w") drop_privileges-Leads))
          (on_error-Leads Bad (errorf "failed to exec %s: %w") (
            perform-Leads Bad fails (exec args) (λ p e h f. g.refused_late p e h.0 f)
              (λ p h. (refl, h.1))))

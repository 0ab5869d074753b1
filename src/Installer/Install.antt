-- ===== src/Installer/Install.antt =====
-- install of cmd/bb_chroot_helper_installer/main.go. The state is the files of the installation
-- directory by their names; every state that a system call leaves is kept, the last one first, so
-- that what another process may see is known. Each system call may fail.
use bb_action_router.Base.{Text, codes, put, remove, Option, none, some, List, [], ◌∷◌}
use bb_action_router.Status.{Error, Result, ok, err, errorf}

abbrev pub Files : Type 0
Files = List (Text × Text)

-- What a call of the system does when it fails.
pub record Disk : Type 0 where
  pub mkdir_all_fails : Files → Option Error
  -- An error but for that of a file that is not there.
  pub remove_fails : Text → Files → Option Error
  -- A failed write has left the file, or other contents in it.
  pub write_fails : Text → Files → Option (Error × Option Text)

pub record Helper : Type 0 where
  pub name : Text
  pub contents : Text

-- What a step returns, and the states that there were.
abbrev pub Run : Type 0
Run = Result (Unit {0}) × Files × List Files

abbrev pub marker : Text
marker = codes "chroot_helpers_installed"

unfoldable pub removed : (Error → Error) → Option Error → Text → Files → List Files → Run
removed wrapped (some e) name files before = (err (wrapped e), files, before)
removed wrapped none name files before = (ok tt, remove name files, files ∷ before)

unfoldable pub wrote :
    (Error → Error) → Option (Error × Option Text) → Text → Text → Files → List Files → Run
wrote wrapped none name contents files before = (ok tt, put name contents files, files ∷ before)
wrote wrapped (some (e, none)) name contents files before = (err (wrapped e), files, before)
wrote wrapped (some (e, some part)) name contents files before =
    (err (wrapped e), put name part files, files ∷ before)

unfoldable pub then_run : Run → (Files → List Files → Run) → Run
then_run (err e, files, before) next = (err e, files, before)
then_run (ok u, files, before) next = next files before

module _ (disk : Disk) where
  abbrev pub remove_file : (Error → Error) → Text → Files → List Files → Run
  remove_file wrapped name files = removed wrapped (disk.remove_fails name files) name files

  abbrev pub write_file : (Error → Error) → Text → Text → Files → List Files → Run
  write_file wrapped name contents files =
      wrote wrapped (disk.write_fails name files) name contents files

  abbrev pub install_helper : Helper → Files → List Files → Run
  install_helper h files before =
      then_run (remove_file (errorf "failed to remove old %s: %w") h.name files before)
        (write_file (errorf "failed to install %s: %w") h.name h.contents)

  -- The loop over a map, in any order of it.
  unfoldable pub install_helpers : List Helper → Files → List Files → Run
  install_helpers [] files before = (ok tt, files, before)
  install_helpers (h ∷ hs) files before =
      then_run (install_helper h files before) (install_helpers hs)

  unfoldable pub replace_helpers : List Helper → Files → List Files → Run
  replace_helpers helpers files before =
      then_run
        (remove_file (errorf "failed to remove old installation marker: %w") marker files before)
        (λ files before.
          then_run (install_helpers helpers files before)
            (write_file (errorf "failed to write installation marker: %w") marker []))

  unfoldable pub made_dir : Option Error → List Helper → Files → Run
  made_dir (some e) helpers files =
      (err (errorf "failed to create installation directory: %w" e), files, [])
  made_dir none helpers files = replace_helpers helpers files (files ∷ [])

  unfoldable pub install : List Helper → Files → Run
  install helpers files = made_dir (disk.mkdir_all_fails files) helpers files

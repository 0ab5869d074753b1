-- ===== src/Installer/Tests.antt =====
-- A new version over an old one, on a disk that does not fail.
use bb_action_router.Base.{codes, same, lookup, put, remove, ◌≡◌, refl, none, some, List, [], ◌∷◌}
use bb_action_router.Installer.Install.{
  Files, Disk, Helper, marker, removed, wrote, then_run, install_helpers, replace_helpers, made_dir,
  install,
}
use bb_action_router.Installer.Marked.{IsDistinct}
use bb_action_router.Installer.Seen.{Ends, install-Ends}

abbrev disk : Disk
disk = record {
  mkdir_all_fails = λ files. none;
  remove_fails = λ name files. none;
  write_fails = λ name files. none;
}

abbrev helpers : List Helper
helpers =
    record { name = codes "bb_chroot_helper"; contents = codes "new" }
    ∷ record { name = codes "bb_chroot_helper_privileged"; contents = codes "new root" }
    ∷ []

abbrev old : Files
old = (marker, []) ∷ (codes "bb_chroot_helper", codes "old") ∷ []

helpers-IsDistinct : IsDistinct helpers
unfolding IsDistinct same
helpers-IsDistinct = (refl, (refl, tt), (refl, tt, tt))

installs_new : lookup (codes "bb_chroot_helper") (install disk helpers old).1 ≡ some (codes "new")
unfolding install made_dir replace_helpers install_helpers then_run removed wrote lookup put remove
    same
installs_new = refl

install-Ends_example : Ends disk old helpers helpers-IsDistinct (install disk helpers old)
install-Ends_example = install-Ends disk old helpers helpers-IsDistinct

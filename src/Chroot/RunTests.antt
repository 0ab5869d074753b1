-- ===== src/Chroot/RunTests.antt =====
-- Runs of the helper, and the theorems on them.
use bb_action_router.Base.{
  Text, codes, same, strip_prefix, decimal, pos, lookup, put, ◌≡◌, refl, ◌≢◌, false, Option, none,
  some, List, [], ◌∷◌, arith, ◌==◌, if◌then◌else◌,
}
use bb_action_router.Status.{Error, ok, code_of, is_not_found}
use bb_action_router.Chroot.System.{
  Disk, read, change, Call, Process, effect, perform, read_all, on_error, ◌>>=◌, ◌>>◌,
}
use bb_action_router.Chroot.Run.{
  Host, UserCredentials, any_line, newline_parts, has_user, format_int, append_to_file,
  file_contains_user, ensure_user, create_build_user, copy_resolv_conf, run, main, build_user,
}
use bb_action_router.Chroot.Leads.{After}
use bb_action_router.Chroot.Confined.{Executes}
use bb_action_router.Chroot.Executed.{IsPermissive, run-Executes}
use bb_action_router.Chroot.ResolvConf.{IsFresh, ReadsAsBefore, Copied, copy_resolv_conf_lem}
use bb_action_router.Chroot.Started.{Started, main_confined}

-- A kernel that refuses nothing.
abbrev never : Process → Call → Option Error
never p c = none

-- passwd of the image root has no newline at its end, and is a hard link to a file of the cache.
abbrev disk : Disk
disk = record {
  names =
      (codes "/etc/resolv.conf", 0) ∷ (codes "/r/etc/passwd", 1) ∷ (codes "/cache/passwd", 1) ∷ [];
  contents = λ i. if i == 0 then codes "nameserver" else codes "root:x:0:0";
  free = 2;
}

abbrev process : Process
process = record {
  uid = pos 0;
  gid = pos 0;
  groups = [];
  root = [];
  cwd = codes "/r/bazel_exec_root";
  own_namespace = false;
  mounts = [];
  disk = disk;
  running = none;
}

abbrev creds : UserCredentials
creds = record { uid = pos 1000; gid = pos 1000 }

abbrev host : Host
host = record {
  lookup_id = λ username. ok (codes "1000", codes "1000");
  getwd = ok (codes "/r/bazel_exec_root");
  eval_symlinks = λ path. ok path;
}

-- The entry is written behind the last line, which has no newline.
appends_to_the_last_line :
    read (codes "/r/etc/passwd") (create_build_user never (codes "/r") creds process).1.disk
    ≡ some (codes "root:x:0:0build:x:1000:1000::/tmp:/bin/sh\n")
unfolding read lookup create_build_user ensure_user file_contains_user read_all on_error has_user
    any_line newline_parts strip_prefix append_to_file perform effect change put format_int decimal
    same ◌>>=◌ ◌>>◌ is_not_found code_of
appends_to_the_last_line = refl

-- And so the user is not found in the file into which it was just written.
is_not_found_again :
    has_user build_user (codes "root:x:0:0build:x:1000:1000::/tmp:/bin/sh\n") ≡ false
unfolding has_user any_line newline_parts strip_prefix
is_not_found_again = refl

-- The file of the cache that passwd is a link to has changed with it.
writes_through_a_link :
    read (codes "/cache/passwd") (create_build_user never (codes "/r") creds process).1.disk
    ≡ some (codes "root:x:0:0build:x:1000:1000::/tmp:/bin/sh\n")
unfolding read lookup create_build_user ensure_user file_contains_user read_all on_error has_user
    any_line newline_parts strip_prefix append_to_file perform effect change put format_int decimal
    same ◌>>=◌ ◌>>◌ is_not_found code_of
writes_through_a_link = refl

disk-IsFresh : IsFresh disk
unfolding lookup
disk-IsFresh path i e = ground arith

copy_resolv_conf_example :
    After
      (ReadsAsBefore (codes "/r") disk)
      (Copied (codes "/r") disk)
      (copy_resolv_conf never (codes "/r") process)
copy_resolv_conf_example =
    copy_resolv_conf_lem never (λ p c e f. cc f) (codes "/r") process disk-IsFresh

abbrev args : List Text
args = codes "--" ∷ codes "/bin/true" ∷ []

main_confined_example :
    After
      (λ q. q.running ≡ none)
      (λ (u : Unit {0}). Started process.root host args)
      (main never host args process)
main_confined_example = main_confined never host args process refl

command-IsPermissive : IsPermissive never (codes "/bin/true" ∷ [])
command-IsPermissive = record { root_may = λ p c h. refl; all_may_execute = λ p. refl }

has_resolv_conf : read (codes "/etc/resolv.conf") disk ≢ none
unfolding read lookup same
has_resolv_conf h = cc h

run-Executes_example :
    (q : Process) × (run never
        (codes "/r")
        (codes "/bazel_exec_root")
        creds
        (codes "/bin/true" ∷ [])
        process
      ≡ (ok tt, q))
    × Executes process.root
        (codes "/r")
        (codes "/bazel_exec_root")
        creds
        (codes "/bin/true" ∷ [])
        tt
        q
run-Executes_example =
    run-Executes never (codes "/bin/true" ∷ []) command-IsPermissive (codes "/r")
      (codes "/bazel_exec_root") creds process refl has_resolv_conf

-- ===== src/Chroot/Executed.antt =====
-- What the helper executes, and that it does if the kernel lets root do as it likes.
use bb_action_router.Base.{Text, codes, pos, ◌≡◌, refl, ◌≢◌, Option, none, List}
use bb_action_router.Status.{Error, Result, ok, err}
use bb_action_router.Chroot.System.{
  Call, unshare, mount, make_dirs, read_file, remove_file, write_file, open_append, write_open,
  close, chroot, chdir, set_groups, set_gid, set_uid, exec, Process, effect, read,
}
use bb_action_router.Chroot.Run.{UserCredentials, run}
use bb_action_router.Chroot.Leads.{After}
use bb_action_router.Chroot.Confined.{Mounting, Early, Executes, Regime}
use bb_action_router.Chroot.Confined.Steps.{run-Leads}

-- A regime for every kernel: what has failed has executed nothing.
module _ (fails : Process → Call → Option Error) (args : List Text) where
  Idle : Process → Type 0
  Idle p = p.running ≡ none

  keeps-Idle : (c : Call) → Early c → (p : Process) → Idle p → Idle (effect c p)
  unfolding Idle effect
  keeps-Idle unshare e p h = h
  keeps-Idle (mount m) e p h = h
  keeps-Idle (make_dirs path mode) e p h = h
  keeps-Idle (read_file path) e p h = h
  keeps-Idle (remove_file path) e p h = h
  keeps-Idle (write_file path t mode) e p h = h
  keeps-Idle (open_append path mode) e p h = h
  keeps-Idle (write_open path t) e p h = h
  keeps-Idle (close path) e p h = h
  keeps-Idle (chroot path) e p h = h
  keeps-Idle (chdir path) e p h = h
  keeps-Idle (set_groups groups) e p h = h
  keeps-Idle (set_gid gid) e p h = h
  keeps-Idle (set_uid uid) e p h = elim e [ ]
  keeps-Idle (exec args) e p h = elim e [ ]

  Idle-Regime : Regime fails args Idle Idle Idle (λ p. Unit)
  unfolding Idle effect
  Idle-Regime = record {
    refused = λ c p e h f. h;
    refused_late = λ p e h f. h;
    keeps = keeps-Idle;
    lowers = λ uid p h. h;
    keeps_readable = λ c m p h. tt;
    absent = λ p h r f. h;
  }

  -- Whichever calls fail: the helper either executes the command confined to the image root with the
  -- credentials of the build user, or it ends with an error and has executed nothing.
  pub run_confined :
      (chroot_dir working_dir : Text) (creds : UserCredentials) (p : Process)
      → p.running ≡ none
      → After
          (λ q. q.running ≡ none)
          (Executes p.root chroot_dir working_dir creds args)
          (run fails chroot_dir working_dir creds args p)
  unfolding Idle
  run_confined chroot_dir working_dir creds p h =
      (run-Leads fails args Idle Idle Idle (λ p. Unit) Idle-Regime p.root chroot_dir working_dir
          creds).runs
        p (h, refl, tt)

-- A kernel that refuses root nothing, and lets any user execute the command.
pub record IsPermissive (fails : Process → Call → Option Error) (args : List Text) : Type 0 where
  pub root_may : (p : Process) (c : Call) → p.uid ≡ pos 0 → fails p c ≡ none
  pub all_may_execute : (p : Process) → fails p (exec args) ≡ none

module _ (fails : Process → Call → Option Error) (args : List Text)
    (permissive : IsPermissive fails args) where
  IsRoot : Process → Type 0
  IsRoot p = p.uid ≡ pos 0

  HasResolvConf : Process → Type 0
  HasResolvConf p = read (codes "/etc/resolv.conf") p.disk ≢ none

  keeps-IsRoot : (c : Call) → Early c → (p : Process) → IsRoot p → IsRoot (effect c p)
  unfolding IsRoot effect
  keeps-IsRoot unshare e p h = h
  keeps-IsRoot (mount m) e p h = h
  keeps-IsRoot (make_dirs path mode) e p h = h
  keeps-IsRoot (read_file path) e p h = h
  keeps-IsRoot (remove_file path) e p h = h
  keeps-IsRoot (write_file path t mode) e p h = h
  keeps-IsRoot (open_append path mode) e p h = h
  keeps-IsRoot (write_open path t) e p h = h
  keeps-IsRoot (close path) e p h = h
  keeps-IsRoot (chroot path) e p h = h
  keeps-IsRoot (chdir path) e p h = h
  keeps-IsRoot (set_groups groups) e p h = h
  keeps-IsRoot (set_gid gid) e p h = h
  keeps-IsRoot (set_uid uid) e p h = elim e [ ]
  keeps-IsRoot (exec args) e p h = elim e [ ]

  keeps-HasResolvConf :
      (c : Call) → Mounting c → (p : Process) → HasResolvConf p → HasResolvConf (effect c p)
  unfolding HasResolvConf effect
  keeps-HasResolvConf unshare m p h = h
  keeps-HasResolvConf (mount m) e p h = h
  keeps-HasResolvConf (make_dirs path mode) m p h = h
  keeps-HasResolvConf (read_file path) m p h = elim m [ ]
  keeps-HasResolvConf (remove_file path) m p h = elim m [ ]
  keeps-HasResolvConf (write_file path t mode) m p h = elim m [ ]
  keeps-HasResolvConf (open_append path mode) m p h = elim m [ ]
  keeps-HasResolvConf (write_open path t) m p h = elim m [ ]
  keeps-HasResolvConf (close path) m p h = elim m [ ]
  keeps-HasResolvConf (chroot path) m p h = elim m [ ]
  keeps-HasResolvConf (chdir path) m p h = elim m [ ]
  keeps-HasResolvConf (set_groups groups) m p h = elim m [ ]
  keeps-HasResolvConf (set_gid gid) m p h = elim m [ ]
  keeps-HasResolvConf (set_uid uid) m p h = elim m [ ]
  keeps-HasResolvConf (exec args) m p h = elim m [ ]

  IsRoot-Regime : Regime fails args (λ p. ⊥) IsRoot (λ p. Unit) HasResolvConf
  unfolding IsRoot HasResolvConf
  IsRoot-Regime = record {
    refused = λ c p e h f. cc (permissive.root_may p c h, f);
    refused_late = λ p e h f. cc (permissive.all_may_execute p, f);
    keeps = keeps-IsRoot;
    lowers = λ uid p h. tt;
    keeps_readable = keeps-HasResolvConf;
    absent = λ p h r f. r f;
  }

  succeeds :
      (Q : Unit {0} → Process → Type 0) (r : Result (Unit {0}) × Process)
      → After (λ p. ⊥) Q r
      → (q : Process) × (r ≡ (ok tt, q)) × Q tt q
  succeeds Q (ok u, q) h = (q, refl, h)
  succeeds Q (err e, q) h = absurd h

  -- Run as root on a host with a resolv.conf, under a kernel that refuses root nothing, the helper
  -- gets to execute the command: it needs no privilege any more once it has given them up.
  pub run-Executes :
      (chroot_dir working_dir : Text) (creds : UserCredentials) (p : Process)
      → p.uid ≡ pos 0
      → read (codes "/etc/resolv.conf") p.disk ≢ none
      → (q : Process) × (run fails chroot_dir working_dir creds args p ≡ (ok tt, q))
        × Executes p.root chroot_dir working_dir creds args tt q
  unfolding IsRoot HasResolvConf
  run-Executes chroot_dir working_dir creds p h r =
      succeeds _ (run fails chroot_dir working_dir creds args p) (
        (run-Leads fails args (λ p. ⊥) IsRoot (λ p. Unit) HasResolvConf IsRoot-Regime p.root
            chroot_dir working_dir creds).runs
          p (h, refl, r))

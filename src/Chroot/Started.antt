-- ===== src/Chroot/Started.antt =====
-- The helper from its arguments on.
use bb_action_router.Base.{Text, ◌≡◌, refl, sym, subst, ◌⊎◌, inl, inr, Option, none, List, [], ◌∷◌}
use bb_action_router.Status.{Error, Result, ok, err, Result-cases}
use bb_action_router.Chroot.Split.{split_chroot_path}
use bb_action_router.Chroot.System.{Call, Process}
use bb_action_router.Chroot.Run.{
  Host, UserCredentials, build_user, lookup_user, skip_marker, run, main,
}
use bb_action_router.Chroot.Leads.{After}
use bb_action_router.Chroot.Confined.{Executes}
use bb_action_router.Chroot.Executed.{run_confined}

-- What is executed, and where: the arguments behind the marker, as the build user of the host, below
-- what stands in front of the input root in the resolved directory of the helper, from the root that
-- the helper has at first.
pub record Started (host_root : Text) (h : Host) (args : List Text) (q : Process) : Type 0 where
  pub cwd : Text
  pub resolved : Text
  pub place : Text × Text
  pub creds : UserCredentials
  pub in_directory : h.getwd ≡ ok cwd
  pub without_links : h.eval_symlinks cwd ≡ ok resolved
  pub split : split_chroot_path resolved ≡ ok place
  pub user : lookup_user h build_user ≡ ok creds
  pub executes : Executes host_root place.0 place.1 creds (skip_marker args) tt q

Idle : Process → Type 0
Idle p = p.running ≡ none

module _ (fails : Process → Call → Option Error) (h : Host) (args : List Text) (p : Process)
    (idle : p.running ≡ none) where
  ran :
      (r : Result (Unit {0}) × Process) (cwd resolved : Text) (place : Text × Text)
      (creds : UserCredentials)
      → h.getwd ≡ ok cwd
      → h.eval_symlinks cwd ≡ ok resolved
      → split_chroot_path resolved ≡ ok place
      → lookup_user h build_user ≡ ok creds
      → After (λ q. q.running ≡ none) (Executes p.root place.0 place.1 creds (skip_marker args)) r
      → After (λ q. q.running ≡ none) (λ u. Started p.root h args) r
  ran (err e, q) cwd resolved place creds a b c d x = x
  ran (ok u, q) cwd resolved place creds a b c d x = record {
    cwd = cwd;
    resolved = resolved;
    place = place;
    creds = creds;
    in_directory = a;
    without_links = b;
    split = c;
    user = d;
    executes = x;
  }

  main-run :
      (command : Text) (rest : List Text) {creds : UserCredentials} {cwd resolved : Text}
      {place : Text × Text}
      → skip_marker args ≡ command ∷ rest
      → lookup_user h build_user ≡ ok creds
      → h.getwd ≡ ok cwd
      → h.eval_symlinks cwd ≡ ok resolved
      → split_chroot_path resolved ≡ ok place
      → main fails h args p ≡ run fails place.0 place.1 creds (command ∷ rest) p
  unfolding main
  main-run command rest e f g i j = rw (e, f, g, i, j, main) refl

  List-cases : (xs : List Text) → (xs ≡ []) ⊎ ((y : Text) × (ys : List Text) × (xs ≡ y ∷ ys))
  List-cases [] = inl refl
  List-cases (y ∷ ys) = inr (y, ys, refl)

  -- Whichever calls fail: the helper either executes the command that it was given, with the image
  -- root in which it was started as its root, in the working directory below that root, and with the
  -- credentials of the build user, or it ends with an error and has executed nothing.
  pub main_confined :
      After (λ q. q.running ≡ none) (λ u. Started p.root h args) (main fails h args p)
  unfolding main
  main_confined = elim (List-cases (skip_marker args)) [
    | inl e ↦ rw (e, main) idle
    | inr (command, rest, e) ↦ elim (Result-cases (lookup_user h build_user)) [
      | inr (x, f) ↦ rw (e, f, main) idle
      | inl (creds, f) ↦ elim (Result-cases h.getwd) [
        | inr (x, g) ↦ rw (e, f, g, main) idle
        | inl (cwd, g) ↦ elim (Result-cases (h.eval_symlinks cwd)) [
          | inr (x, i) ↦ rw (e, f, g, i, main) idle
          | inl (resolved, i) ↦ elim (Result-cases (split_chroot_path resolved)) [
            | inr (x, j) ↦ rw (e, f, g, i, j, main) idle
            | inl (place, j) ↦
                subst (After (λ q. q.running ≡ none) (λ u. Started p.root h args))
                  (sym (main-run command rest e f g i j))
                  (ran (run fails place.0 place.1 creds (command ∷ rest) p) cwd resolved place creds
                    g i j f
                    (subst
                      (λ given.
                        After (λ q. q.running ≡ none) (Executes p.root place.0 place.1 creds given)
                          (run fails place.0 place.1 creds (command ∷ rest) p))
                      (sym e) (run_confined fails (command ∷ rest) place.0 place.1 creds p idle)))
          ]
        ]
      ]
    ]
  ]

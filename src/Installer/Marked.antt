-- ===== src/Installer/Marked.antt =====
-- What the steps of the installation do to the helpers and to the marker.
use bb_action_router.Base.{
  Text, same, same_refl, lookup, put, remove, lookup-put, lookup-remove, ◌≡◌, refl, sym, ap, subst,
  ◌∙◌, false, Option, none, some, List, [], ◌∷◌, arith, All,
}
use bb_action_router.Status.{Error, ok, err, errorf}
use bb_action_router.Installer.Install.{
  Files, Disk, Helper, Run, marker, removed, wrote, remove_file, write_file, then_run,
  install_helper, install_helpers,
}

-- Helpers with the same name as another one, or as the marker, there are none.
unfoldable pub IsDistinct : List Helper → Type 0
IsDistinct [] = Unit
IsDistinct (h ∷ hs) =
    (same h.name marker ≡ false) × All (λ g. same g.name h.name ≡ false) hs × IsDistinct hs

-- Every helper is there with its contents.
unfoldable pub Installed : List Helper → Files → Type 0
Installed helpers files = All (λ h. lookup h.name files ≡ some h.contents) helpers

then_run-ok :
    (r : Run) (next : Files → List Files → Run)
    → (then_run r next).0 ≡ ok tt
    → (r.0 ≡ ok tt) × ((next r.1 r.2).0 ≡ ok tt) × (then_run r next ≡ next r.1 r.2)
unfolding then_run
then_run-ok (err x, files, before) next e = cc e
then_run-ok (ok u, files, before) next e = (refl, e, refl)

removed-ok :
    (wrapped : Error → Error) (o : Option Error) (name : Text) (files : Files) (before : List Files)
    → (removed wrapped o name files before).0 ≡ ok tt
    → (removed wrapped o name files before).1 ≡ remove name files
unfolding removed
removed-ok wrapped none name files before e = refl
removed-ok wrapped (some x) name files before e = cc e

wrote-ok :
    (wrapped : Error → Error) (o : Option (Error × Option Text)) (name contents : Text)
    (files : Files) (before : List Files)
    → (wrote wrapped o name contents files before).0 ≡ ok tt
    → (wrote wrapped o name contents files before).1 ≡ put name contents files
unfolding wrote
wrote-ok wrapped none name contents files before e = refl
wrote-ok wrapped (some (x, none)) name contents files before e = cc e
wrote-ok wrapped (some (x, some part)) name contents files before e = cc e

module _ (Q : Files → Type 0) where
  -- No marker in the last state, and what is wanted of all states before.
  unfoldable pub Goes : Run → Type 0
  Goes r = (lookup marker r.1 ≡ none) × All Q r.2

  then_run-Goes :
      (r : Run) (next : Files → List Files → Run)
      → Goes r
      → ((files : Files) (before : List Files)
          → lookup marker files ≡ none
          → All Q before
          → Goes (next files before))
      → Goes (then_run r next)
  unfolding then_run Goes
  then_run-Goes (err x, files, before) next g h = g
  then_run-Goes (ok u, files, before) next g h = h files before g.0 g.1

  module _ (absent : (files : Files) → lookup marker files ≡ none → Q files) where
    removed-Goes :
        (wrapped : Error → Error) (o : Option Error) (name : Text) (files : Files)
        (before : List Files)
        → lookup marker files ≡ none
        → All Q before
        → Goes (removed wrapped o name files before)
    unfolding removed Goes
    removed-Goes wrapped none name files before a q =
        (lookup-remove name marker files ∙ ground (arith, a), (absent files a, q))
    removed-Goes wrapped (some x) name files before a q = (a, q)

    wrote-Goes :
        (wrapped : Error → Error) (o : Option (Error × Option Text)) (name contents : Text)
        (files : Files) (before : List Files)
        → same name marker ≡ false
        → lookup marker files ≡ none
        → All Q before
        → Goes (wrote wrapped o name contents files before)
    unfolding wrote Goes
    wrote-Goes wrapped none name contents files before n a q =
        (lookup-put name marker contents files ∙ rw n a, (absent files a, q))
    wrote-Goes wrapped (some (x, none)) name contents files before n a q = (a, q)
    wrote-Goes wrapped (some (x, some part)) name contents files before n a q =
        (lookup-put name marker part files ∙ rw n a, (absent files a, q))

    module _ (disk : Disk) where
      pub install_helpers-Goes :
          (hs : List Helper) (files : Files) (before : List Files)
          → IsDistinct hs
          → lookup marker files ≡ none
          → All Q before
          → Goes (install_helpers disk hs files before)
      unfolding install_helpers IsDistinct Goes
      install_helpers-Goes [] files before d a q = (a, q)
      install_helpers-Goes (h ∷ hs) files before (n, far, d) a q =
          then_run-Goes (install_helper disk h files before) (install_helpers disk hs)
            (then_run-Goes
              (remove_file disk (errorf "failed to remove old %s: %w") h.name files before)
              (write_file disk (errorf "failed to install %s: %w") h.name h.contents)
              (removed-Goes (errorf "failed to remove old %s: %w") (disk.remove_fails h.name files)
                h.name files before a q)
              (λ f b c r.
                wrote-Goes (errorf "failed to install %s: %w") (disk.write_fails h.name f) h.name
                  h.contents f b n c r))
            (λ f b c r. install_helpers-Goes hs f b d c r)

-- A helper that was installed; the others are as they were.
one_helper :
    (disk : Disk) (h : Helper) (files : Files) (before : List Files)
    → (install_helper disk h files before).0 ≡ ok tt
    → (install_helper disk h files before).1 ≡ put h.name h.contents (remove h.name files)
one_helper disk h files before e =
    let gone = remove_file disk (errorf "failed to remove old %s: %w") h.name files before in
    let write = write_file disk (errorf "failed to install %s: %w") h.name h.contents in
    let (first, second, whole) = then_run-ok gone write e in
    ap (λ r. r.1) whole
    ∙ wrote-ok (errorf "failed to install %s: %w") (disk.write_fails h.name gone.1) h.name
        h.contents gone.1 gone.2 second
    ∙ ap (put h.name h.contents) (
        removed-ok (errorf "failed to remove old %s: %w") (disk.remove_fails h.name files) h.name
          files before first)

other_helper :
    (h : Helper) (k : Text) (files : Files)
    → same h.name k ≡ false
    → lookup k (put h.name h.contents (remove h.name files)) ≡ lookup k files
other_helper h k files n =
    lookup-put h.name k h.contents (remove h.name files)
    ∙ rw n (lookup-remove h.name k files ∙ rw n refl)

module _ (disk : Disk) where
  pub install_helpers-Installed :
      (hs : List Helper) (files : Files) (before : List Files)
      → IsDistinct hs
      → (install_helpers disk hs files before).0 ≡ ok tt
      → Installed hs (install_helpers disk hs files before).1
        × ((k : Text)
            → All (λ h. same h.name k ≡ false) hs
            → lookup k (install_helpers disk hs files before).1 ≡ lookup k files)
  unfolding install_helpers IsDistinct Installed
  install_helpers-Installed [] files before d e = (tt, λ k n. refl)
  install_helpers-Installed (h ∷ hs) files before (n, far, d) e =
      let r = install_helper disk h files before in
      let (first, second, whole) = then_run-ok r (install_helpers disk hs) e in
      let now = one_helper disk h files before first in
      let (rest, frame) = install_helpers-Installed hs r.1 r.2 d second in
      subst
        (λ q.
          Installed (h ∷ hs) q.1
          × ((k : Text)
              → All (λ g. same g.name k ≡ false) (h ∷ hs)
              → lookup k q.1 ≡ lookup k files))
        (sym whole)
        (
          (
            frame h.name far
                ∙ rw
                    (
                      now,
                      lookup-put h.name h.name h.contents (remove h.name files),
                      same_refl h.name,
                    )
                    refl,
            rest,
          ),
          λ k away. frame k away.1 ∙ rw now (other_helper h k files away.0),
        )

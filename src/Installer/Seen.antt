-- ===== src/Installer/Seen.antt =====
-- What another process sees while the helpers are installed.
use bb_action_router.Base.{
  Text, same_refl, same_comm, lookup, put, remove, lookup-put, lookup-remove, ◌≡◌, refl, ◌∙◌, ◌⊎◌,
  inl, inr, Option, none, some, List, [], ◌∷◌, All,
}
use bb_action_router.Status.{Error, ok, err, errorf}
use bb_action_router.Installer.Install.{
  Files, Disk, Helper, Run, marker, removed, wrote, remove_file, write_file, then_run,
  install_helpers, replace_helpers, made_dir, install,
}
use bb_action_router.Installer.Marked.{
  IsDistinct, Installed, Goes, install_helpers-Goes, install_helpers-Installed,
}

-- The states that others may see: the one that there was, those without the marker, and those in
-- which every helper is there with its contents.
pub Seen : Files → List Helper → Files → Type 0
Seen start helpers files =
    (files ≡ start) ⊎ ((lookup marker files ≡ none) ⊎ Installed helpers files)

abbrev Saw : Files → List Helper → Run → Type 0
Saw start helpers r = Seen start helpers r.1 × All (Seen start helpers) r.2

put-Installed :
    (hs : List Helper) (mark : Text) (files : Files)
    → IsDistinct hs
    → Installed hs files
    → Installed hs (put marker mark files)
unfolding IsDistinct Installed
put-Installed [] mark files d i = tt
put-Installed (h ∷ hs) mark files (n, far, d) (here, rest) = (
  lookup-put marker h.name mark files ∙ rw (same_comm marker h.name, n) here,
  put-Installed hs mark files d rest,
)

module _ (disk : Disk) (start : Files) (helpers : List Helper) (distinct : IsDistinct helpers) where
  absent-Seen : (files : Files) → lookup marker files ≡ none → Seen start helpers files
  unfolding Seen
  absent-Seen files a = inr (inl a)

  -- The marker is written when all helpers are there.
  mark-Saw :
      (wrapped : Error → Error) (o : Option (Error × Option Text)) (files : Files)
      (before : List Files)
      → Installed helpers files
      → All (Seen start helpers) before
      → Saw start helpers (wrote wrapped o marker [] files before)
        × ((wrote wrapped o marker [] files before).0 ≡ ok tt
            → (lookup marker (wrote wrapped o marker [] files before).1 ≡ some [])
              × Installed helpers (wrote wrapped o marker [] files before).1)
  unfolding Seen wrote
  mark-Saw wrapped none files before i q =
      let kept = put-Installed helpers [] files distinct i in
      (
        (inr (inr kept), (inr (inr i), q)),
        λ e. (lookup-put marker marker [] files ∙ rw (same_refl marker) refl, kept),
      )
  mark-Saw wrapped (some (x, none)) files before i q = ((inr (inr i), q), λ e. cc e)
  mark-Saw wrapped (some (x, some part)) files before i q =
      ((inr (inr (put-Installed helpers part files distinct i)), (inr (inr i), q)), λ e. cc e)

  -- Every state is one that may be seen, and success leaves the marker and the helpers.
  pub Ends : Run → Type 0
  Ends r =
      Saw start helpers r × (r.0 ≡ ok tt → (lookup marker r.1 ≡ some []) × Installed helpers r.1)

  then_run-Ends :
      (r : Run) (next : Files → List Files → Run)
      → Saw start helpers r
      → (r.0 ≡ ok tt → Ends (next r.1 r.2))
      → Ends (then_run r next)
  unfolding Ends then_run
  then_run-Ends (err x, files, before) next q h = (q, λ e. cc e)
  then_run-Ends (ok u, files, before) next q h = h refl

  helpers-Ends :
      (files : Files) (before : List Files)
      → lookup marker files ≡ none
      → All (Seen start helpers) before
      → Ends (
          then_run
            (install_helpers disk helpers files before)
            (write_file disk (errorf "failed to write installation marker: %w") marker []))
  unfolding Goes Ends
  helpers-Ends files before a q =
      let r = install_helpers disk helpers files before in
      let goes =
        install_helpers-Goes (Seen start helpers) absent-Seen disk helpers files before distinct a
          q in
      then_run-Ends r (write_file disk (errorf "failed to write installation marker: %w") marker [])
        (absent-Seen r.1 goes.0, goes.1)
        (λ e.
          mark-Saw (errorf "failed to write installation marker: %w") (disk.write_fails marker r.1)
            r.1 r.2 (install_helpers-Installed disk helpers files before distinct e).0 goes.1)

  unmark-Saw :
      (wrapped : Error → Error) (o : Option Error) (before : List Files)
      → All (Seen start helpers) before
      → Saw start helpers (removed wrapped o marker start before)
        × ((removed wrapped o marker start before).0 ≡ ok tt
            → lookup marker (removed wrapped o marker start before).1 ≡ none)
  unfolding Seen removed
  unmark-Saw wrapped none before q =
      let gone : lookup marker (remove marker start) ≡ none =
        lookup-remove marker marker start ∙ rw (same_refl marker) refl in
      ((inr (inl gone), (inl refl, q)), λ e. gone)
  unmark-Saw wrapped (some x) before q = ((inl refl, q), λ e. cc e)

  made_dir-Ends : (o : Option Error) → Ends (made_dir disk o helpers start)
  unfolding made_dir replace_helpers Seen Ends
  made_dir-Ends (some x) = ((inl refl, tt), λ e. cc e)
  made_dir-Ends none =
      let wrapped = errorf "failed to remove old installation marker: %w" in
      let r = remove_file disk wrapped marker start (start ∷ []) in
      let (saw, gone) =
        unmark-Saw wrapped (disk.remove_fails marker start) (start ∷ []) (inl refl, tt) in
      then_run-Ends r
        (λ files before.
          then_run (install_helpers disk helpers files before)
            (write_file disk (errorf "failed to write installation marker: %w") marker []))
        saw (λ e. helpers-Ends r.1 r.2 (gone e) saw.1)

  -- Whatever fails and wherever the installation is cut off, in every state that it goes through
  -- nothing has changed yet, or the marker is not there, or every helper is there with its new
  -- contents. When it succeeds, the marker and all helpers are there. The helpers may be installed
  -- in any order; the condition is that no two have one name, and none that of the marker.
  pub install-Ends : Ends (install disk helpers start)
  unfolding install
  install-Ends = made_dir-Ends (disk.mkdir_all_fails start)

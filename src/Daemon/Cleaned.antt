-- ===== src/Daemon/Cleaned.antt =====
-- What materialize leaves behind.
use bb_action_router.Base.{
  Text, true, codes, member, without, ◌≡◌, refl, ap, ◌⊎◌, inl, inr, false, List, ◌∷◌, Bool-cases,
  Option-cases,
}
use bb_action_router.Status.{
  Error, Result, ok, err, status, unknown, errorf, or_else, Result-cases, bind-ok, ◌>>=◌,
}
use bb_action_router.Reapi.{Digest}
use bb_action_router.Daemon.Removed.{
  without-new, not_member, without-second, Tidied, remove_all-Tidied, Stuck, removed-Stuck,
}
use bb_action_router.Daemon.Materialize.{
  Materializer, remove_all, fill_root, build_root, rename_dir, final_path, move_root, moved_to,
  place_root, root_digest, materialize_from, materialize, populate_root,
}

module _ (h : Materializer)
    (fresh : (prefix d : Text) (dirs : List Text)
      → h.mkdir_temp prefix dirs ≡ ok d
      → member d dirs ≡ false) where
  -- What is left when a tree has been built, or has not.
  Built : Digest → List Text → Result Text × List Text → Type 0
  Built digest dirs (ok root, left) =
      (member root dirs ≡ false) × (left ≡ root ∷ dirs) × (populate_root h root digest ≡ ok tt)
  Built digest dirs (err e, left) = Stuck h dirs left

  fill_root-Built :
      (digest : Digest) (root : Text) (dirs : List Text)
      → member root dirs ≡ false
      → Built digest dirs (fill_root h root digest (root ∷ dirs))
  unfolding Built fill_root
  fill_root-Built digest root dirs new =
      let steps = or_else (h.chmod root) (errorf "chmod in-progress root dir: %w") >>= λ u.
      populate_root h root digest in
      elim (Result-cases steps) [
        | inr (x, f) ↦ rw (f, fill_root, Built) (removed-Stuck h root dirs new)
        | inl (u, f) ↦
            rw (f, fill_root, Built)
              (let (a, b, c) =
                  bind-ok (or_else (h.chmod root) (errorf "chmod in-progress root dir: %w"))
                    (λ u. populate_root h root digest) u f in
                (new, refl, c))
      ]

  build_root-Built :
      (digest : Digest) (dirs : List Text) → Built digest dirs (build_root h digest dirs)
  unfolding Built build_root Stuck
  build_root-Built digest dirs = elim (Result-cases (h.mkdir_temp (codes ".tmp-root-") dirs)) [
    | inr (x, e) ↦ rw (e, build_root, Built) (inl refl)
    | inl (root, e) ↦
        rw (e, build_root, Built)
          (fill_root-Built digest root dirs (fresh (codes ".tmp-root-") root dirs e))
  ]

  -- Why a root is left: the reference has no final path, or the root could not be removed.
  abbrev pub Reason : Text → Text → List Text → Type 0
  Reason ref root dirs =
      ((e : Error) × (final_path h ref ≡ err e)) ⊎ (h.remove_fails root (root ∷ dirs) ≡ true)

  Failed : Text → List Text → List Text → Type 0
  Failed ref dirs left =
      (left ≡ dirs)
      ⊎ ((root : Text) × (member root dirs ≡ false) × (left ≡ root ∷ dirs) × Reason ref root dirs)

  Stuck-Failed : (ref : Text) (dirs left : List Text) → Stuck h dirs left → Failed ref dirs left
  unfolding Stuck Failed
  Stuck-Failed ref dirs left (inl e) = inl e
  Stuck-Failed ref dirs left (inr (root, new, e, f)) = inr (root, new, e, inr f)

  Placed : Text → Digest → List Text → Result Text × List Text → Type 0
  Placed ref digest dirs (ok path, left) =
      (final_path h ref ≡ ok path)
      × (member path dirs ≡ false)
      × (left ≡ path ∷ dirs)
      × ((root : Text) × (populate_root h root digest ≡ ok tt))
  Placed ref digest dirs (err e, left) = Failed ref dirs left

  rename_dir-cases :
      (from to : Text) (dirs : List Text)
      → ((e : Error) × (rename_dir h from to dirs ≡ (err e, dirs)))
        ⊎ ((member to dirs ≡ false) × (rename_dir h from to dirs ≡ (ok tt, to ∷ without from dirs)))
  unfolding rename_dir
  rename_dir-cases from to dirs = elim (Option-cases (h.rename_fails from to)) [
    | inr (x, e) ↦ inl (x, rw (e, rename_dir) refl)
    | inl e ↦ elim (Bool-cases (member to dirs)) [
      | inl t ↦ inl (status unknown "file exists", rw (e, t, rename_dir) refl)
      | inr t ↦ inr (t, rw (e, t, rename_dir) refl)
    ]
  ]

  move_root-Placed :
      (ref : Text) (digest : Digest) (dirs : List Text) (root path : Text)
      → final_path h ref ≡ ok path
      → member root dirs ≡ false
      → populate_root h root digest ≡ ok tt
      → Placed ref digest dirs (move_root h root path (root ∷ dirs))
  unfolding Placed move_root moved_to
  move_root-Placed ref digest dirs root path f new full =
      elim (rename_dir-cases root path (root ∷ dirs)) [
        | inl (x, e) ↦
            rw (e, move_root, moved_to, Placed)
              (Stuck-Failed ref dirs _ (removed-Stuck h root dirs new))
        | inr (t, e) ↦
            rw (e, move_root, moved_to, Placed)
              (
                f,
                not_member path root dirs t,
                ap (◌∷◌ path) (without-new root dirs new),
                (root, full),
              )
      ]

  place_root-Placed :
      (ref : Text) (digest : Digest) (dirs : List Text) (r : Result Text × List Text)
      → Built digest dirs r
      → Placed ref digest dirs (place_root h ref r)
  unfolding Built Placed Failed place_root
  place_root-Placed ref digest dirs (err e, left) b = Stuck-Failed ref dirs left b
  place_root-Placed ref digest dirs (ok root, left) (new, same_left, full) =
      elim (Result-cases (final_path h ref)) [
        | inr (x, e) ↦ rw (e, same_left, place_root, Placed) (inr (root, new, refl, inl (x, e)))
        | inl (path, e) ↦
            rw (e, same_left, place_root, Placed)
              (move_root-Placed ref digest dirs root path e new full)
      ]

  -- What an error leaves: the directories that there were, and perhaps that of the blobs, if it could
  -- not be removed, and a root, for one of the reasons.
  unfoldable pub Ended : Text → List Text → List Text → Type 0
  Ended ref dirs left =
      (left ≡ dirs)
      ⊎ ((cas : Text) × (member cas dirs ≡ false)
          × (Tidied h cas (cas ∷ dirs) dirs left
              ⊎ ((root : Text) × (member root (cas ∷ dirs) ≡ false)
                  × Tidied h cas (root ∷ cas ∷ dirs) (root ∷ dirs) left
                  × Reason ref root (cas ∷ dirs))))

  unfoldable pub Materialized : Text → List Text → Result Text × List Text → Type 0
  Materialized ref dirs (ok path, left) =
      (final_path h ref ≡ ok path)
      × ((cas : Text) × (root : Text) × (digest : Digest) × (member cas dirs ≡ false)
          × (member path (cas ∷ dirs) ≡ false)
          × Tidied h cas (path ∷ cas ∷ dirs) (path ∷ dirs) left
          × (root_digest h cas ref ≡ ok digest)
          × (populate_root h root digest ≡ ok tt))
  Materialized ref dirs (err e, left) = Ended ref dirs left

  place_root-Materialized :
      (ref cas : Text) (digest : Digest) (dirs : List Text) (r : Result Text × List Text)
      → member cas dirs ≡ false
      → root_digest h cas ref ≡ ok digest
      → Placed ref digest (cas ∷ dirs) r
      → Materialized ref dirs (r.0, remove_all h cas r.1)
  unfolding Placed Failed Materialized Ended
  place_root-Materialized ref cas digest dirs (ok path, left) new up (f, away, e, (root, full)) = (
    f,
    (
      cas,
      root,
      digest,
      new,
      away,
      rw e (
          remove_all-Tidied h cas (path ∷ cas ∷ dirs) (path ∷ dirs)
            (without-second cas path dirs new away)),
      up,
      full,
    ),
  )
  place_root-Materialized ref cas digest dirs (err x, left) new up (inl e) =
      inr (
        cas,
        new,
        inl (rw e (remove_all-Tidied h cas (cas ∷ dirs) dirs (without-new cas dirs new))),
      )
  place_root-Materialized ref cas digest dirs (err x, left) new up (inr (root, away, e, why)) =
      inr (
        cas,
        new,
        inr (
          root,
          away,
          rw e (
              remove_all-Tidied h cas (root ∷ cas ∷ dirs) (root ∷ dirs)
                (without-second cas root dirs new away)),
          why,
        ),
      )

  -- Materializing an image changes the directory of the roots as it says. When it returns a path,
  -- that path is the final path of the reference, there was nothing at it, it is a directory that is
  -- new, and the tree with the digest of the uploaded image was put into a root with success. When
  -- it returns an error the directories are those that there were, but for a root that was built:
  -- that is left when the reference has no final path, or when os.RemoveAll fails for it. In each
  -- case the directory of the blobs is left as well just when os.RemoveAll fails for it, and nothing
  -- else is. The condition: the name of a new temporary directory is not that of a directory that
  -- is there.
  pub materialize_lem :
      (ref : Text) (dirs : List Text) → Materialized ref dirs (materialize h ref dirs)
  unfolding Placed Failed Materialized Ended materialize materialize_from
  materialize_lem ref dirs = elim (Result-cases (h.mkdir_temp (codes ".tmp-blobs-") dirs)) [
    | inr (x, e) ↦ rw (e, materialize, Materialized) (inl refl)
    | inl (cas, e) ↦
        let new = fresh (codes ".tmp-blobs-") cas dirs e in
        elim (Result-cases (root_digest h cas ref)) [
          | inr (x, f) ↦
              rw (e, f, materialize, materialize_from, Materialized)
                (inr (
                  cas,
                  new,
                  inl (remove_all-Tidied h cas (cas ∷ dirs) dirs (without-new cas dirs new)),
                ))
          | inl (digest, f) ↦
              rw (e, f, materialize, materialize_from, Materialized)
                (place_root-Materialized ref cas digest dirs
                  (place_root h ref (build_root h digest (cas ∷ dirs))) new f
                  (place_root-Placed ref digest (cas ∷ dirs) (build_root h digest (cas ∷ dirs))
                    (build_root-Built digest (cas ∷ dirs))))
        ]
  ]

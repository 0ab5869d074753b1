-- ===== src/Chroot/ResolvConf.antt =====
-- resolv.conf is copied without a write to a file that other paths are links to.
use bb_action_router.Base.{
  Text, codes, same, same_refl, lookup, lookup-put, lookup-remove, ℕ, ◌<◌, ◌≡◌, refl, sym, ap,
  subst, ◌∙◌, inl, inr, false, Option, none, some, arith, if◌then◌else◌, Bool-cases, Option-cases,
}
use bb_action_router.Status.{Error, errorf}
use bb_action_router.Chroot.System.{
  Disk, read, change, change_inode, unlink, contents_of, Call, remove_file, write_file, Process,
  effect,
}
use bb_action_router.Chroot.Run.{join_path, does_not_exist, copy_resolv_conf}
use bb_action_router.Chroot.Leads.{
  After, Leads, >>=-Leads, >>-Leads, on_error-Leads, perform-Leads, read_all-Leads,
  remove_missing-Leads,
}

-- Every inode that a path names is below the free ones.
abbrev pub IsFresh : Disk → Type 0
IsFresh d = (path : Text) (i : ℕ) → lookup path d.names ≡ some i → i < d.free

-- A missing file is the only reason for such an error.
abbrev pub IsHonest : (Process → Call → Option Error) → Type 0
IsHonest fails =
    (p : Process) (c : Call) (e : Error) → fails p c ≡ some e → does_not_exist e ≡ false

unlink-IsFresh : (path : Text) (d : Disk) → IsFresh d → IsFresh (unlink path d)
unfolding unlink
unlink-IsFresh path d f other i e = elim (Bool-cases (same path other)) [
  | inl s ↦ cc (lookup-remove path other d.names, e, s)
  | inr s ↦ f other i (
      subst (λ b. (if b then none else lookup other d.names) ≡ some i) s
        (sym (lookup-remove path other d.names) ∙ e))
]

unlink-absent : (path : Text) (d : Disk) → lookup path (unlink path d).names ≡ none
unfolding unlink
unlink-absent path d = lookup-remove path path d.names ∙ rw (same_refl path) refl

read-unlink :
    (path other : Text) (d : Disk)
    → same path other ≡ false
    → read other (unlink path d) ≡ read other d
unfolding unlink read
read-unlink path other d n = ap (contents_of d) (lookup-remove path other d.names ∙ rw n refl)

-- A new file is written: it has its text, and every other path reads as before.
module _ (path : Text) (t : Text) (d : Disk) (absent : lookup path d.names ≡ none) where
  written : Disk
  written = change path (λ old. t) d

  written-new : written ≡ change_inode path (λ old. t) d none
  unfolding written change
  written-new = ap (change_inode path (λ old. t) d) absent

  read-written : read path written ≡ some t
  unfolding read
  read-written =
      rw (written-new, lookup-put path path d.free d.names, same_refl path) (ground arith)

  read-written_other :
      (other : Text) → IsFresh d → same path other ≡ false → read other written ≡ read other d
  unfolding read
  read-written_other other f n = rw (written-new, lookup-put path other d.free d.names, n) rest
    where
      rest :
          contents_of (change_inode path (λ old. t) d none) (lookup other d.names)
          ≡ contents_of d (lookup other d.names)
      rest = elim (Option-cases (lookup other d.names)) [
        | inl e ↦ rw e refl
        | inr (i, e) ↦ let lt = f other i e in rw e (ground arith)
      ]

abbrev pub src : Text
src = codes "/etc/resolv.conf"

abbrev pub dst : Text → Text
dst chroot_dir = join_path chroot_dir (codes "etc/resolv.conf")

module _ (chroot_dir : Text) (before : Disk) where
  -- Every path but one reads as before.
  abbrev pub ReadsAsBefore : Process → Type 0
  ReadsAsBefore p =
      (path : Text) → same (dst chroot_dir) path ≡ false → read path p.disk ≡ read path before

  abbrev pub Copied : Unit {0} → Process → Type 0
  Copied u p = ReadsAsBefore p × (read (dst chroot_dir) p.disk ≡ read src before)

module _ (fails : Process → Call → Option Error) (honest : IsHonest fails) (chroot_dir : Text)
    (before : Disk) where
  abbrev target : Text
  target = dst chroot_dir

  abbrev SoFar : Process → Type 0
  SoFar = ReadsAsBefore chroot_dir before

  Copying : Text → Process → Type 0
  Copying t p = IsFresh p.disk × SoFar p × (read src before ≡ some t)

  Removed : Text → Process → Type 0
  Removed t p = Copying t p × (lookup target p.disk.names ≡ none)

  AtFirst : Process → Type 0
  AtFirst p = IsFresh p.disk × (p.disk ≡ before)

  copy_resolv_conf-Leads :
      Leads SoFar AtFirst (Copied chroot_dir before) (copy_resolv_conf fails chroot_dir)
  unfolding copy_resolv_conf AtFirst Copying Removed effect change written
  copy_resolv_conf-Leads =
      >>=-Leads SoFar {Q = Copying}
        (on_error-Leads SoFar (errorf "failed to read %s: %w") (
          read_all-Leads SoFar fails src (λ p e h f path n. ap (read path) h.1)
            (λ p h f path n. ap (read path) h.1)
            (λ p t h f. (h.0, (λ path n. ap (read path) h.1), ap (read src) (sym h.1) ∙ f))))
        (λ t.
          >>-Leads SoFar {Q = Removed t}
            (>>-Leads SoFar {Q = Copying t}
              (on_error-Leads SoFar (errorf "failed to create %s: %w")
                (perform-Leads SoFar fails _ (λ p e h f. h.1) (λ p h. h)))
              (on_error-Leads SoFar (errorf "failed to remove existing %s: %w") (
                remove_missing-Leads SoFar fails target (λ p e f. honest p (remove_file target) e f)
                  (λ p e h f. h.1)
                  (λ p h. (
                    (
                      unlink-IsFresh target p.disk h.0,
                      (λ path n. read-unlink target path p.disk n ∙ h.1 path n),
                      h.2,
                    ),
                    unlink-absent target p.disk,
                  )))))
            (on_error-Leads SoFar (errorf "failed to write %s: %w") (
              perform-Leads SoFar fails (write_file target t 0o644) (λ p e h f. h.0.1)
                (λ p h. (
                  (λ path n. read-written_other target t p.disk h.1 path h.0.0 n ∙ h.0.1 path n),
                  read-written target t p.disk h.1 ∙ sym h.0.2,
                )))))

-- Whichever calls fail, no path but resolv.conf in the image root reads differently afterwards, also
-- none that was a link to the same file; and if the copy succeeds, that one reads as resolv.conf of
-- the host did.
pub copy_resolv_conf_lem :
    (fails : Process → Call → Option Error)
    → IsHonest fails
    → (chroot_dir : Text) (p : Process) → IsFresh p.disk
    → After
        (ReadsAsBefore chroot_dir p.disk)
        (Copied chroot_dir p.disk)
        (copy_resolv_conf fails chroot_dir p)
unfolding AtFirst
copy_resolv_conf_lem fails honest chroot_dir p fresh =
    (copy_resolv_conf-Leads fails honest chroot_dir p.disk).runs p (fresh, refl)

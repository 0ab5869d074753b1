-- ===== src/Daemon/Socket.antt =====
-- listenUnixSocket of cmd/bb_docker_root_fetcher/main.go. The files are a map from paths to modes.
-- Whether a call of the system fails is a parameter; binding a socket fails where a file stands.
use bb_action_router.Base.{
  Text, same, same_refl, lookup, has, put, remove, lookup-put, lookup-remove, ℕ, ◌≡◌, refl, ◌∙◌,
  ◌≢◌, ◌⊎◌, inl, inr, false, Option, none, some, List, arith, if◌then◌else◌, Bool-cases,
  Option-cases,
}
use bb_action_router.Status.{Error, wrap, external, already_exists}

pub data SocketCall : Type 0 where
  remove_socket listen_on chmod_socket : SocketCall

abbrev Files : Type 0
Files = List (Text × ℕ)

module _ (fails : SocketCall → Option Error) (new_mode : ℕ) where
  -- os.Remove, whose error is dropped, and Close of the listener, which unlinks the socket
  unfoldable pub try_remove : Text → Files → Files
  try_remove path files = elim (fails remove_socket) [ none ↦ remove path files | some e ↦ files ]

  unfoldable pub bind_socket : Text → Files → Option Error × Files
  bind_socket path files = elim (fails listen_on) [
    | some e ↦ (some e, files)
    | none ↦
        if has path files
        then (some (external already_exists), files)
        else (none, put path new_mode files)
  ]

  unfoldable pub set_mode : Text → Files → Option Error × Files
  set_mode path files = elim (fails chmod_socket) [
    | none ↦ (none, put path 432 files)
    | some e ↦
        (some (wrap "Failed to set permissions on %s" e), try_remove path (try_remove path files))
  ]

  unfoldable pub bound : Text → Option Error × Files → Option Error × Files
  bound path (some e, files) = (some (wrap "Failed to listen on %s" e), files)
  bound path (none, files) = set_mode path files

  unfoldable pub listen_unix_socket : Text → Files → Option Error × Files
  listen_unix_socket path files = bound path (bind_socket path (try_remove path files))

  -- A listener has its socket, which the group may write to; without one there is no socket,
  -- unless removing files fails. Other files are left alone.
  abbrev pub Listens : Text → Files → Option Error × Files → Type 0
  Listens path files (none, after) =
      (lookup path after ≡ some 432)
      × ((k : Text) → same path k ≡ false → lookup k after ≡ lookup k files)
  Listens path files (some e, after) =
      ((lookup path after ≡ none) ⊎ (fails remove_socket ≢ none))
      × ((k : Text) → same path k ≡ false → lookup k after ≡ lookup k files)

  try_remove-other :
      (path k : Text) (files : Files)
      → same path k ≡ false
      → lookup k (try_remove path files) ≡ lookup k files
  unfolding try_remove
  try_remove-other path k files other = elim (Option-cases (fails remove_socket)) [
    | inl e ↦ rw (e, try_remove) (ground (arith, lookup-remove path k files))
    | inr (x, e) ↦ rw (e, try_remove) refl
  ]

  try_remove-gone :
      (path : Text) (files : Files)
      → (lookup path (try_remove path files) ≡ none) ⊎ (fails remove_socket ≢ none)
  unfolding try_remove
  try_remove-gone path files = elim (Option-cases (fails remove_socket)) [
    | inl e ↦
        inl (rw (e, try_remove) (ground (arith, lookup-remove path path files, same_refl path)))
    | inr (x, e) ↦ inr (λ none_fails. cc (e, none_fails))
  ]

  set_mode-Listens :
      (path : Text) (files now : Files)
      → ((k : Text) → same path k ≡ false → lookup k now ≡ lookup k files)
      → Listens path files (set_mode path now)
  unfolding set_mode
  set_mode-Listens path files now others = elim (Option-cases (fails chmod_socket)) [
    | inl e ↦
        rw (e, set_mode)
          (
            ground (arith, lookup-put path path 432 now, same_refl path),
            λ k other. ground (arith, lookup-put path k 432 now, others k other),
          )
    | inr (x, e) ↦
        rw (e, set_mode)
          (
            try_remove-gone path (try_remove path now),
            λ k other.
                try_remove-other path k (try_remove path now) other
                ∙ try_remove-other path k now other
                ∙ others k other,
          )
  ]

  pub listen_unix_socket_lem :
      (path : Text) (files : Files) → Listens path files (listen_unix_socket path files)
  unfolding listen_unix_socket bind_socket bound
  listen_unix_socket_lem path files =
      let others =
        λ (k : Text) (other : same path k ≡ false). try_remove-other path k files other in
      elim (Option-cases (fails listen_on)) [
        | inr (x, e) ↦ rw (e, bind_socket) (try_remove-gone path files, others)
        | inl e ↦ elim (Bool-cases (has path (try_remove path files))) [
          | inl taken ↦ rw (e, bind_socket, taken) (try_remove-gone path files, others)
          | inr free ↦
              rw (e, bind_socket, free)
                (set_mode-Listens path files (put path new_mode (try_remove path files)) (λ k other.
                  ground
                    (arith, lookup-put path k new_mode (try_remove path files), others k other)))
        ]
      ]

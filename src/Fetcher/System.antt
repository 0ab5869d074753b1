-- ===== src/Fetcher/System.antt =====
-- Acquire as it interleaves with itself: one phase for each call, named by its lease token, and a
-- step for each section that runs with the mutex held, and for each event between two sections.
-- A waiting call may receive the result of any fetch of its image that has ended, which includes
-- what the singleflight group hands to it.
mod Invariant
mod Moves
mod Steps
pub mod Alone
pub mod Safety
pub mod Pinning
mod Handling
pub mod Accounted
pub mod Slots
mod Room
mod Course
pub mod Prefetch
pub mod Prefetched
use bb_action_router.Base.{
  Text, member, ℕ, ◌+◌, ◌-◌, ◌<◌, ◌≡◌, ◌⊎◌, Bool, true, false, none, some, List, [], ◌∷◌, Mem, ◌==◌,
  if◌then◌else◌,
}
use bb_action_router.Fetcher.Server.{
  Server, Result, ok, err, acquire_cached_root, attach_lease, release, install_fetched, reap_moved,
  reap_in_place,
}

pub data Phase : Type 0 where
  idle : Phase
  -- in materializeGroup.Do, before the semaphore
  waiting : Text → Phase
  -- inside Materialize, holding a slot of the semaphore
  fetching : Text → Phase
  -- Materialize has returned this directory
  materialized : Text → Text → Phase
  -- materializeGroup.Do has returned this root
  fetched : Text → ℕ → Phase
  leased : Text → ℕ → Phase
  released : Text → ℕ → Phase
  failed : Phase

pub record System : Type 0 where
  pub server : Server
  pub open server use *
  pub phase : ℕ → Phase
  pub in_fetch : ℕ
  -- what the fetches that have ended returned
  pub flights : List (Text × ℕ)

abbrev pub set_phase : (ℕ → Phase) → ℕ → Phase → ℕ → Phase
set_phase phase t x u = if t == u then x else phase u

abbrev pub after_install : Text → Result ℕ → Phase
after_install ref (ok p) = fetched ref p
after_install ref (err e) = failed

abbrev pub add_flight : Text → Result ℕ → List (Text × ℕ) → List (Text × ℕ)
add_flight ref (ok p) flights = (ref, p) ∷ flights
add_flight ref (err e) flights = flights

abbrev pub after_attach : Text → ℕ → Bool → Phase
after_attach ref p true = leased ref p
after_attach ref p false = failed

pub data Step : System → System → Type 0 where
  -- acquireCachedRoot finds the root, or does not
  hit :
      (s : System) (t : ℕ) (ref : Text) (p now : ℕ)
      → s.phase t ≡ idle
      → (acquire_cached_root ref t now s.server).1 ≡ some p
      → Step s (record s {
        server = (acquire_cached_root ref t now s.server).0;
        phase = set_phase s.phase t (leased ref p);
      })
  miss :
      (s : System) (t : ℕ) (ref : Text) (now : ℕ)
      → s.phase t ≡ idle
      → (acquire_cached_root ref t now s.server).1 ≡ none
      → Step s (record s {
        server = (acquire_cached_root ref t now s.server).0;
        phase = set_phase s.phase t (waiting ref);
      })
  -- a slot of the semaphore is taken
  begin_fetch :
      (s : System) (t : ℕ) (ref : Text)
      → s.phase t ≡ waiting ref
      → s.in_fetch < s.max_concurrent_fetches
      → Step s (record s { phase = set_phase s.phase t (fetching ref); in_fetch = s.in_fetch + 1 })
  -- Materialize fails, or moves a new directory into place under a name that is not taken
  materialize_fails :
      (s : System) (t : ℕ) (ref : Text)
      → s.phase t ≡ fetching ref
      → Step s (record s { phase = set_phase s.phase t failed; in_fetch = s.in_fetch - 1 })
  -- Materialize has made a directory that it will leave behind, whether it fails or not
  materialize_leaves :
      (s : System) (t : ℕ) (ref path : Text)
      → s.phase t ≡ fetching ref
      → member path s.disk ≡ false
      → Step s (record s { server = record s.server { disk = path ∷ s.disk } })
  materialize :
      (s : System) (t : ℕ) (ref path : Text)
      → s.phase t ≡ fetching ref
      → member path s.disk ≡ false
      → Step s (record s {
        server = record s.server { disk = path ∷ s.disk };
        phase = set_phase s.phase t (materialized ref path);
      })
  install :
      (s : System) (t : ℕ) (ref path : Text) (renamed : Bool) (now : ℕ)
      → s.phase t ≡ materialized ref path
      → Step s (record s {
        server = (install_fetched renamed ref t path now s.server).0;
        phase =
            set_phase s.phase t
              (after_install ref (install_fetched renamed ref t path now s.server).1);
        in_fetch = s.in_fetch - 1;
        flights = add_flight ref (install_fetched renamed ref t path now s.server).1 s.flights;
      })
  -- the singleflight group hands a result to a call that waits
  share :
      (s : System) (t : ℕ) (ref : Text) (p : ℕ)
      → s.phase t ≡ waiting ref
      → Mem (ref, p) s.flights
      → Step s (record s { phase = set_phase s.phase t (fetched ref p) })
  share_failure :
      (s : System) (t : ℕ) (ref : Text)
      → s.phase t ≡ waiting ref
      → Step s (record s { phase = set_phase s.phase t failed })
  attach :
      (s : System) (t : ℕ) (ref : Text) (p now : ℕ)
      → s.phase t ≡ fetched ref p
      → Step s (record s {
        server = (attach_lease ref p t now s.server).0;
        phase = set_phase s.phase t (after_attach ref p (attach_lease ref p t now s.server).1);
      })
  -- the caller calls the release func, and may do so again
  let_go :
      (s : System) (t : ℕ) (ref : Text) (p now : ℕ)
      → (s.phase t ≡ leased ref p) ⊎ (s.phase t ≡ released ref p)
      → Step s (record s {
        server = release p t now s.server;
        phase = set_phase s.phase t (released ref p);
      })
  -- the reaper goroutines
  reap_trash :
      (s : System) (removed : Bool) (seq : ℕ)
      → Step s (record s { server = reap_moved removed seq s.server })
  reap_doomed :
      (s : System) (removed : Bool) (path : Text)
      → Step s (record s { server = reap_in_place removed path s.server })

pub data Reach (s : System) : System → Type 0 where
  here : Reach s s
  next : {t u : System} → Reach s t → Step t u → Reach s u

-- No call has begun.
abbrev pub init : Server → System
init server = record { server = server; phase = λ _. idle; in_fetch = 0; flights = [] }

-- ===== src/Fetcher/System/Accounted.antt =====
-- The directories on disk that the interleaved calls of the server leave: which of them belong to a
-- cached root, to a reaper or to a call, and which are left behind.
use bb_action_router.Base.{Text, member, false, if◌then◌else◌, ℕ, ◌≡◌, true, List, [], ◌∷◌}
use bb_action_router.Fetcher.Options.{Options}
use bb_action_router.Fetcher.Server.{Server}
use bb_action_router.Fetcher.Directories.{with_directory}
use bb_action_router.Fetcher.System.{
  Phase, materialized, set_phase, System, Step, hit, miss, begin_fetch, materialize_fails,
  materialize_leaves, materialize, install, share, share_failure, attach, let_go, reap_trash,
  reap_doomed, Reach, here, next,
}
use bb_action_router.Fetcher.System.Handling.{Handled}

-- What calls of Materialize left behind, and reapers that could not delete a directory in place.
unfoldable pub add_leak : {s u : System} → Step s u → List Text → List Text
add_leak (materialize_leaves s t ref path e absent) left = path ∷ left
add_leak (hit s t ref p now e got) left = left
add_leak (miss s t ref now e got) left = left
add_leak (begin_fetch s t ref e room) left = left
add_leak (materialize_fails s t ref e) left = left
add_leak (materialize s t ref path e absent) left = left
add_leak (install s t ref path renamed now e) left = left
add_leak (share s t ref p e flown) left = left
add_leak (share_failure s t ref e) left = left
add_leak (attach s t ref p now e) left = left
add_leak (let_go s t ref p now e) left = left
add_leak (reap_trash s removed seq) left = left
add_leak (reap_doomed s true path) left = left
add_leak (reap_doomed s false path) left = if member path s.doomed then path ∷ left else left

unfoldable pub leaks : {s u : System} → Reach s u → List Text
leaks here = []
leaks (next r st) = add_leak st (leaks r)

-- Where a directory on disk belongs.
pub data Place (left : List Text) (s : System) (d : Text) : Type 0 where
  on_server : Handled s.server d → Place left s d
  in_call : (t : ℕ) (ref : Text) → s.phase t ≡ materialized ref d → Place left s d
  left_behind : member d left ≡ true → Place left s d

abbrev AllPlaced : List Text → System → Type 0
AllPlaced left s = (d : Text) → member d s.disk ≡ true → Place left s d

module _ (left : List Text) (s : System) (t : ℕ) (x : Phase) (u : Server) (n : ℕ)
    (f : List (Text × ℕ)) where
  abbrev moved : System
  moved = record { server = u; phase = set_phase s.phase t x; in_fetch = n; flights = f }

module _ (left more : List Text) (s : System) (t : ℕ) (ref path : Text) (x : Phase) (n : ℕ) where
  abbrev after_making : System
  after_making = record {
    server = with_directory path s.server;
    phase = set_phase s.phase t x;
    in_fetch = n;
    flights = s.flights;
  }

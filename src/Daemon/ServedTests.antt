-- ===== src/Daemon/ServedTests.antt =====
-- A connection to a server of two slots, from the first request to the release.
mod Shutdown
use bb_action_router.Base.{
  Text, codes, same, strip_prefix, lookup, put, member, holds, ℕ, ◌≡◌, refl, inl, Bool, true, false,
  List, [], ◌∷◌, ◌++◌, arith,
}
use bb_action_router.Status.{Error, Result, ok, err, external, unknown}
use bb_action_router.Fetcher.Options.{Options, with_defaults, pin_all, too_many_pins}
use bb_action_router.Fetcher.Server.{
  Server, blank_root, new_server, acquire_cached_root, attach_lease, install_fetched, install_root,
  release, lease_root, touch, root_count,
}
use bb_action_router.Fetcher.System.{System, Reach, here, init}
use bb_action_router.Fetcher.System.Alone.{
  Makes, as_before, looked_up, made, advance, begin_call, advance_all, outcome, acquire_alone,
}
use bb_action_router.Router.Template.{trim_left, trim_space, strip_one}
use bb_action_router.Daemon.Connection.{
  read_string, split_two, parse_request, answer, serve, serve_line, handle_connection,
}
use bb_action_router.Daemon.Materialize.{materialize}
use bb_action_router.Daemon.Whole.{daemon_releases}
use bb_action_router.Daemon.Tests.{host, host_fresh}
use bb_action_router.Daemon.Served.{server_roots}

abbrev options : Options
options = record {
  max_roots = 2;
  max_concurrent_fetches = 1;
  acquire_timeout = 0;
  prefetch_images = [];
  use_boost = 0;
  max_use_boost = 0;
}

abbrev server : Server
unfolding with_defaults
server = record {
  options = with_defaults options;
  pinned = [];
  roots = [];
  heap = λ _. blank_root;
  next_root = 0;
  trash_seq = 0;
  disk = [];
  trash = [];
  doomed = [];
  roots_gauge = 0;
  eviction_idle = [];
}

server_made : new_server options ≡ bb_action_router.Fetcher.Server.Result.ok server
unfolding new_server with_defaults pin_all too_many_pins
server_made = refl

-- One directory for each reference.
abbrev place : Text → List Text → Bool → Result Text × List Text
place path disk true = (err (external unknown), disk)
place path disk false = (ok path, path ∷ disk)

abbrev make : Text → List Text → Result Text × List Text
make ref disk = let path = codes "/roots/" ++ ref in place path disk (member path disk)

place-Makes :
    (path : Text) (disk : List Text) (b : Bool)
    → member path disk ≡ b
    → Makes make 7 100 true disk (place path disk b)
place-Makes path disk true e = as_before
place-Makes path disk false e = (disk, as_before, e, refl)

make-Makes : (ref : Text) (disk : List Text) → Makes make 7 100 true disk (make ref disk)
make-Makes ref disk =
    let path = codes "/roots/" ++ ref in place-Makes path disk (member path disk) refl

abbrev message : Error → Text
message e = codes "unknown"

abbrev run : Text × System
run =
    handle_connection (server_roots make 7 100 true (external unknown) message (λ s. s)) (λ s. s)
      (codes "ACQUIRE a\n") (init server)

is_served : run.0 ≡ codes "HI\nOK /roots/a\n"
unfolding handle_connection serve_line read_string serve parse_request same split_two trim_space
    trim_left strip_one strip_prefix answer acquire_alone outcome advance_all advance begin_call
    looked_up acquire_cached_root lookup put holds member attach_lease install_fetched install_root
    lease_root touch made root_count server
is_served = refl

-- The host of Daemon/Tests, on which an image by a tag leaves a directory.
abbrev whole_run : Text × System
whole_run =
    handle_connection
      (server_roots (materialize host) 7 100 true (external unknown) message (λ s. s)) (λ s. s)
      (codes "ACQUIRE gcr.io/a\n") (init server)

daemon_releases_example :
    Reach (init server) whole_run.1 × ((p : ℕ) → holds 7 (whole_run.1.heap p).leases ≡ false)
unfolding server
daemon_releases_example =
    daemon_releases host host_fresh 7 100 true (external unknown) message (λ s. s)
      (λ s. (here, refl)) options server_made here (codes "ACQUIRE gcr.io/a\n") refl (omega arith)

-- ===== src/Lib.antt =====
-- bb-action-router: a Buildbarn action router that rewrites actions, and the daemon that caches
-- the root directories of container images.
--
-- Parts and files
--
-- Base and its children: the shared names. Text is a list of bytes; a Go map is an association
-- list in an order that Go does not fix; sort_by is an insertion sort that stands for
-- slices.SortFunc. That is not stable: where equal elements can differ, which are the variables of a
-- command, World says in what order they come out; the entries of a directory are taken to have a
-- name each. Status: gRPC statuses, a message being its format string. Reapi: the messages
-- of the remote execution API, without the fields that no code here reads or writes.
--
-- Fetcher (pkg/fetcher/server.go): the cache of image roots.
--   Fetcher/Options        ServerOptions and the defaults that NewServer fills in
--   Fetcher/Server         Server and MaterializedRoot, and each section that runs with the mutex
--                          held: acquireCachedRoot, attachLease, releaseFunc, touchLocked,
--                          evictOneIdleLocked, discardLocked, the second half of fetchRefSingle
--   Fetcher/System         Acquire as a step relation on the server and the phases of its calls
--   Fetcher/System/Alone   Acquire when no other call comes between its steps, and in
--   Fetcher/System/Prefetch  PrefetchImages, likewise
--   Fetcher/Credit, Fetcher/Eviction, Fetcher/Pins, Fetcher/Validity, Fetcher/Install,
--   Fetcher/Leases, Fetcher/Directories: proofs on single operations
--   Fetcher/System/Invariant, Moves, Steps, Handling, Safety, Pinning, Accounted: proofs on every
--     reachable state; Slots: on the semaphore;
--     Room, Course, Prefetched: on PrefetchImages
--   Fetcher/RegistryAuth   ParseRegistryAuth of pkg/fetcher/registry_auth.go, and in
--   Fetcher/Credentials the proofs on it
-- Roots are named by the address of their MaterializedRoot, so that a stale pointer and a map
-- entry can differ. `discard` takes whether os.Rename succeeds. The reapers are steps of their
-- own. The singleflight group may hand a waiting call any result that a fetch of its image has
-- returned, and two fetches of one image may run at once, which is more than the group allows;
-- the semaphore is the bound on `in_fetch`. Materialize moves a directory to a path only where
-- none stands, as os.Rename does onto a directory that is not empty, and may leave others behind.
-- A reaper may fail to delete its directory, which then stays.
--
-- Router (pkg/actionrouter): the pipeline that rewrites an action.
--   Router/State           pipelineState, getCommand, and actions on it that may fail
--   Router/Template        templates, templateData, render and truthy
--   Router/Merge           mergeDockerRootOp.apply with loadDirectory and putDirectory
--   Router/Operations      apply of every operation
--   Router/Pipeline        HandleAction
--   Router/Service         routeActionImpl of cmd/bb_docker_action_router/main.go, which calls it
--   Router/Config          configuration messages and BuildUserFromProto
--   Router/Build           NewPipeline, buildOperation and the constructors of the operations
--   Router/ImageRoots      getDirDigest of op_merge.go, with the store of image references of
--                          pkg/blobstore/action_cache_ref_store.go
--   Router/Sound: proofs on the constructors
--   Router/Loading, Router/Triples: what rendering does to the state, and proofs by parts
--   Router/Arguments, Router/Variables, Router/Environment, Router/AnyOrder, Router/Platform,
--   Router/Merging: proofs on single operations
--   Router/Tracking, Router/Ordering, Router/Canonical, Router/Outcome: proofs on HandleAction
--   Router/Trimming: the loop of strings.TrimSpace
--
-- Layers (pkg/blobstore/cas_uploading_layer_extractor.go): the tree that the layers of an image
-- build.
--   Layers/Tree            uploadDirState and its maps, delete, the two lookups of a path
--   Layers/Paths           splitPath with filepath.Clean and filepath.Split, for slashes
--   Layers/Events          OnDirectorySeen, OnFileSeen, OnLinkSeen, OnSymlinkSeen
--   Layers/TmpFile         tmpFileCloser and the temporary file of OnFileSeen
--   Layers/HardLinks       resolveHardlinks and OnLayerComplete
--   Layers/Upload          upload, assertNoDuplicateNames and UploadDirectories
--   Layers/Proper, Layers/Keeping, Layers/Stored, Layers/Lookup: proofs on them
-- A change through a pointer into the tree is a change of the tree at the path of that pointer.
--
-- TreeCheck (pkg/blobstore/dir_tree_verifier.go): whether all of a tree is in storage.
--   TreeCheck/Verifier     Verify, verifyDirectory and verifyFiles
--   TreeCheck/Present, TreeCheck/Fuel: proofs on them
-- The walk takes fuel for the levels of the tree: with too little there is no result.
-- The digests of a directory's files are a list where the code has a set.
--
-- Chroot (cmd/bb_chroot_helper_privileged/main.go): the helper that confines an action to an image.
--   Chroot/Split           splitChrootPath, and the proofs on it
--   Chroot/System          the process and its files, as system calls see and change them
--   Chroot/Run             main, run and what they call
--   Chroot/Leads           what a step of the helper leads to: proofs by parts
--   Chroot/Confined, Chroot/Executed, Chroot/Started, Chroot/ResolvConf: proofs on runs
--   Chroot/Merged          the path that a merge of Router leaves, as splitChrootPath splits it
-- Each system call may fail, by a function of the state and the call. Files have inodes, so that two
-- paths can be links to one file; a write that fails has written nothing. No path is a symlink.
-- chroot and chdir lead from the root that the process has at that time.
--
-- Users (pkg/blobstore/build_user_injecting_visitor.go): the build user in passwd and group.
--   Users/Lines            bufio.Scanner
--   Users/Entries          setIDEntry and the visitor
--   Users/Printed, Users/Replaced, Users/Clean, Users/Again, Users/RoundTrip: proofs on them
--
-- Registry (pkg/docker): images of a registry.
--   Registry/References    image_ref.go; Registry/Puller: image_puller.go; Registry/Archive:
--                          layer_extractor.go
--   Registry/Digests, Registry/Sizes: proofs on references and on the limit of sizes
-- An int64 is its pattern of 64 bits. An archive is the list of what its reader returns.
--
-- Images (pkg/actionrouter/image_to_cas_uploader.go): an image is pulled, its layers are visited
-- one after the other, and the tree is uploaded.
--   Images/Uploader        UploadImageToCAS, which runs Registry, Users and Layers
--   Images/Extracted, Images/Uploaded: proofs on it
--
-- Daemon (cmd/bb_docker_root_fetcher/main.go): what Fetcher calls to make a root.
--   Daemon/Materialize     materialize, buildRoot, populateRoot
--   Daemon/Connection      handleConnection
--   Daemon/Start           main, from its configuration to the server
--   Daemon/Socket          listenUnixSocket
--   Daemon/Accepting       the loop of main that accepts connections, and the goroutine that closes
--                          the listener: steps of the daemon, and events from outside
--   Daemon/Running         that loop, the handlers, the prefetching and the server, interleaved
--   Daemon/Served, Daemon/Whole: the handler with the server of Fetcher, and with materialize
--   Daemon/Removed, Daemon/Cleaned, Daemon/Answered, Daemon/Started,
--   Daemon/Accepting/Drained, Daemon/Accepting/Ends, Daemon/Running/Released: proofs on what is left
--   behind, answered and checked, on how the loop ends, and on the leases that are left then
-- The directory of the roots is the list of the paths of the directories in it. os.RemoveAll may
-- fail, by a function of the path and that list, and then has deleted nothing.
--
-- Ephemeral (pkg/ephemeralcas/blob_access.go): the storage in a directory.
--   Ephemeral/BlobAccess   reads, writes and FindMissing of chunks and of chunk mappings
--   Ephemeral/Refined, Ephemeral/Answers: proofs against two maps
--
-- Installer (cmd/bb_chroot_helper_installer/main.go): it puts the chroot helpers into a directory.
--   Installer/Install      install
--   Installer/Marked, Installer/Seen: proofs on every state that it goes through
--
-- The children of a module of proofs hold its longer proofs.
--
-- What is not in this repository is a parameter: World holds the check of a digest and the reads
-- and writes of the content addressable storage, and what slices.SortFunc leaves open. A parsed template is the tree of the accessors
-- that it calls, a regular expression the test that it makes.
--
-- Bounds and fuel. Times and durations are natural numbers of nanoseconds: a negative one acts as
-- 0 in every test of the code. Four loops take fuel: trim_left the length of the text, of which
-- each round drops a byte or more; decimal one more than the number, which has no more digits; the
-- walk of TreeCheck; and acquire_alone, which has four phases behind its first.
--
-- Not modelled: the contents and the modes of directories in the file system, logging and the
-- other instruments, generated messages, the batches of an upload, the constants that the ephemeral
-- storage reports, start-up of the service, the build tools, and the helper in C++ (its code is
-- not Go: cmd/bb_chroot_helper).
pub mod Base
pub mod Status
pub mod Reapi
pub mod Fetcher
pub mod Router
pub mod Layers
pub mod TreeCheck
pub mod Chroot
pub mod Users
pub mod Registry
pub mod Images
pub mod Daemon
pub mod Ephemeral
pub mod Installer

-- ===== src/Router/State.antt =====
-- pipelineState, the remote storage that it reads and writes, and actions on it that may fail.
-- What was written before a failure stays written, so the state is returned beside the error too.
use bb_action_router.Base.{Text, Bool, Option, none, some, List, Perm}
use bb_action_router.Status.{Error, Result, ok, err, status, invalid_argument, internal, or_else}
use bb_action_router.Reapi.{Digest, Action, Command, Directory, RequestMetadata, Variable}

-- Code that is not in this repository, at one instance name and digest function: the check of a
-- digest, the reads and writes of the content addressable storage, and the digest of the tree
-- that mergeDockerRootOp.getDirDigest finds or uploads for an image. Of the standard library, what
-- slices.SortFunc leaves open.
pub record World : Type 0 where
  pub new_digest_from_proto : Digest → Result Digest
  pub read_command : Digest → Result Command
  pub read_directory : Digest → Result Directory
  pub put_command : Command → Result Digest
  pub put_directory : Directory → Result Digest
  pub get_dir_digest : Text → Result Digest
  -- slices.SortFunc is not stable: the variables in the order in which those of one name come out.
  pub arrange : List Variable → List Variable
  pub arrange-Perm : (vs : List Variable) → Perm (arrange vs) vs

-- `command` stands for the three fields command, commandErr and commandLoaded.
pub record State : Type 0 where
  pub action : Action
  pub command : Option (Result Command)
  pub request_metadata : Option RequestMetadata
  pub command_changed : Bool
  pub platform_changed : Bool

abbrev pub Exec : Type 0 → Type 0
Exec A = State → Result A × State

abbrev pub pure : {A : Type 0} → A → Exec A
pure a s = (ok a, s)

abbrev pub throw : {A : Type 0} → Error → Exec A
throw e s = (err e, s)

abbrev pub lift : {A : Type 0} → Result A → Exec A
lift r s = (r, s)

abbrev pub modify : (State → State) → Exec (Unit {0})
modify f s = (ok tt, f s)

abbrev pub continue : {A B : Type 0} → Result A → (A → Exec B) → Exec B
continue (ok a) f s = f a s
continue (err e) f s = (err e, s)

infixl 5 ◌>>=◌ ◌>>◌
abbrev pub ◌>>=◌ : {A B : Type 0} → Exec A → (A → Exec B) → Exec B
◌>>=◌ m f s = let r = m s in continue r.0 f r.1

abbrev pub ◌>>◌ : {B : Type 0} → Exec (Unit {0}) → Exec B → Exec B
m >> n = m >>= λ _. n

-- `if err != nil { return g(err) }`
abbrev pub on_error : {A : Type 0} → (Error → Error) → Exec A → Exec A
on_error g m s = let r = m s in (or_else r.0 g, r.1)

module _ (w : World) where
  unfoldable pub load_command : Action → Result Command
  load_command action =
      let parsed =
        or_else (w.new_digest_from_proto action.command_digest)
          (λ _. status invalid_argument "Failed to load Command digest: %v") in
      elim parsed [
        | err e ↦ err e
        | ok digest ↦
            or_else (w.read_command digest) (λ _. status internal "Failed to fetch Command: %v")
      ]

  -- getCommand: the command is loaded at most once, also if that fails.
  unfoldable pub get_command : Exec Command
  get_command s = elim s.command [
    | some r ↦ (r, s)
    | none ↦ let r = load_command s.action in (r, record s { command = some r })
  ]

-- A write through the pointer that getCommand returned.
unfoldable pub set_command : Command → Exec (Unit {0})
set_command c s = (ok tt, record s { command = some (ok c) })

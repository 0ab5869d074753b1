-- ===== src/Reapi.antt =====
-- The messages of the remote execution API that the program reads and writes. Fields that it
-- neither reads nor writes are left out. A parsed digest is represented by its message.
use bb_action_router.Base.{Text, ℕ, Bool, Option, List}

pub record Digest : Type 0 where
  pub hash : Text
  pub size_bytes : ℕ

pub record Property : Type 0 where
  pub name : Text
  pub value : Text

-- A nil Platform is `none`.
pub record Action : Type 0 where
  pub command_digest : Digest
  pub input_root_digest : Digest
  pub platform : Option (List Property)

pub record Variable : Type 0 where
  pub name : Text
  pub value : Text

pub record Command : Type 0 where
  pub arguments : List Text
  pub environment_variables : List Variable
  pub working_directory : Text

pub record FileNode : Type 0 where
  pub name : Text
  pub digest : Digest
  pub is_executable : Bool

pub record DirectoryNode : Type 0 where
  pub name : Text
  pub digest : Digest

pub record SymlinkNode : Type 0 where
  pub name : Text
  pub target : Text

pub record Directory : Type 0 where
  pub files : List FileNode
  pub directories : List DirectoryNode
  pub symlinks : List SymlinkNode

pub record RequestMetadata : Type 0 where
  pub tool_invocation_id : Text
  pub target_id : Text
  pub action_mnemonic : Text
  pub configuration_id : Text
  pub correlated_invocations_id : Text

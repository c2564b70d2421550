-- ===== src/Plugins.antt =====
-- plugin/manager/manager.go: the plugins that are installed, and how they are run.
pub mod Running
pub mod Answers
pub mod Failures
pub mod Signs
mod Tests
use notation_go.Prelude.{
  String, Bool, true, false, not, ◌&&◌, ◌||◌, Option, none, some, List, [], ◌∷◌, Outcome, ok, err,
  panic, map_err, or_err, str_eq, str_append, if◌then◌else◌,
}
use notation_go.Signing.Errors.{RequestError}
use notation_go.Signing.Metadata.{Metadata, MetadataError}
use notation_go.Signing.Messages.{
  Bytes, DescribeKeyResponse, GenerateSignatureResponse, GenerateEnvelopeResponse, Request,
}
use notation_go.Signing.Calls.{Call}

-- What is read of a file: whether it is a regular one.
pub record FileInfo : Type 0 where
  pub is_regular : Bool

pub record DirEntry : Type 0 where
  pub name : String
  pub is_dir : Bool
  pub is_symlink : Bool

-- The file system of the plugins, and what the package uses of path and path/filepath. `WalkDir` shows
-- the entries of the root; no other directory is entered.
pub record FileSystem : Type 0 where
  pub stat : String → Option FileInfo
  pub entries : List DirEntry
  -- The root of a `rootedFS`
  pub root : Option String
  pub is_windows : Bool
  pub join_path : List String → String
  pub base_name : String → String

-- `commander.Output`: the output and whether the command succeeded, or an error.
abbrev pub Commander : Type 0 → Type 0
Commander W = String → String → Bytes → Call W String (Bytes × Bool)

-- encoding/json, for the messages of plugins.
pub record MessageJson : Type 0 where
  pub marshal_request : Request → Option Bytes
  pub unmarshal_error : Bytes → Option RequestError
  pub unmarshal_metadata : Bytes → Option Metadata
  pub unmarshal_signature : Bytes → Option GenerateSignatureResponse
  pub unmarshal_generated_envelope : Bytes → Option GenerateEnvelopeResponse
  pub unmarshal_key : Bytes → Option DescribeKeyResponse

pub data RunError : Type 0 where
  failed_running unsupported_command : String → RunError
  request_failed : RequestError → RunError
  -- A request error around `ErrNotCompliant`
  error_not_compliant : RunError
  not_compliant marshal_failed : RunError

pub data PluginError : Type 0 where
  failed_metadata : RunError → PluginError
  wrong_name : String → String → PluginError
  invalid_metadata : MetadataError → PluginError

-- `Plugin`; the metadata of one that failed is empty.
pub record Plugin : Type 0 where
  pub metadata : Metadata
  pub path : String
  pub err : Option PluginError

-- `ErrNotFound`
pub data ManagerError : Type 0 where
  not_found : ManagerError

abbrev pub no_metadata : Metadata
no_metadata = record {
  name = "";
  description = "";
  version = "";
  url = "";
  supported_contract_versions = [];
  capabilities = [];
}

-- `plugin.Prefix`
abbrev pub prefix : String
prefix = "notation-"

module _ (fsys : FileSystem) where
  -- `addExeSuffix`
  unfoldable pub add_exe_suffix : String → String
  add_exe_suffix s = if fsys.is_windows then str_append s ".exe" else s

  -- `binName`
  unfoldable pub bin_name : String → String
  unfolding add_exe_suffix
  bin_name name = add_exe_suffix (str_append prefix name)

  -- `binPath`
  unfoldable pub bin_path : String → String
  unfolding bin_name
  bin_path name = elim (fsys.root) [
    | none ↦ fsys.join_path (name ∷ bin_name name ∷ [])
    | some root ↦ fsys.join_path (root ∷ name ∷ bin_name name ∷ [])
  ]

  -- `isCandidate`
  unfoldable pub is_candidate : String → Bool
  unfolding bin_name
  is_candidate name = elim (fsys.stat (fsys.join_path (name ∷ bin_name name ∷ []))) [
    | none ↦ false
    | some fi ↦ fi.is_regular
  ]

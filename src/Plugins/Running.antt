-- ===== src/Plugins/Running.antt =====
-- plugin/manager/manager.go: the runs of a plugin, and the operations of `Manager`.
use notation_go.Prelude.{
  String, Bool, not, ◌||◌, Option, none, some, List, [], ◌∷◌, Outcome, ok, err, panic, map_err,
  or_err, str_eq, str_append, if◌then◌else◌,
}
use notation_go.Signing.Metadata.{Metadata, validate}
use notation_go.Signing.Messages.{
  Bytes, Request, command, Response, metadata_response, describe_key_response,
  generate_signature_response, generate_envelope_response,
}
use notation_go.Signing.Calls.{Call, follow, ◌>>=◌, lift}
use notation_go.Plugins.{
  FileSystem, DirEntry, Commander, MessageJson, RunError, failed_running, unsupported_command,
  request_failed, error_not_compliant, not_compliant, marshal_failed, Plugin, failed_metadata,
  wrong_name, invalid_metadata, ManagerError, not_found, no_metadata, prefix, add_exe_suffix,
  bin_path, is_candidate,
}

-- A response of the type that `new` made.
unfoldable pub decode_as : {A : Type 0} → (A → Response) → Option A → Outcome RunError Response
decode_as wrap none = err not_compliant
decode_as wrap (some a) = ok (wrap a)

-- The switch on the command, and `json.Unmarshal`.
unfoldable pub decode_response : MessageJson → String → Bytes → Outcome RunError Response
unfolding decode_as
decode_response json cmd out =
    if str_eq cmd "get-plugin-metadata"
    then decode_as metadata_response (json.unmarshal_metadata out)
    else if str_eq cmd "generate-signature"
    then decode_as generate_signature_response (json.unmarshal_signature out)
    else if str_eq cmd "generate-envelope"
    then decode_as generate_envelope_response (json.unmarshal_generated_envelope out)
    else if str_eq cmd "describe-key"
    then decode_as describe_key_response (json.unmarshal_key out)
    else err (unsupported_command cmd)

-- What a plugin that failed wrote.
unfoldable pub decode_failure : MessageJson → Bytes → RunError
decode_failure json out = elim (json.unmarshal_error out) [
  | none ↦ error_not_compliant
  | some re ↦ request_failed re
]

module _ {W : Type 0} (json : MessageJson) (cmder : Commander W) where
  -- The output of the command, with the wrapped error.
  unfoldable pub output : String → String → Bytes → Call W RunError (Bytes × Bool)
  output path cmd req w =
      (map_err failed_running (cmder path cmd req w).0, (cmder path cmd req w).1)

  -- `run`
  unfoldable pub run : String → String → Bytes → Call W RunError Response
  unfolding output decode_response decode_failure
  run path cmd req = do
    (out, success) ← output path cmd req
    lift (if success then decode_response json cmd out else err (decode_failure json out))

  -- `pluginRunner.Run`; the name is put in front of the error.
  unfoldable pub run_plugin : String → Request → Call W RunError Response
  unfolding run
  run_plugin path req = do
    data' ← lift (or_err (json.marshal_request req) marshal_failed)
    run path (command req) data'

  -- A `pluginRunner` as the signer sees it: of an error it reads the text, with the name in front.
  unfoldable pub plugin_runner :
      (RunError → String) → String → String → Request → Call W String Response
  unfolding run_plugin
  plugin_runner text name path req w = (
    map_err (λ e. str_append name (str_append ": " (text e))) (run_plugin path req w).0,
    (run_plugin path req w).1,
  )

  module _ (fsys : FileSystem) where
    -- The plugin with the metadata that it gave.
    unfoldable pub with_metadata : String → Metadata → Plugin
    with_metadata name m = record {
      metadata = m;
      path = bin_path fsys name;
      err =
          if not (str_eq m.name name)
          then some (
              wrong_name (add_exe_suffix fsys (str_append prefix m.name))
                (fsys.base_name (bin_path fsys name)))
          else elim (validate m) [ ok _ ↦ none | err e ↦ some (invalid_metadata e) | panic ↦ none ];
    }

    unfoldable pub without_metadata : String → RunError → Plugin
    without_metadata name e = record {
      metadata = no_metadata;
      path = bin_path fsys name;
      err = some (failed_metadata e);
    }

    -- What `newPlugin` makes of the run.
    unfoldable pub plugin_of :
        String → Outcome RunError Response × W → Outcome ManagerError Plugin × W
    unfolding with_metadata without_metadata
    plugin_of name (ok (metadata_response m), w) = (ok (with_metadata name m), w)
    plugin_of name (ok _, w) = (panic, w)
    plugin_of name (err e, w) = (ok (without_metadata name e), w)
    plugin_of name (panic, w) = (panic, w)

    -- `newPlugin`, and `Get`
    unfoldable pub new_plugin : String → Call W ManagerError Plugin
    unfolding is_candidate run plugin_of
    new_plugin name w =
        if not (is_candidate fsys name)
        then (err not_found, w)
        else plugin_of name (run (bin_path fsys name) "get-plugin-metadata" "" w)

    -- `Runner`: the path of the runner.
    unfoldable pub runner : String → Outcome ManagerError String
    runner name = if not (is_candidate fsys name) then err not_found else ok (bin_path fsys name)

    -- A directory is added if it has a plugin.
    unfoldable pub add_plugin :
        Outcome ManagerError Plugin × W
        → Call W ManagerError (List Plugin)
        → Outcome ManagerError (List Plugin) × W
    add_plugin (ok p, w) rest = follow (rest w) (λ ps. lift (ok (p ∷ ps)))
    add_plugin (err e, w) rest = rest w
    add_plugin (panic, w) rest = (panic, w)

    -- The loop of `List` over the entries.
    unfoldable pub list_entries : List DirEntry → Call W ManagerError (List Plugin)
    unfolding new_plugin add_plugin follow
    list_entries [] w = (ok [], w)
    list_entries (d ∷ entries) w =
        let rest = list_entries entries in
        if not d.is_dir || d.is_symlink then rest w else add_plugin (new_plugin d.name w) rest

    -- `List`
    unfoldable pub list_plugins : Call W ManagerError (List Plugin)
    unfolding list_entries
    list_plugins = list_entries fsys.entries

-- ===== src/Registry/Validate.antt =====
-- `validate_request` and `normalize_ipc_path_key` of src/registry.rs.
use rust_supervisor_relay.Base.{
  inl, inr, Bool, false, not, ◌||◌, none, String, ◌<>◌, any, ltb, eqb, is_empty, trim,
}
use rust_supervisor_relay.Error.{
  RelayResult, ok, err, new, for_target, ◌>>=◌, ◌>>◌, reject_if, ok_or,
}
use rust_supervisor_relay.Time.{OffsetDateTime}
use rust_supervisor_relay.Paths.{FileSystem, is_absolute, parent, file_name, join}
use rust_supervisor_relay.Config.{RegistrationPolicy, ipc_path_is_allowed}
use rust_supervisor_relay.Registration.{SupportedCommand, RegistrationRequest}

abbrev pub invalid_command : SupportedCommand → Bool
invalid_command c = is_empty (trim c.name) || eqb c.timeout_seconds 0

unfoldable pub validate_request : RegistrationPolicy → RegistrationRequest → RelayResult (Unit {0})
validate_request policy q = do
  reject_if (is_empty (trim q.target_id))
      (new "empty_target_id" "registration" none "target id must not be empty" false)
  reject_if (not (is_absolute q.ipc_path))
      (for_target "relative_ipc_path" "registration" q.target_id "IPC path must be absolute" false)
  reject_if (not (ipc_path_is_allowed policy q.ipc_path)) (
      for_target "ipc_path_not_allowed" "registration" q.target_id
        "IPC path is outside allowed prefixes" false)
  reject_if (eqb q.lease_seconds 0 || ltb policy.max_lease_seconds q.lease_seconds) (
      for_target "invalid_lease_seconds" "registration" q.target_id
        "lease seconds must be positive and must not exceed policy max" false)
  reject_if (any invalid_command q.supported_commands) (
      for_target "unsupported_command_schema" "registration" q.target_id
        "supported command name and timeout must be valid" false)

-- The file system is read at the time of the call.
module _ (fs : FileSystem) (now : OffsetDateTime) where
  unfoldable pub normalize_ipc_path_key : String → RelayResult String
  normalize_ipc_path_key path = do
    reject_if (fs.is_symlink now path)
        (new "invalid_ipc_path" "registration" none "ipc path must not be a symlink" false)
    parent ←
        ok_or (parent path)
          (new "invalid_ipc_path" "registration" none "ipc path must have a parent directory" false)
    file_name ←
        ok_or (file_name path)
          (new "invalid_ipc_path" "registration" none "ipc path must have a file name" false)
    elim (fs.canonicalize now parent) [
      | inl error ↦ err (
          new "invalid_ipc_path" "registration" none
            ("ipc path parent could not be normalized: " <> error) false)
      | inr parent ↦ ok (join parent file_name)
    ]

-- ===== src/Command.antt =====
-- src/command.rs: the control commands, and the check that turns a client's command into one that
-- may be forwarded.
pub mod Laws
use rust_supervisor_relay.Base.{
  Bool, true, false, not, ◌&&◌, Option, none, some, String, is_some, is_empty, trim, ◌==◌,
  if◌then◌else◌,
}
use rust_supervisor_relay.Error.{RelayResult, ok, err, new, for_target, ◌>>=◌, ◌>>◌, reject_if}
use rust_supervisor_relay.Time.{OffsetDateTime}
use rust_supervisor_relay.Auth.{RemoteIdentity}

pub data ControlCommandName : Type 0 where
  restart_child pause_child resume_child quarantine_child remove_child add_child shutdown_tree :
      ControlCommandName

abbrev unsupported_method : RelayResult ControlCommandName
unsupported_method = err (
    new "unsupported_method" "command_parse" none
      "unknown command or historical command alias is not supported" false)

-- `ControlCommandName::from_wire`
unfoldable pub from_wire : String → RelayResult ControlCommandName
from_wire value =
    if value == "restart_child"
    then ok restart_child
    else if value == "pause_child"
    then ok pause_child
    else if value == "resume_child"
    then ok resume_child
    else if value == "quarantine_child"
    then ok quarantine_child
    else if value == "remove_child"
    then ok remove_child
    else if value == "add_child"
    then ok add_child
    else if value == "shutdown_tree"
    then ok shutdown_tree
    else unsupported_method

-- `ControlCommandName::wire_name`
unfoldable pub wire_name : ControlCommandName → String
wire_name restart_child = "restart_child"
wire_name pause_child = "pause_child"
wire_name resume_child = "resume_child"
wire_name quarantine_child = "quarantine_child"
wire_name remove_child = "remove_child"
wire_name add_child = "add_child"
wire_name shutdown_tree = "shutdown_tree"

-- `ControlCommandName::requires_confirmation`
unfoldable pub requires_confirmation : ControlCommandName → Bool
requires_confirmation shutdown_tree = true
requires_confirmation remove_child = true
requires_confirmation add_child = true
requires_confirmation _ = false

pub record CommandTarget : Type 0 where
  pub child_path : Option String

pub record ClientCommand : Type 0 where
  pub command_id : String
  pub correlation_id : Option String
  pub target_id : String
  pub command : ControlCommandName
  pub target : CommandTarget
  pub reason : String
  pub confirmed : Bool
  pub requested_by : Option String

pub record PreparedCommand : Type 0 where
  pub command_id : String
  pub correlation_id : Option String
  pub target_id : String
  pub command : ControlCommandName
  pub target : CommandTarget
  pub reason : String
  pub requested_by : String
  pub confirmed : Bool
  pub requested_at : OffsetDateTime

pub record ControlCommandResult : Type 0 where
  pub command_id : String
  pub correlation_id : Option String
  pub target_id : String
  pub accepted : Bool
  pub status : String
  pub requested_by : String
  pub completed_at : OffsetDateTime

unfoldable pub prepare_client_command :
    ClientCommand → RemoteIdentity → OffsetDateTime → RelayResult PreparedCommand
prepare_client_command c identity now = do
  reject_if (is_empty (trim c.command_id)) (
      for_target "invalid_message_schema" "command_validate" c.target_id
        "command_id must not be empty" false)
  reject_if (is_some c.requested_by) (
      for_target "requested_by_override" "command_validate" c.target_id
        "client must not provide requested_by" false)
  reject_if (is_empty (trim c.reason)) (
      for_target "empty_reason" "command_validate" c.target_id "command reason must not be empty"
        false)
  reject_if (requires_confirmation c.command && not c.confirmed) (
      for_target "confirmation_required" "command_validate" c.target_id
        "dangerous command requires confirmed=true" false)
  ok (record {
    command_id = c.command_id;
    correlation_id = c.correlation_id;
    target_id = c.target_id;
    command = c.command;
    target = c.target;
    reason = c.reason;
    requested_by = identity.principal;
    confirmed = c.confirmed;
    requested_at = now;
  })

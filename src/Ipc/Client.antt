-- ===== src/Ipc/Client.antt =====
-- src/ipc_client.rs: `UnixNdjsonIpcClient` and its answers to the trait `TargetIpcPort`. The socket,
-- the runtime, `Uuid::new_v4` and serde_json are parameters.
use rust_supervisor_relay.Base.{
  ℕ, ◌⊎◌, inl, inr, Bool, true, false, Option, none, some, String, ◌<>◌, unwrap_or, if◌then◌else◌,
}
use rust_supervisor_relay.Error.{RelayError, RelayResult, ok, err, new, for_target, ok_or, ◌>>=◌}
use rust_supervisor_relay.Effect.{M}
use rust_supervisor_relay.Time.{OffsetDateTime}
use rust_supervisor_relay.Command.{
  ControlCommandName, restart_child, pause_child, resume_child, quarantine_child, remove_child,
  add_child, shutdown_tree, PreparedCommand, ControlCommandResult,
}
use rust_supervisor_relay.Registry.{TargetProcessRegistration}
use rust_supervisor_relay.Ipc.{DashboardState}
use rust_supervisor_relay.Ipc.Json.{Json}

-- The calls outside the program; a failed call gives its error as text.
pub record Transport (Value World : Type 0) : Type 0 where
  -- What building a runtime gives where none is at hand.
  pub runtime : World → (String ⊎ Unit {0}) × World
  pub connect : String → World → (String ⊎ Unit {0}) × World
  pub to_vec : Value → String ⊎ String
  pub write_all : String → World → (String ⊎ Unit {0}) × World
  pub read_line : World → (String ⊎ String) × World
  pub from_str : String → String ⊎ Value
  pub new_v4 : World → String × World
  pub of_unix_nanos : OffsetDateTime → Value

-- `map_err` with a message that ends in the text of the error.
abbrev pub map_err : {A : Type 0} → (String → RelayError) → String ⊎ A → RelayResult A
map_err f (inl error) = err (f error)
map_err f (inr a) = ok a

abbrev pub call :
    {World A : Type 0} → (String → RelayError) → (World → (String ⊎ A) × World) → M World A
call f m w = let (r, w') = m w in (map_err f r, w')

abbrev pub connect_failed : String → RelayError
connect_failed e =
    new "ipc_connect_failed" "ipc_connect" none ("target process IPC could not be connected: " <> e)
      true

abbrev pub write_failed : String → RelayError
write_failed e =
    new "ipc_write_failed" "ipc_request" none ("IPC request could not be written: " <> e) true

abbrev pub read_failed : String → RelayError
read_failed e =
    new "ipc_read_failed" "ipc_response" none ("IPC response could not be read: " <> e) true

abbrev pub encode_failed : String → RelayError
encode_failed e =
    new "ipc_encode_failed" "ipc_request" none ("IPC request could not be encoded: " <> e) false

abbrev pub decode_failed : String → RelayError
decode_failed e =
    new "ipc_decode_failed" "ipc_response" none ("IPC response could not be decoded: " <> e) false

abbrev pub runtime_failed : String → RelayError
runtime_failed e =
    new "ipc_runtime_failed" "ipc_request" none ("IPC runtime could not be built: " <> e) false

unfoldable pub command_method : ControlCommandName → String
command_method restart_child = "command.restart_child"
command_method pause_child = "command.pause_child"
command_method resume_child = "command.resume_child"
command_method quarantine_child = "command.quarantine_child"
command_method remove_child = "command.remove_child"
command_method add_child = "command.add_child"
command_method shutdown_tree = "command.shutdown_tree"

abbrev pub result_missing : RelayError
result_missing =
    new "ipc_result_missing" "ipc_response" none "IPC response did not include result" false

abbrev pub response_failed : RelayError
response_failed =
    new "ipc_response_failed" "ipc_response" none "IPC response was not successful" false

abbrev pub state_missing : String → RelayError
state_missing target_id =
    for_target "ipc_state_missing" "ipc_response" target_id
      "state response did not include state payload" false

abbrev pub result_payload_missing : String → RelayError
result_payload_missing target_id =
    for_target "ipc_command_result_missing" "ipc_response" target_id
      "command response did not include result payload" false

-- `or_else` on options.
abbrev or_else : {A : Type 0} → Option A → Option A → Option A
or_else none other = other
or_else (some a) other = some a

module _ {Value : Type 0} (json : Json Value) where
  -- `get(key).and_then(as_str)` and its siblings.
  abbrev pub str_at : String → Value → Option String
  str_at key v = elim (json.get key v) [ none ↦ none | some field ↦ json.as_str field ]

  abbrev pub bool_at : String → Value → Option Bool
  bool_at key v = elim (json.get key v) [ none ↦ none | some field ↦ json.as_bool field ]

  abbrev pub u64_at : String → Value → Option ℕ
  u64_at key v = elim (json.get key v) [ none ↦ none | some field ↦ json.as_u64 field ]

  -- The error that a response carries.
  abbrev pub reported_error : Value → RelayError
  reported_error error =
      new (unwrap_or (str_at "code" error) "ipc_error")
        (unwrap_or (str_at "stage" error) "ipc_response") (str_at "target_id" error)
        (unwrap_or (str_at "message" error) "IPC response returned an error")
        (unwrap_or (bool_at "retryable" error) false)

  unfoldable pub response_result : Value → RelayResult Value
  response_result response =
      if unwrap_or (bool_at "ok" response) false
      then ok_or (json.get "result" response) result_missing
      else elim (json.get "error" response) [
        | none ↦ err response_failed
        | some error ↦ err (reported_error error)
      ]

  abbrev pub optional : Option String → Value
  optional none = json.null
  optional (some s) = json.of_str s

  -- The `DashboardState` of a result.
  unfoldable pub read_state :
      TargetProcessRegistration → OffsetDateTime → Value → RelayResult (DashboardState Value)
  read_state registration now result = do
    state ← ok_or (json.get "state" result) (state_missing registration.target_id)
    ok (record {
      target_id = unwrap_or (str_at "target_id" result) registration.target_id;
      state_generation = unwrap_or (u64_at "state_generation" state) 0;
      generated_at = now;
      payload = state;
    })

  -- The `ControlCommandResult` of a result.
  unfoldable pub read_command_result :
      PreparedCommand → OffsetDateTime → Value → RelayResult ControlCommandResult
  read_command_result command now result = do
    answer ← ok_or (json.get "result" result) (result_payload_missing command.target_id)
    ok (record {
      command_id = unwrap_or (str_at "command_id" answer) command.command_id;
      correlation_id = or_else (str_at "correlation_id" answer) command.correlation_id;
      target_id = unwrap_or (str_at "target_id" answer) command.target_id;
      accepted = unwrap_or (bool_at "accepted" answer) false;
      status = unwrap_or (str_at "status" answer) "failed";
      requested_by = command.requested_by;
      completed_at = now;
    })

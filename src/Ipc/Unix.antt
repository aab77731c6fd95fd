-- ===== src/Ipc/Unix.antt =====
-- The requests of `UnixNdjsonIpcClient` (src/ipc_client.rs) and the trait that it implements.
use rust_supervisor_relay.Base.{true, String, ◌<>◌, [], ◌∷◌, trim}
use rust_supervisor_relay.Error.{ok}
use rust_supervisor_relay.Effect.{M, pure, lift, ◌>>=◌, ◌>>◌}
use rust_supervisor_relay.Time.{OffsetDateTime}
use rust_supervisor_relay.Command.{wire_name, PreparedCommand, ControlCommandResult}
use rust_supervisor_relay.Registry.{TargetProcessRegistration}
use rust_supervisor_relay.Ipc.{DashboardState, TargetIpcPort}
use rust_supervisor_relay.Ipc.Json.{Json}
use rust_supervisor_relay.Ipc.Client.{
  Transport, map_err, call, connect_failed, write_failed, read_failed, encode_failed, decode_failed,
  runtime_failed, command_method, response_result, read_state, read_command_result, optional,
}

module _ {Value World : Type 0} (json : Json Value) (transport : Transport Value World) where
  unfoldable pub request_json : String → Value → M World Value
  request_json ipc_path request = do
    call connect_failed (transport.connect ipc_path)
    line ← lift (map_err encode_failed (transport.to_vec request))
    call write_failed (transport.write_all (line <> "\n"))
    response ← call read_failed transport.read_line
    lift (map_err decode_failed (transport.from_str (trim response)))

  unfoldable pub request_json_blocking : String → Value → M World Value
  unfolding request_json
  request_json_blocking ipc_path request = do
    call runtime_failed transport.runtime
    request_json ipc_path request

  abbrev request_id : M World String
  request_id w = let (id, w') = transport.new_v4 w in (ok id, w')

  -- The request for the state of a target.
  abbrev pub state_request : String → String → Value
  state_request id target_id = json.object (
      ("request_id", json.of_str id)
      ∷ ("method", json.of_str "state")
      ∷ ("params", json.object (("target_id", json.of_str target_id) ∷ []))
      ∷ [])

  abbrev pub subscription : String → String → String → Value
  subscription id target_id method = json.object (
      ("request_id", json.of_str id)
      ∷ ("method", json.of_str method)
      ∷ (
        "params",
        json.object (
            ("target_id", json.of_str target_id) ∷ ("session_established", json.of_bool true) ∷ []),
      )
      ∷ [])

  abbrev pub command_request : String → PreparedCommand → OffsetDateTime → Value
  command_request id command now = json.object (
      ("request_id", json.of_str id)
      ∷ ("method", json.of_str (command_method command.command))
      ∷ (
        "params",
        json.object (
            ("command_id", json.of_str command.command_id)
            ∷ ("correlation_id", optional json command.correlation_id)
            ∷ ("target_id", json.of_str command.target_id)
            ∷ ("command", json.of_str (wire_name command.command))
            ∷ ("target", json.object (("child_path", optional json command.target.child_path) ∷ []))
            ∷ ("reason", json.of_str command.reason)
            ∷ ("requested_by", json.of_str command.requested_by)
            ∷ ("confirmed", json.of_bool command.confirmed)
            ∷ ("requested_at_unix_nanos", transport.of_unix_nanos now)
            ∷ []),
      )
      ∷ [])

  unfoldable pub connect_state :
      TargetProcessRegistration → OffsetDateTime → M World (DashboardState Value)
  unfolding request_json_blocking response_result read_state
  connect_state registration now = do
    id ← request_id
    response ← request_json_blocking registration.ipc_path (state_request id registration.target_id)
    result ← lift (response_result json response)
    lift (read_state json registration now result)

  unfoldable pub subscription_request : String → String → String → M World (Unit {0})
  unfolding request_json_blocking response_result
  subscription_request ipc_path target_id method = do
    id ← request_id
    response ← request_json_blocking ipc_path (subscription id target_id method)
    result ← lift (response_result json response)
    pure tt

  unfoldable pub subscribe_event_log :
      TargetProcessRegistration → OffsetDateTime → M World (Unit {0})
  unfolding subscription_request
  subscribe_event_log registration now = do
    subscription_request registration.ipc_path registration.target_id "events.subscribe"
    subscription_request registration.ipc_path registration.target_id "logs.tail"

  unfoldable pub forward_command_request :
      TargetProcessRegistration → PreparedCommand → OffsetDateTime → M World Value
  unfolding request_json_blocking command_method
  forward_command_request registration command now = do
    id ← request_id
    request_json_blocking registration.ipc_path (command_request id command now)

  unfoldable pub forward_command :
      TargetProcessRegistration → PreparedCommand → OffsetDateTime → M World ControlCommandResult
  unfolding forward_command_request response_result read_command_result
  forward_command registration command now = do
    response ← forward_command_request registration command now
    result ← lift (response_result json response)
    lift (read_command_result json command now result)

  -- `impl TargetIpcPort for UnixNdjsonIpcClient`
  abbrev pub unix_ndjson_ipc_client : TargetIpcPort Value World
  unix_ndjson_ipc_client = record {
    connect_state = connect_state;
    subscribe_event_log = subscribe_event_log;
    forward_command = forward_command;
  }

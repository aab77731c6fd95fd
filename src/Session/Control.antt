-- ===== src/Session/Control.antt =====
-- `handle_command` and `refresh_target_state_after_command` of src/session.rs.
use rust_supervisor_relay.Base.{ℕ, false, not, ◌&&◌, none, String, ◌==◌, if◌then◌else◌}
use rust_supervisor_relay.Error.{RelayError, ok_or, reject_if, new, for_target}
use rust_supervisor_relay.Effect.{M, pure, lift, gets, modify, inspect_err, ◌>>=◌, ◌>>◌}
use rust_supervisor_relay.Time.{OffsetDateTime}
use rust_supervisor_relay.Auth.{RemoteIdentity}
use rust_supervisor_relay.Command.{
  ClientCommand, PreparedCommand, ControlCommandResult, prepare_client_command,
}
use rust_supervisor_relay.Registry.{
  TargetProcessRegistration, unavailable, registration, ensure_target_active,
  ensure_command_supported,
}
use rust_supervisor_relay.Registry.Link.{mark_connected}
use rust_supervisor_relay.Audit.{record_accepted, record_rejected, record_completed, AuditRecorder}
use rust_supervisor_relay.Ipc.{TargetIpcPort}
use rust_supervisor_relay.Session.{
  state, command_result, contains, push, ensure_control_established,
}
use rust_supervisor_relay.Session.Stream.{accept_connection_state}
use rust_supervisor_relay.Session.Context.{Context, on_session, on_registry, on_world, succeeds}
use rust_supervisor_relay.Session.Bind.{give_up}

abbrev pub unbound : String → RelayError
unbound target_id =
    for_target "target_not_bound" "session" target_id
      "target must be bound before command forwarding" false

module _ {Value World : Type 0} where
  abbrev pub audited : (AuditRecorder → AuditRecorder) → Context Value World → Context Value World
  audited f c = record c { audit = f c.audit }

module _ {Value World : Type 0} (port : TargetIpcPort Value World) (new_v4 : ℕ → String) where
  unfoldable pub refresh_target_state_after_command :
      String → OffsetDateTime → M (Context Value World) (Unit {0})
  refresh_target_state_after_command target_id now = do
    registry ← gets (λ c. c.registry)
    r ← lift (registration target_id registry)
    reported ← inspect_err (on_world (port.connect_state r now)) (give_up target_id now)
    on_registry (mark_connected target_id reported.state_generation now)
    modify (λ c. record c { session = push (state target_id reported.payload) c.session })

  -- Where the refresh fails the target is reported as unavailable.
  unfoldable pub refresh_or_report : String → OffsetDateTime → M (Context Value World) (Unit {0})
  unfolding refresh_target_state_after_command
  refresh_or_report target_id now = do
    refreshed ← succeeds (refresh_target_state_after_command target_id now)
    if refreshed
        then pure tt
        else on_session (accept_connection_state target_id unavailable) >>= λ _. pure tt

  -- What follows a result that came back from the target.
  unfoldable pub finish_command :
      RemoteIdentity
      → PreparedCommand
      → ControlCommandResult
      → OffsetDateTime
      → M (Context Value World) ControlCommandResult
  unfolding refresh_or_report
  finish_command identity p result now = do
    modify (audited (record_completed new_v4 identity p result.status now))
    modify (λ c. record c { session = push (command_result result.target_id result) c.session })
    if result.accepted && result.status == "completed"
        then refresh_or_report result.target_id now >> pure result
        else pure result

  -- The part behind the checks.
  unfoldable pub forward_prepared :
      TargetProcessRegistration
      → RemoteIdentity
      → PreparedCommand
      → OffsetDateTime
      → M (Context Value World) ControlCommandResult
  unfolding finish_command
  forward_prepared r identity p now = do
    modify (audited (record_accepted new_v4 identity p now))
    result ←
        inspect_err (on_world (port.forward_command r p now))
          (λ e. audited (record_rejected new_v4 identity p e.message now))
    finish_command identity p result now

  unfoldable pub handle_command :
      ClientCommand → OffsetDateTime → M (Context Value World) ControlCommandResult
  unfolding forward_prepared
  handle_command c now = do
    session ← gets (λ ctx. ctx.session)
    lift (ensure_control_established session)
    identity ← lift (
        ok_or session.remote_identity
          (new "session_not_established" "session" none "control session is not established" false))
    lift (reject_if (not (contains session.bound_targets c.target_id)) (unbound c.target_id))
    registry ← gets (λ ctx. ctx.registry)
    lift (ensure_target_active c.target_id now registry)
    lift (ensure_command_supported c.target_id c.command registry)
    r ← lift (registration c.target_id registry)
    prepared ← lift (prepare_client_command c identity now)
    forward_prepared r identity prepared now

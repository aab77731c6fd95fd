-- ===== src/Session/Refresh.antt =====
-- What follows a command that its target has answered (src/session.rs).
use rust_supervisor_relay.Base.{
  ℕ, ◌≡◌, refl, true, ◌&&◌, some, String, [], ◌∷◌, ◌++◌, arith, lookup, ◌==◌,
}
use rust_supervisor_relay.Error.{ok}
use rust_supervisor_relay.Time.{OffsetDateTime}
use rust_supervisor_relay.Auth.{RemoteIdentity}
use rust_supervisor_relay.Command.{PreparedCommand, ControlCommandResult}
use rust_supervisor_relay.Registry.{
  TargetProcessRegistration, TargetProcessConnection, connected, registration, connection_state,
}
use rust_supervisor_relay.Registry.Link.{mark_connected, to_connected, with_connection}
use rust_supervisor_relay.Audit.{record_completed}
use rust_supervisor_relay.Ipc.{DashboardState, TargetIpcPort}
use rust_supervisor_relay.Session.{state, command_result, push}
use rust_supervisor_relay.Session.Context.{Context}
use rust_supervisor_relay.Session.Control.{
  refresh_target_state_after_command, refresh_or_report, finish_command,
}
use rust_supervisor_relay.Session.Binding.{mark_connected_lem, lookup-with_connection}

module _ {Value World : Type 0} (port : TargetIpcPort Value World) (new_v4 : ℕ → String) where
  refresh_target_state_after_command_lem :
      (k : String) (now : OffsetDateTime) (c : Context Value World)
      → (r : TargetProcessRegistration) (d : TargetProcessConnection)
      → (reported : DashboardState Value) (w : World) → lookup k c.registry.registrations ≡ some r
      → lookup k c.registry.connections ≡ some d
      → port.connect_state r now c.world ≡ (ok reported, w)
      → refresh_target_state_after_command port new_v4 k now c ≡ (
        ok tt,
        record c {
          session = push (state k reported.payload) c.session;
          registry = (mark_connected k reported.state_generation now c.registry).1;
          world = w;
        },
      )
  unfolding refresh_target_state_after_command registration
  refresh_target_state_after_command_lem k now c r d reported w e l h =
      ground (arith, mark_connected_lem k reported.state_generation now c.registry d l)

  finish_command_refreshed :
      (identity : RemoteIdentity) (p : PreparedCommand) (answer : ControlCommandResult)
      → (now : OffsetDateTime) (c : Context Value World)
      → (r : TargetProcessRegistration) (d : TargetProcessConnection)
      → (reported : DashboardState Value) (w : World)
      → (answer.accepted && answer.status == "completed") ≡ true
      → lookup answer.target_id c.registry.registrations ≡ some r
      → lookup answer.target_id c.registry.connections ≡ some d
      → port.connect_state r now c.world ≡ (ok reported, w)
      → finish_command port new_v4 identity p answer now c ≡ (
        ok answer,
        record c {
          session =
              push
                (state answer.target_id reported.payload)
                (push (command_result answer.target_id answer) c.session);
          registry =
              with_connection answer.target_id
                (to_connected reported.state_generation now)
                c.registry;
          audit = record_completed new_v4 identity p answer.status now c.audit;
          world = w;
        },
      )
  unfolding finish_command refresh_or_report
  finish_command_refreshed identity p answer now c r d reported w a e l h =
      let completed = record c {
        audit = record_completed new_v4 identity p answer.status now c.audit;
        session = push (command_result answer.target_id answer) c.session;
      } in
      ground (
        arith,
        refresh_target_state_after_command_lem answer.target_id now completed r d reported w e l h,
        mark_connected_lem answer.target_id reported.state_generation now c.registry d l,
      )

  -- Where an answer is accepted and completed, and the target that the answer names is registered
  -- and reports its state, the answer and then that state are queued and that target's connection
  -- is connected. Neither that it is the target of the command nor that the session is bound to it
  -- is asked.
  pub finish_command_refreshes :
      (identity : RemoteIdentity) (p : PreparedCommand) (answer : ControlCommandResult)
      → (now : OffsetDateTime) (c : Context Value World)
      → (r : TargetProcessRegistration) (d : TargetProcessConnection)
      → (reported : DashboardState Value) (w : World)
      → (answer.accepted && answer.status == "completed") ≡ true
      → lookup answer.target_id c.registry.registrations ≡ some r
      → lookup answer.target_id c.registry.connections ≡ some d
      → port.connect_state r now c.world ≡ (ok reported, w)
      → let (result, c') = finish_command port new_v4 identity p answer now c in
        (result ≡ ok answer)
        × (c'.session.outbox
            ≡ (c.session.outbox ++ (command_result answer.target_id answer ∷ []))
              ++ (state answer.target_id reported.payload ∷ []))
        × (connection_state answer.target_id c'.registry ≡ some connected)
  unfolding push connection_state
  finish_command_refreshes identity p answer now c r d reported w a e l h =
      rw
        (
          finish_command_refreshed identity p answer now c r d reported w a e l h,
          lookup-with_connection answer.target_id (to_connected reported.state_generation now)
              c.registry d l,
        )
        (refl, refl, refl)

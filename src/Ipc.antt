-- ===== src/Ipc.antt =====
-- src/ipc_client.rs: the state that a target reports, and the trait `TargetIpcPort`. A payload is a
-- JSON value, whose type is a parameter; a call reads and writes the state of the targets' side.
use rust_supervisor_relay.Base.{ℕ, String}
use rust_supervisor_relay.Effect.{M}
use rust_supervisor_relay.Time.{OffsetDateTime}
use rust_supervisor_relay.Command.{PreparedCommand, ControlCommandResult}
use rust_supervisor_relay.Registry.{TargetProcessRegistration}
pub mod Json
pub mod Client
pub mod Unix
pub mod Answers

pub record DashboardState (Value : Type 0) : Type 0 where
  pub target_id : String
  pub state_generation : ℕ
  pub generated_at : OffsetDateTime
  pub payload : Value

pub record TargetIpcPort (Value World : Type 0) : Type 0 where
  pub connect_state : TargetProcessRegistration → OffsetDateTime → M World (DashboardState Value)
  pub subscribe_event_log : TargetProcessRegistration → OffsetDateTime → M World (Unit {0})
  pub forward_command :
      TargetProcessRegistration → PreparedCommand → OffsetDateTime → M World ControlCommandResult

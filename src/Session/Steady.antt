-- ===== src/Session/Steady.antt =====
-- `bind_target` and `handle_command` of src/session.rs never panic by themselves.
use rust_supervisor_relay.Base.{ℕ, inl, inr, Bool, ◌&&◌, String, ◌==◌, arith, List}
use rust_supervisor_relay.Error.{RelayResult-cases}
use rust_supervisor_relay.Effect.{M, lift, inspect_err}
use rust_supervisor_relay.Effect.Succeeds.{
  Survives, Survives-inspect_err, Survives-if, Survives->>=, Survives-modify, Survives-pure,
  Survives-gets,
}
use rust_supervisor_relay.Time.{OffsetDateTime}
use rust_supervisor_relay.Auth.{RemoteIdentity}
use rust_supervisor_relay.Command.{ClientCommand, PreparedCommand, ControlCommandResult}
use rust_supervisor_relay.Command.Laws.{prepared}
use rust_supervisor_relay.Registry.{
  TargetProcessRegistration, TargetProcessConnection, TargetProcessRegistry, unavailable,
  registration, ensure_target_active,
}
use rust_supervisor_relay.Registry.Link.{
  to_connecting, to_connected, connection_mut, begin_binding, mark_connected,
}
use rust_supervisor_relay.Audit.{record_accepted, record_rejected, record_completed}
use rust_supervisor_relay.Ipc.{DashboardState, TargetIpcPort}
use rust_supervisor_relay.Session.{
  state, command_result, push, ServerMessage, DashboardSession, contains,
  ensure_control_established,
}
use rust_supervisor_relay.Session.Stream.{accept_connection_state}
use rust_supervisor_relay.Session.Context.{Context, on_session, on_registry, on_world, succeeds}
use rust_supervisor_relay.Session.Bind.{give_up, bound, bind_target, connect_and_subscribe}
use rust_supervisor_relay.Session.Control.{
  refresh_target_state_after_command, refresh_or_report, finish_command, forward_prepared,
  handle_command, audited,
}
use rust_supervisor_relay.Session.Gate.{handle_command_cases, ensure_target_active_cases}

-- No call of a target panics.
pub record IsSteady {Value World : Type 0} (port : TargetIpcPort Value World) : Type 0 where
  pub connects :
      (r : TargetProcessRegistration) (now : OffsetDateTime) → Survives (port.connect_state r now)
  pub subscribes :
      (r : TargetProcessRegistration) (now : OffsetDateTime)
      → Survives (port.subscribe_event_log r now)
  pub forwards :
      (r : TargetProcessRegistration) (p : PreparedCommand) (now : OffsetDateTime)
      → Survives (port.forward_command r p now)

module _ {Value World : Type 0} where
  pub Survives-on_world :
      {A : Type 0} {m : M World A} → Survives m → Survives (on_world {Value = Value} m)
  Survives-on_world k = record { never = λ c. k.never c.world }

  Survives-on_registry :
      {A : Type 0} {m : M TargetProcessRegistry A}
      → Survives m
      → Survives (on_registry {Value = Value} {World = World} m)
  Survives-on_registry k = record { never = λ c. k.never c.registry }

  Survives-on_session :
      {A : Type 0} {m : M (DashboardSession Value) A}
      → Survives m
      → Survives (on_session {World = World} m)
  Survives-on_session k = record { never = λ c. k.never c.session }

  Survives-succeeds :
      {A : Type 0} (m : M (Context Value World) A) → Survives m → Survives (succeeds m)
  Survives-succeeds m k = record {
    never = λ c. elim (RelayResult-cases (m c).0) [
      | inl (a, e) ↦ rw (succeeds, e) (λ q. ground arith)
      | inr (inl (x, e)) ↦ rw (succeeds, e) (λ q. ground arith)
      | inr (inr e) ↦ absurd (k.never c e)
    ];
  }

  Survives-registration :
      (k : String) (g : TargetProcessRegistry)
      → Survives (lift {S = Context Value World} (registration k g))
  unfolding registration
  Survives-registration k g = record { never = λ c q. ground arith }

Survives-connection_mut :
    (k : String) (f : TargetProcessConnection → TargetProcessConnection)
    → Survives (connection_mut k f)
unfolding connection_mut
Survives-connection_mut k f = record { never = λ g q. ground arith }

Survives-begin_binding : (k : String) (now : OffsetDateTime) → Survives (begin_binding k now)
unfolding begin_binding
Survives-begin_binding k now = Survives-connection_mut k (to_connecting now)

Survives-mark_connected :
    (k : String) (generation : ℕ) (now : OffsetDateTime)
    → Survives (mark_connected k generation now)
unfolding mark_connected
Survives-mark_connected k generation now = Survives-connection_mut k (to_connected generation now)

module _ {Value World : Type 0} (port : TargetIpcPort Value World) (steady : IsSteady port) where
  Survives-reach :
      {A : Type 0} {m : M World A} (k : String) (now : OffsetDateTime)
      → Survives m
      → Survives (inspect_err (on_world {Value = Value} m) (give_up k now))
  Survives-reach k now h = Survives-inspect_err (give_up k now) (Survives-on_world h)

  connect_and_subscribe-Survives :
      (k : String) (r : TargetProcessRegistration) (now : OffsetDateTime)
      → Survives (connect_and_subscribe port k r now)
  unfolding connect_and_subscribe
  connect_and_subscribe-Survives k r now =
      Survives->>= (Survives-on_registry (Survives-begin_binding k now)) λ (u : Unit {0}).
        Survives->>= (Survives-reach k now (steady.connects r now))
          λ (reported : DashboardState Value).
            Survives->>=
              (Survives-on_registry (Survives-mark_connected k reported.state_generation now))
              λ (u : Unit {0}).
                Survives->>= (Survives-reach k now (steady.subscribes r now)) λ (u : Unit {0}).
                  Survives-modify
                    (λ c. record c { session = bound k reported.payload now c.session })

  module _ (new_v4 : ℕ → String) where
    refresh-Survives :
        (k : String) (now : OffsetDateTime)
        → Survives (refresh_target_state_after_command port new_v4 k now)
    unfolding refresh_target_state_after_command
    refresh-Survives k now =
        Survives->>= (Survives-gets (λ c. c.registry)) λ (g : TargetProcessRegistry).
          Survives->>= (Survives-registration k g) λ (r : TargetProcessRegistration).
            Survives->>= (Survives-reach k now (steady.connects r now))
              λ (reported : DashboardState Value).
                Survives->>=
                  (Survives-on_registry (Survives-mark_connected k reported.state_generation now))
                  λ (u : Unit {0}).
                    Survives-modify
                      (λ c. record c { session = push (state k reported.payload) c.session })

    Survives-report :
        (k : String) → Survives (accept_connection_state {Value = Value} k unavailable)
    unfolding accept_connection_state
    Survives-report k = record { never = λ s q. ground arith }

    refresh_or_report-Survives :
        (k : String) (now : OffsetDateTime) → Survives (refresh_or_report port new_v4 k now)
    unfolding refresh_or_report
    refresh_or_report-Survives k now =
        Survives->>= (Survives-succeeds _ (refresh-Survives k now)) λ (refreshed : Bool).
          Survives-if refreshed (Survives-pure tt) (
            Survives->>= (Survives-on_session (Survives-report k))
              λ (messages : List (ServerMessage Value)). Survives-pure tt)

    finish_command-Survives :
        (identity : RemoteIdentity) (p : PreparedCommand) (result : ControlCommandResult)
        → (now : OffsetDateTime) → Survives (finish_command port new_v4 identity p result now)
    unfolding finish_command
    finish_command-Survives identity p result now =
        Survives->>=
          (Survives-modify (audited (record_completed new_v4 identity p result.status now)))
          λ (u : Unit {0}).
            Survives->>=
              (Survives-modify (λ c. record c {
                session = push (command_result result.target_id result) c.session;
              }))
              λ (u : Unit {0}).
                Survives-if (result.accepted && result.status == "completed")
                  (Survives->>= (refresh_or_report-Survives result.target_id now)
                    λ (u : Unit {0}). Survives-pure result)
                  (Survives-pure result)

    forward_prepared-Survives :
        (r : TargetProcessRegistration) (identity : RemoteIdentity) (p : PreparedCommand)
        → (now : OffsetDateTime) → Survives (forward_prepared port new_v4 r identity p now)
    unfolding forward_prepared
    forward_prepared-Survives r identity p now =
        Survives->>= (Survives-modify (audited (record_accepted new_v4 identity p now)))
          λ (u : Unit {0}).
            Survives->>=
              (Survives-inspect_err (λ e. audited (record_rejected new_v4 identity p e.message now))
                (Survives-on_world (steady.forwards r p now)))
              λ (result : ControlCommandResult). finish_command-Survives identity p result now

    pub handle_command-Survives :
        (command : ClientCommand) (now : OffsetDateTime)
        → Survives (handle_command port new_v4 command now)
    handle_command-Survives command now = record {
      never = λ c. elim (handle_command_cases port new_v4 command now c) [
        | inl (e, q) ↦ λ x. ground arith
        | inr (identity, r, a, q) ↦
            rw q
              ((forward_prepared-Survives r identity (prepared command identity now) now).never c)
      ];
    }

  Survives-ensure_control :
      (s : DashboardSession Value)
      → Survives (lift {S = Context Value World} (ensure_control_established s))
  unfolding ensure_control_established
  Survives-ensure_control s = record { never = λ c q. ground arith }

  Survives-ensure_active :
      (k : String) (now : OffsetDateTime) (g : TargetProcessRegistry)
      → Survives (lift {S = Context Value World} (ensure_target_active k now g))
  Survives-ensure_active k now g = record {
    never = λ c q. elim (ensure_target_active_cases k now g) [
      | inl (r, l, h, p) ↦ ground arith
      | inr (e, h) ↦ ground arith
    ];
  }

  pub bind_target-Survives : (k : String) (now : OffsetDateTime) → Survives (bind_target port k now)
  unfolding bind_target
  bind_target-Survives k now = record {
    never = λ c.
        (Survives->>= (Survives-ensure_control c.session) λ (u : Unit {0}).
            Survives->>= (Survives-gets (λ c. c.registry)) λ (g : TargetProcessRegistry).
              Survives->>= (Survives-ensure_active k now g) λ (u : Unit {0}).
                Survives->>= (Survives-registration k g) λ (r : TargetProcessRegistration).
                  Survives-if (contains c.session.bound_targets k) (Survives-pure tt)
                    (connect_and_subscribe-Survives k r now)).never
          c;
  }

-- ===== src/Session/Guarded.antt =====
-- What a session of src/session.rs ever asks of the targets' side: a property of that side is kept if
-- connecting, subscribing and the commands that are permitted keep it.
use rust_supervisor_relay.Base.{
  ℕ, ◌≡◌, refl, sym, inl, inr, Bool, true, false, ◌&&◌, some, String, List, any, ◌==◌, is_empty,
  trim, All-lookup,
}
use rust_supervisor_relay.Effect.{M, modify, inspect_err}
use rust_supervisor_relay.Effect.Keeps.{
  Keeps, Keeps-pure, Keeps-lift, Keeps-gets, Keeps-inspect_err, Keeps-if, Keeps-modify, Keeps->>=,
}
use rust_supervisor_relay.Time.{OffsetDateTime}
use rust_supervisor_relay.Auth.{RemoteIdentity}
use rust_supervisor_relay.Command.{
  ClientCommand, PreparedCommand, ControlCommandResult, requires_confirmation, wire_name,
}
use rust_supervisor_relay.Command.Laws.{prepared}
use rust_supervisor_relay.Registry.{
  TargetProcessRegistration, TargetProcessRegistry, is_live, unavailable, registration,
  ensure_target_active,
}
use rust_supervisor_relay.Registry.Link.{begin_binding, mark_connected}
use rust_supervisor_relay.Registry.Invariant.{IsAccepted, IsValid}
use rust_supervisor_relay.Audit.{record_accepted, record_rejected, record_completed}
use rust_supervisor_relay.Ipc.{DashboardState, TargetIpcPort}
use rust_supervisor_relay.Session.{
  state, command_result, ServerMessage, DashboardSession, contains, push,
  ensure_control_established,
}
use rust_supervisor_relay.Session.Stream.{accept_connection_state}
use rust_supervisor_relay.Session.Context.{Context, on_session, on_registry, on_world}
use rust_supervisor_relay.Session.Bind.{give_up, bound, connect_and_subscribe, bind_target}
use rust_supervisor_relay.Session.Control.{
  refresh_target_state_after_command, refresh_or_report, audited, finish_command, forward_prepared,
  handle_command,
}
use rust_supervisor_relay.Session.Gate.{handle_command_cases}
use rust_supervisor_relay.Session.Kept.{succeeds-Keeps}

-- A command that may reach a target: in the operator's name, with a reason, confirmed if it is
-- dangerous, for the target of the registration, whose lease runs and which declares the command.
pub record IsPermitted (identity : RemoteIdentity) (now : OffsetDateTime)
    (r : TargetProcessRegistration) (p : PreparedCommand) : Type 0 where
  pub requested : p.requested_by ≡ identity.principal
  pub reasoned : is_empty (trim p.reason) ≡ false
  pub confirmed : requires_confirmation p.command ≡ true → p.confirmed ≡ true
  pub addressed : p.target_id ≡ r.target_id
  pub live : is_live now r ≡ true
  pub supported : any (λ s. s.name == wire_name p.command) r.supported_commands ≡ true

pub record IsGuarded {Value World : Type 0} (port : TargetIpcPort Value World) (Q : World → Type 0)
    (identity : RemoteIdentity) : Type 0 where
  pub connects :
      (r : TargetProcessRegistration) (now : OffsetDateTime) (w : World)
      → Q w
      → Q (port.connect_state r now w).1
  pub subscribes :
      (r : TargetProcessRegistration) (now : OffsetDateTime) (w : World)
      → Q w
      → Q (port.subscribe_event_log r now w).1
  pub forwards :
      (r : TargetProcessRegistration) (p : PreparedCommand) (now : OffsetDateTime) (w : World)
      → IsPermitted identity now r p
      → Q w
      → Q (port.forward_command r p now w).1

module _ {Value World : Type 0} (port : TargetIpcPort Value World) (Q : World → Type 0)
    (identity : RemoteIdentity) (guarded : IsGuarded port Q identity) where
  abbrev Safe : Context Value World → Type 0
  Safe c = Q c.world

  Safe-reach :
      {A : Type 0} (m : M World A) (k : String) (now : OffsetDateTime)
      → ((w : World) → Q w → Q (m w).1)
      → Keeps Safe (inspect_err (on_world m) (give_up k now))
  Safe-reach m k now h =
      Keeps-inspect_err Safe {m = on_world m} {g = give_up k now}
        (record { holds = λ c q. h c.world q }) (λ e c q. q)

  connect_and_subscribe-Safe :
      (k : String) (r : TargetProcessRegistration) (now : OffsetDateTime)
      → Keeps Safe (connect_and_subscribe port k r now)
  unfolding connect_and_subscribe
  connect_and_subscribe-Safe k r now =
      Keeps->>= Safe {m = on_registry (begin_binding k now)} (record { holds = λ c q. q })
        λ (u : Unit {0}).
          Keeps->>= Safe (Safe-reach (port.connect_state r now) k now (guarded.connects r now))
            λ (reported : DashboardState Value).
              Keeps->>= Safe {m = on_registry (mark_connected k reported.state_generation now)}
                (record { holds = λ c q. q })
                λ (u : Unit {0}).
                  Keeps->>= Safe
                    (Safe-reach (port.subscribe_event_log r now) k now (guarded.subscribes r now))
                    λ (u : Unit {0}).
                      Keeps-modify Safe
                        (λ c. record c { session = bound k reported.payload now c.session })
                        (λ c q. q)

  pub bind_target-Safe : (k : String) (now : OffsetDateTime) → Keeps Safe (bind_target port k now)
  unfolding bind_target
  bind_target-Safe k now =
      Keeps->>= Safe (Keeps-gets Safe (λ c. c.session)) λ (session : DashboardSession Value).
        Keeps->>= Safe (Keeps-lift Safe (ensure_control_established session)) λ (u : Unit {0}).
          Keeps->>= Safe (Keeps-gets Safe (λ c. c.registry)) λ (registry : TargetProcessRegistry).
            Keeps->>= Safe (Keeps-lift Safe (ensure_target_active k now registry)) λ (u : Unit {0}).
              Keeps->>= Safe (Keeps-lift Safe (registration k registry))
                λ (r : TargetProcessRegistration).
                  Keeps-if Safe (contains session.bound_targets k) (Keeps-pure Safe tt)
                    (connect_and_subscribe-Safe k r now)

  module _ (new_v4 : ℕ → String) where
    refresh-Safe :
        (k : String) (now : OffsetDateTime)
        → Keeps Safe (refresh_target_state_after_command port new_v4 k now)
    unfolding refresh_target_state_after_command
    refresh-Safe k now =
        Keeps->>= Safe (Keeps-gets Safe (λ c. c.registry)) λ (registry : TargetProcessRegistry).
          Keeps->>= Safe (Keeps-lift Safe (registration k registry))
            λ (r : TargetProcessRegistration).
              Keeps->>= Safe (Safe-reach (port.connect_state r now) k now (guarded.connects r now))
                λ (reported : DashboardState Value).
                  Keeps->>= Safe {m = on_registry (mark_connected k reported.state_generation now)}
                    (record { holds = λ c q. q })
                    λ (u : Unit {0}).
                      Keeps-modify Safe
                        (λ c. record c { session = push (state k reported.payload) c.session })
                        (λ c q. q)

    refresh_or_report-Safe :
        (k : String) (now : OffsetDateTime) → Keeps Safe (refresh_or_report port new_v4 k now)
    unfolding refresh_or_report
    refresh_or_report-Safe k now =
        Keeps->>= Safe
          (succeeds-Keeps Safe (refresh_target_state_after_command port new_v4 k now)
            (refresh-Safe k now))
          λ (refreshed : Bool). Keeps-if Safe refreshed (Keeps-pure Safe tt) (
            Keeps->>= Safe {m = on_session (accept_connection_state k unavailable)}
              (record { holds = λ c q. q })
              λ (messages : List (ServerMessage Value)). Keeps-pure Safe tt)

    finish_command-Safe :
        (p : PreparedCommand) (result : ControlCommandResult) (now : OffsetDateTime)
        → Keeps Safe (finish_command port new_v4 identity p result now)
    unfolding finish_command
    finish_command-Safe p result now =
        Keeps->>= Safe {m = modify (audited (record_completed new_v4 identity p result.status now))}
          (record { holds = λ c q. q })
          λ (u : Unit {0}).
            Keeps->>= Safe
              {m = modify (λ c. record c {
                session = push (command_result result.target_id result) c.session;
              })}
              (record { holds = λ c q. q })
              λ (u : Unit {0}).
                Keeps-if Safe (result.accepted && result.status == "completed")
                  (Keeps->>= Safe (refresh_or_report-Safe result.target_id now)
                    λ (u : Unit {0}). Keeps-pure Safe result)
                  (Keeps-pure Safe result)

    forward_prepared-Safe :
        (r : TargetProcessRegistration) (p : PreparedCommand) (now : OffsetDateTime)
        → IsPermitted identity now r p
        → Keeps Safe (forward_prepared port new_v4 r identity p now)
    unfolding forward_prepared
    forward_prepared-Safe r p now permitted =
        Keeps->>= Safe {m = modify (audited (record_accepted new_v4 identity p now))}
          (record { holds = λ c q. q })
          λ (u : Unit {0}).
            Keeps->>= Safe
              (Keeps-inspect_err Safe {m = on_world (port.forward_command r p now)}
                {g = λ e. audited (record_rejected new_v4 identity p e.message now)}
                (record { holds = λ c q. guarded.forwards r p now c.world permitted q })
                (λ e c q. q))
              λ (result : ControlCommandResult). finish_command-Safe p result now

    -- On a valid registry and in a session of the operator a command reaches the target's side only
    -- as one that is permitted.
    pub handle_command-Safe :
        (c : ClientCommand) (now : OffsetDateTime) (ctx : Context Value World)
        → IsValid ctx.registry
        → ctx.session.remote_identity ≡ some identity
        → Q ctx.world
        → Q (handle_command port new_v4 c now ctx).1.world
    handle_command-Safe c now ctx v named q = elim (handle_command_cases port new_v4 c now ctx) [
      | inl (e, h) ↦ rw h q
      | inr (i, r, a, h) ↦
          let same : i ≡ identity = cc in
          let accepted_as =
            All-lookup (λ (k, r). IsAccepted ctx.registry.policy k r) c.target_id r
              ctx.registry.registrations a.live.0 v.accepted in
          rw (h, same)
            ((forward_prepared-Safe r (prepared c identity now) now (record {
              requested = refl;
              reasoned = a.allowed.reasoned;
              confirmed = a.allowed.confirmed;
              addressed = sym accepted_as.named;
              live = a.live.1;
              supported = a.supported;
            })).holds
              ctx q)
    ]

-- ===== src/Session/Kept.antt =====
-- Every call of a session keeps its guarantee (src/session.rs).
use rust_supervisor_relay.Base.{ℕ, ◌≡◌, refl, inl, inr, Bool, ◌&&◌, String, List, ◌==◌, arith}
use rust_supervisor_relay.Error.{RelayResult-cases}
use rust_supervisor_relay.Effect.{M, modify, inspect_err}
use rust_supervisor_relay.Effect.Keeps.{
  Keeps, Keeps-pure, Keeps-lift, Keeps-gets, Keeps-inspect_err, Keeps-if, Keeps-modify, Keeps->>=,
}
use rust_supervisor_relay.Time.{OffsetDateTime, Clock}
use rust_supervisor_relay.Paths.{FileSystem}
use rust_supervisor_relay.Auth.{RemoteIdentity}
use rust_supervisor_relay.Command.{ClientCommand, PreparedCommand, ControlCommandResult}
use rust_supervisor_relay.Command.Laws.{prepared}
use rust_supervisor_relay.Registry.{
  TargetProcessRegistration, TargetProcessRegistry, unavailable, registration,
}
use rust_supervisor_relay.Registry.Link.{mark_connected}
use rust_supervisor_relay.Registry.Reach.{Step, connects}
use rust_supervisor_relay.Audit.{
  record_accepted, record_rejected, record_completed, accepted, rejected, completed,
}
use rust_supervisor_relay.Ipc.{DashboardState, TargetIpcPort}
use rust_supervisor_relay.Session.{state, command_result, ServerMessage, DashboardSession, push}
use rust_supervisor_relay.Session.Stream.{accept_connection_state}
use rust_supervisor_relay.Session.Context.{Context, on_session, on_registry, on_world, succeeds}
use rust_supervisor_relay.Session.Bind.{give_up}
use rust_supervisor_relay.Session.Control.{
  audited, refresh_target_state_after_command, refresh_or_report, finish_command, forward_prepared,
  handle_command,
}
use rust_supervisor_relay.Session.Gate.{handle_command_cases}
use rust_supervisor_relay.Session.Guarantee.{
  IsServing, IsServing-world, IsServing-Step, IsServing-session, IsServing-give_up,
  IsServing-record_event,
}

-- Code whose result becomes a value keeps what the code keeps.
pub succeeds-Keeps :
    {Value World A : Type 0} (P : Context Value World → Type 0) (m : M (Context Value World) A)
    → Keeps P m
    → Keeps P (succeeds m)
succeeds-Keeps P m k = record {
  holds = λ c v. elim (RelayResult-cases (m c).0) [
    | inl (a, e) ↦ rw (succeeds, e) (k.holds c v)
    | inr (inl (x, e)) ↦ rw (succeeds, e) (k.holds c v)
    | inr (inr e) ↦ rw (succeeds, e) (k.holds c v)
  ];
}

module _ {Value World : Type 0} (clock : Clock) (fs : FileSystem) (g : TargetProcessRegistry)
    (identity : RemoteIdentity) where
  abbrev pub Serving : Context Value World → Type 0
  Serving = IsServing clock fs g identity

  pub Keeps-on_world : {A : Type 0} (m : M World A) → Keeps Serving (on_world m)
  Keeps-on_world m = record { holds = λ c v. IsServing-world clock fs g identity c (m c.world).1 v }

  pub Keeps-on_registry :
      {A : Type 0} (m : M TargetProcessRegistry A)
      → ((h : TargetProcessRegistry) → Step clock fs h (m h).1)
      → Keeps Serving (on_registry m)
  Keeps-on_registry m s = record {
    holds = λ c v. IsServing-Step clock fs g identity c (m c.registry).1 (s c.registry) v;
  }

  pub Keeps-on_session :
      {A : Type 0} (m : M (DashboardSession Value) A)
      → ((s : DashboardSession Value) → (m s).1.remote_identity ≡ s.remote_identity)
      → ((s : DashboardSession Value) → (m s).1.bound_targets ≡ s.bound_targets)
      → Keeps Serving (on_session m)
  Keeps-on_session m i b = record {
    holds = λ c v.
        IsServing-session clock fs g identity c (m c.session).1 (i c.session) (b c.session) v;
  }

  pub Keeps-push :
      (message : ServerMessage Value)
      → Keeps Serving (modify (λ c. record c { session = push message c.session }))
  unfolding push
  Keeps-push message =
      Keeps-modify Serving _
        (λ c v. IsServing-session clock fs g identity c (push message c.session) refl refl v)

  -- A call of the target, whose error marks the target as unavailable.
  Keeps-reach :
      {A : Type 0} (k : String) (now : OffsetDateTime) (m : M World A)
      → Keeps Serving (inspect_err (on_world m) (give_up k now))
  Keeps-reach k now m =
      Keeps-inspect_err Serving (Keeps-on_world m) (IsServing-give_up clock fs g identity k now)

  module _ (port : TargetIpcPort Value World) (new_v4 : ℕ → String) where
    refresh-Keeps :
        (k : String) (now : OffsetDateTime)
        → Keeps Serving (refresh_target_state_after_command port new_v4 k now)
    unfolding refresh_target_state_after_command
    refresh-Keeps k now =
        Keeps->>= Serving (Keeps-gets Serving (λ c. c.registry))
          λ (registry : TargetProcessRegistry).
            Keeps->>= Serving (Keeps-lift Serving (registration k registry))
              λ (r : TargetProcessRegistration).
                Keeps->>= Serving (Keeps-reach k now (port.connect_state r now))
                  λ (reported : DashboardState Value).
                    Keeps->>= Serving
                      (Keeps-on_registry (mark_connected k reported.state_generation now)
                        (λ h. connects k reported.state_generation now))
                      λ (u : Unit {0}). Keeps-push (state k reported.payload)

    Keeps-report : (k : String) → Keeps Serving (on_session (accept_connection_state k unavailable))
    unfolding accept_connection_state push
    Keeps-report k =
        Keeps-on_session (accept_connection_state k unavailable) (λ s. ground arith)
          (λ s. ground arith)

    refresh_or_report-Keeps :
        (k : String) (now : OffsetDateTime) → Keeps Serving (refresh_or_report port new_v4 k now)
    unfolding refresh_or_report
    refresh_or_report-Keeps k now =
        Keeps->>= Serving
          (succeeds-Keeps Serving (refresh_target_state_after_command port new_v4 k now)
            (refresh-Keeps k now))
          λ (refreshed : Bool). Keeps-if Serving refreshed (Keeps-pure Serving tt) (
            Keeps->>= Serving (Keeps-report k)
              λ (messages : List (ServerMessage Value)). Keeps-pure Serving tt)

    finish_command-Keeps :
        (p : PreparedCommand) (result : ControlCommandResult) (now : OffsetDateTime)
        → Keeps Serving (finish_command port new_v4 identity p result now)
    unfolding finish_command record_completed
    finish_command-Keeps p result now =
        Keeps->>= Serving
          (Keeps-modify Serving (audited (record_completed new_v4 identity p result.status now))
            (IsServing-record_event clock fs g identity new_v4 p completed result.status now))
          λ (u : Unit {0}).
            Keeps->>= Serving (Keeps-push (command_result result.target_id result))
              λ (u : Unit {0}).
                Keeps-if Serving (result.accepted && result.status == "completed")
                  (Keeps->>= Serving (refresh_or_report-Keeps result.target_id now)
                    λ (u : Unit {0}). Keeps-pure Serving result)
                  (Keeps-pure Serving result)

    forward_prepared-Keeps :
        (r : TargetProcessRegistration) (p : PreparedCommand) (now : OffsetDateTime)
        → Keeps Serving (forward_prepared port new_v4 r identity p now)
    unfolding forward_prepared record_accepted record_rejected
    forward_prepared-Keeps r p now =
        Keeps->>= Serving
          (Keeps-modify Serving (audited (record_accepted new_v4 identity p now))
            (IsServing-record_event clock fs g identity new_v4 p accepted "accepted" now))
          λ (u : Unit {0}).
            Keeps->>= Serving
              (Keeps-inspect_err Serving (Keeps-on_world (port.forward_command r p now))
                (λ e. IsServing-record_event clock fs g identity new_v4 p rejected e.message now))
              λ (result : ControlCommandResult). finish_command-Keeps p result now

    pub handle_command-Keeps :
        (c : ClientCommand) (now : OffsetDateTime)
        → Keeps Serving (handle_command port new_v4 c now)
    handle_command-Keeps c now = record {
      holds = λ ctx v. elim (handle_command_cases port new_v4 c now ctx) [
        | inl (e, q) ↦ rw q v
        | inr (i, r, a, q) ↦
            let same : i ≡ identity = cc in
            rw (q, same) ((forward_prepared-Keeps r (prepared c identity now) now).holds ctx v)
      ];
    }

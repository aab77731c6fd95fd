-- ===== src/Main/Served.antt =====
-- What a dashboard connection of src/main.rs keeps of the registry that it shares, of its session and
-- of its audit trail, from the first message to the last.
use rust_supervisor_relay.Base.{ℕ, refl, String, arith}
use rust_supervisor_relay.Error.{RelayResult}
use rust_supervisor_relay.Time.{Clock}
use rust_supervisor_relay.Paths.{FileSystem}
use rust_supervisor_relay.Auth.{RemoteIdentity}
use rust_supervisor_relay.Registry.{TargetProcessRegistry}
use rust_supervisor_relay.Registry.Reach.{Reach, here}
use rust_supervisor_relay.Ipc.{TargetIpcPort}
use rust_supervisor_relay.Session.{ClientMessage, target_list, drain_outbox}
use rust_supervisor_relay.Session.Handshake.{greet, accept_client_hello, publish_target_list}
use rust_supervisor_relay.Session.Context.{Context}
use rust_supervisor_relay.Session.Guarantee.{
  IsServing, IsServing-world, IsServing-Reach, IsServing-session,
}
use rust_supervisor_relay.Session.Kept.{
  Keeps-on_world, Keeps-on_session, Keeps-push, handle_command-Keeps,
}
use rust_supervisor_relay.Session.KeptBinding.{bind_target-Keeps}
use rust_supervisor_relay.Main.Stable.{IsStable, run_dashboard_session-Keeps}
use rust_supervisor_relay.Main.WebSocket.{Runtime, send_messages}
use rust_supervisor_relay.Main.Dashboard.{Task, start_session, run_dashboard_session}

-- The other tasks reach the registry through its own calls.
pub record IsFair {Value World : Type 0} (clock : Clock) (fs : FileSystem)
    (runtime : Runtime Value World) : Type 0 where
  pub calls : (g : TargetProcessRegistry) (w : World) → Reach clock fs g (runtime.others g w).0

module _ {Value World : Type 0} (clock : Clock) (fs : FileSystem) (runtime : Runtime Value World)
    (fair : IsFair clock fs runtime) (port : TargetIpcPort Value World) (new_v4 : ℕ → String)
    (g : TargetProcessRegistry) (identity : RemoteIdentity) where
  pub IsServing-IsStable : IsStable runtime port new_v4 (IsServing clock fs g identity)
  unfolding drain_outbox accept_client_hello publish_target_list
  IsServing-IsStable = record {
    locks = record {
      holds = λ c v.
          IsServing-Reach clock fs g identity c (runtime.others c.registry c.world).0
            (runtime.others c.registry c.world).1 (fair.calls c.registry c.world) v;
    };
    reads_time = record {
      holds = λ c v. IsServing-world clock fs g identity c (runtime.now_utc c.world).1 v;
    };
    sends = λ messages. Keeps-on_world clock fs g identity (send_messages runtime messages);
    drains = record {
      holds = λ c v. IsServing-session clock fs g identity c (drain_outbox c.session).1 refl refl v;
    };
    greets = λ hello now.
        Keeps-on_session clock fs g identity (accept_client_hello hello now) (λ s. ground arith)
          (λ s. ground arith);
    shows = λ targets. Keeps-push clock fs g identity (target_list targets);
    binds = λ k now. bind_target-Keeps clock fs g identity k now port;
    commands = λ command now. handle_command-Keeps clock fs g identity port new_v4 command now;
  }

module _ {Value World : Type 0} (clock : Clock) (fs : FileSystem) (runtime : Runtime Value World)
    (fair : IsFair clock fs runtime) (port : TargetIpcPort Value World)
    (decode : String → RelayResult ClientMessage) (new_v4 : ℕ → String) (no_conditions : Value)
    (session_id : String) (identity : RemoteIdentity) where
  pub start_session-IsServing :
      (c : Context Value World)
      → IsServing clock fs c.registry identity
          (start_session runtime no_conditions session_id identity c).1
  unfolding start_session greet
  start_session-IsServing c = record { history = here; named = refl; trail = tt; known = tt }

  -- However far a dashboard connection gets, and however it ends: if the other tasks reach the
  -- registry through its own calls, then so does the connection, so that the registry has a history
  -- of calls since the connection began; the session is the operator's; every entry of the audit
  -- trail names the operator; and every bound target is registered.
  pub run_dashboard_session-IsServing :
      (fuel : ℕ) (t : Task Value World)
      → IsServing clock fs t.context.registry identity
          (run_dashboard_session runtime port decode new_v4 no_conditions session_id fuel identity
            t).1.context
  run_dashboard_session-IsServing fuel t =
      let g = t.context.registry in
      run_dashboard_session-Keeps runtime port new_v4 (IsServing clock fs g identity)
        (IsServing-IsStable clock fs runtime fair port new_v4 g identity) decode no_conditions
        session_id identity fuel t (start_session-IsServing t.context)

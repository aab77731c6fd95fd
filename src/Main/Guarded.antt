-- ===== src/Main/Guarded.antt =====
-- What a whole dashboard connection of src/main.rs ever asks of the targets' side.
use rust_supervisor_relay.Base.{ℕ, inl, inr, String, List, [], ◌∷◌, Sum-cases}
use rust_supervisor_relay.Error.{RelayResult}
use rust_supervisor_relay.Effect.Keeps.{Keeps, Keeps-and, Keeps->>=}
use rust_supervisor_relay.Time.{Clock}
use rust_supervisor_relay.Paths.{FileSystem}
use rust_supervisor_relay.Auth.{RemoteIdentity}
use rust_supervisor_relay.Registry.{TargetProcessRegistry}
use rust_supervisor_relay.Registry.Invariant.{IsValid}
use rust_supervisor_relay.Registry.Reach.{Reach-keeps}
use rust_supervisor_relay.Ipc.{TargetIpcPort}
use rust_supervisor_relay.Session.{ClientMessage, ServerMessage}
use rust_supervisor_relay.Session.Context.{Context}
use rust_supervisor_relay.Session.Guarantee.{IsServing}
use rust_supervisor_relay.Session.Guarded.{IsGuarded, bind_target-Safe, handle_command-Safe}
use rust_supervisor_relay.Main.WebSocket.{Runtime, send_message, send_messages}
use rust_supervisor_relay.Main.Dashboard.{Task, start_session, run_dashboard_session}
use rust_supervisor_relay.Main.Stable.{IsStable, run_dashboard_session-Keeps}
use rust_supervisor_relay.Main.Served.{IsFair, IsServing-IsStable, start_session-IsServing}

-- The clock, the web socket and the other tasks keep the property.
pub record IsApart {Value World : Type 0} (runtime : Runtime Value World) (Q : World → Type 0)
    : Type 0 where
  pub reads_time : (w : World) → Q w → Q (runtime.now_utc w).1
  pub sends : (t : String) (w : World) → Q w → Q (runtime.send t w).1
  pub runs : (g : TargetProcessRegistry) (w : World) → Q w → Q (runtime.others g w).1

module _ {Value World : Type 0} (runtime : Runtime Value World) (Q : World → Type 0)
    (apart : IsApart runtime Q) where
  send_message-Keeps : (message : ServerMessage Value) → Keeps Q (send_message runtime message)
  unfolding send_message
  send_message-Keeps message = record {
    holds = λ w q. elim (Sum-cases (runtime.to_string message)) [
      | inl (error, e) ↦ rw (send_message, e) q
      | inr (t, e) ↦ elim (Sum-cases (runtime.send t w).0) [
        | inl (error, s) ↦ rw (send_message, e, s) (apart.sends t w q)
        | inr (_, s) ↦ rw (send_message, e, s) (apart.sends t w q)
      ]
    ];
  }

  send_messages-Keeps :
      (messages : List (ServerMessage Value)) → Keeps Q (send_messages runtime messages)
  unfolding send_messages
  send_messages-Keeps [] = record { holds = λ w q. q }
  send_messages-Keeps (message ∷ messages) =
      Keeps->>= Q (send_message-Keeps message) λ (u : Unit {0}). send_messages-Keeps messages

module _ {Value World : Type 0} (clock : Clock) (fs : FileSystem) (runtime : Runtime Value World)
    (fair : IsFair clock fs runtime) (port : TargetIpcPort Value World) (new_v4 : ℕ → String)
    (identity : RemoteIdentity) (Q : World → Type 0) (apart : IsApart runtime Q)
    (guarded : IsGuarded port Q identity) where
  abbrev Watched : TargetProcessRegistry → Context Value World → Type 0
  Watched g c = IsServing clock fs g identity c × Q c.world

  Watched-IsStable :
      (g : TargetProcessRegistry) → IsValid g → IsStable runtime port new_v4 (Watched g)
  Watched-IsStable g valid =
      let served = IsServing-IsStable clock fs runtime fair port new_v4 g identity in
      record {
        locks = Keeps-and served.locks (record { holds = λ c q. apart.runs c.registry c.world q });
        reads_time =
            Keeps-and served.reads_time (record { holds = λ c q. apart.reads_time c.world q });
        sends = λ messages. Keeps-and (served.sends messages) (record {
          holds = λ c q. (send_messages-Keeps runtime Q apart messages).holds c.world q;
        });
        drains = Keeps-and served.drains (record { holds = λ c q. q });
        greets = λ hello now. Keeps-and (served.greets hello now) (record { holds = λ c q. q });
        shows = λ targets. Keeps-and (served.shows targets) (record { holds = λ c q. q });
        binds = λ k now.
            Keeps-and (served.binds k now) (bind_target-Safe port Q identity guarded k now);
        commands = λ command now. record {
          holds = λ c v. (
            (served.commands command now).holds c v.0,
            handle_command-Safe port Q identity guarded new_v4 command now c
                (Reach-keeps clock fs v.0.history valid) v.0.named v.1,
          );
        };
      }

  -- On a valid registry, and beside tasks that reach it through its own calls, a session asks no more
  -- of the targets' side than to connect, to subscribe, and to carry out commands in the operator's
  -- name, with a reason, confirmed if they are dangerous, each for the target that it names, whose
  -- lease runs and which declares it: whatever is kept by these, by the clock, by the web socket and
  -- by the other tasks is kept by the session, however it ends.
  pub run_dashboard_session_guarded :
      (decode : String → RelayResult ClientMessage) (no_conditions : Value) (session_id : String)
      → (fuel : ℕ) (t : Task Value World) → IsValid t.context.registry
      → Q t.context.world
      → Q
          (run_dashboard_session runtime port decode new_v4 no_conditions session_id fuel identity
            t).1.context.world
  unfolding start_session
  run_dashboard_session_guarded decode no_conditions session_id fuel t valid q =
      let g = t.context.registry in
      (run_dashboard_session-Keeps runtime port new_v4 (Watched g) (Watched-IsStable g valid) decode
        no_conditions session_id identity fuel t
        (
          start_session-IsServing clock fs runtime fair port decode new_v4 no_conditions session_id
              identity t.context,
          apart.reads_time t.context.world q,
        )).1

-- ===== src/Main/Unopened.antt =====
-- A dashboard connection of src/main.rs serves nothing before the client's hello.
use rust_supervisor_relay.Base.{ℕ, ◌≡◌, refl, ◌≢◌, true, some, String, [], ◌∙◌, ap}
use rust_supervisor_relay.Error.{RelayResult, ok}
use rust_supervisor_relay.Effect.{pure, ◌>>=◌}
use rust_supervisor_relay.Effect.Keeps.{Keeps, stops->>=}
use rust_supervisor_relay.Auth.{RemoteIdentity}
use rust_supervisor_relay.Registry.{TargetProcessRegistry}
use rust_supervisor_relay.Ipc.{TargetIpcPort}
use rust_supervisor_relay.Session.{ClientMessage, client_hello, ClientHello, drain_outbox}
use rust_supervisor_relay.Session.Handshake.{greet}
use rust_supervisor_relay.Session.Context.{Context, on_world}
use rust_supervisor_relay.Main.WebSocket.{next_text_message, Runtime, send_error_and_close}
use rust_supervisor_relay.Main.Dashboard.{
  hello_first, Task, on_context, send_outbox, receive_first, after_first, start_session,
  run_dashboard_session,
}
use rust_supervisor_relay.Main.Reading.{receive_first-Keeps, receive_first_ok}

-- A session that serves nothing: the registry, the audit trail and the bound targets.
pub record IsUntouched {Value World : Type 0} (g : TargetProcessRegistry) (c : Context Value World)
    : Type 0 where
  pub shared : c.registry ≡ g
  pub unaudited : c.audit.events ≡ []
  pub unbound : c.session.bound_targets ≡ []

module _ {Value World : Type 0} (runtime : Runtime Value World) (port : TargetIpcPort Value World)
    (decode : String → RelayResult ClientMessage) (new_v4 : ℕ → String) (no_conditions : Value)
    (session_id : String) (fuel : ℕ) (identity : RemoteIdentity) where
  receive_first-IsUntouched :
      (g : TargetProcessRegistry)
      → Keeps (λ t. IsUntouched g t.context) (receive_first runtime port decode new_v4)
  receive_first-IsUntouched g =
      receive_first-Keeps runtime port decode new_v4 (λ t. IsUntouched g t.context)
        (record {
          holds = λ t h. record { shared = h.shared; unaudited = h.unaudited; unbound = h.unbound };
        })

  after_other :
      (first : ClientMessage) (g : TargetProcessRegistry) (t : Task Value World)
      → ((hello : ClientHello) → first ≢ client_hello hello)
      → IsUntouched g t.context
      → IsUntouched g (after_first runtime port decode new_v4 fuel first t).1.context
  unfolding after_first
  after_other (client_hello hello) g t no_hello u = absurd (no_hello hello refl)
  after_other (ClientMessage.command c) g t no_hello u =
      stops->>= (λ t. IsUntouched g t.context)
        (on_context (on_world (send_error_and_close runtime hello_first))) (λ _. pure true) t
        (record { shared = u.shared; unaudited = u.unaudited; unbound = u.unbound })
        λ a q. record { shared = u.shared; unaudited = u.unaudited; unbound = u.unbound }
  after_other (ClientMessage.log_event_filter_conditions c) g t no_hello u =
      stops->>= (λ t. IsUntouched g t.context)
        (on_context (on_world (send_error_and_close runtime hello_first))) (λ _. pure true) t
        (record { shared = u.shared; unaudited = u.unaudited; unbound = u.unbound })
        λ a q. record { shared = u.shared; unaudited = u.unaudited; unbound = u.unbound }

  -- A connection whose first text is not a client's hello, or that has no text at all, leaves the
  -- registry as it is, audits nothing and binds nothing.
  pub run_dashboard_session_unopened :
      (t : Task Value World)
      → ((raw : String) (hello : ClientHello)
          → (next_text_message t.incoming).0 ≡ ok (some raw)
          → decode raw ≢ ok (client_hello hello))
      → IsUntouched t.context.registry
          (run_dashboard_session runtime port decode new_v4 no_conditions session_id fuel identity
            t).1.context
  unfolding run_dashboard_session start_session send_outbox drain_outbox greet
  run_dashboard_session_unopened t no_hello =
      let g = t.context.registry in
      let Quiet : Task Value World → Type 0 = λ t. IsUntouched g t.context in
      let c : Context Value World =
        (start_session runtime no_conditions session_id identity t.context).1 in
      let greeted : Task Value World = record {
        context = (send_outbox runtime c).1;
        incoming = t.incoming;
      } in
      let receive = receive_first runtime port decode new_v4 in
      let untouched =
        (receive_first-IsUntouched g).holds greeted
          (record { shared = refl; unaudited = refl; unbound = refl }) in
      stops->>= Quiet (on_context (send_outbox runtime))
        (λ (sent : Unit {0}). receive >>= after_first runtime port decode new_v4 fuel)
        (record t { context = c }) (record { shared = refl; unaudited = refl; unbound = refl })
        λ sent q.
          stops->>= Quiet receive (after_first runtime port decode new_v4 fuel) greeted untouched
            λ first d.
              let (raw, r, x) = receive_first_ok runtime port decode new_v4 greeted first d in
              after_other first g (receive greeted).1
                (λ hello h. no_hello raw hello r (x ∙ ap ok h)) untouched

-- ===== src/Main/Stable.antt =====
-- What a dashboard connection of src/main.rs keeps if each of its calls does: one theorem for every
-- property of what a session works on.
use rust_supervisor_relay.Base.{
  ℕ, zero, suc, inl, inr, true, Option, none, some, String, List, [], ◌∷◌, map,
}
use rust_supervisor_relay.Error.{RelayError, RelayResult, RelayResult-cases, ok, err, panic}
use rust_supervisor_relay.Effect.{M, modify, pure, ◌>>◌}
use rust_supervisor_relay.Effect.Keeps.{Keeps, Keeps-pure, Keeps-lift, Keeps-gets, Keeps->>=}
use rust_supervisor_relay.Time.{OffsetDateTime}
use rust_supervisor_relay.Auth.{RemoteIdentity}
use rust_supervisor_relay.Command.{ClientCommand}
use rust_supervisor_relay.Registry.{TargetProcessRegistry, VisibleTarget, active_targets}
use rust_supervisor_relay.Ipc.{TargetIpcPort}
use rust_supervisor_relay.Session.{ClientMessage, client_hello, ClientHello, ServerMessage}
use rust_supervisor_relay.Session.Handshake.{accept_client_hello, publish_target_list}
use rust_supervisor_relay.Session.Context.{Context, on_session, on_world}
use rust_supervisor_relay.Session.Bind.{bind_target}
use rust_supervisor_relay.Session.Control.{handle_command}
use rust_supervisor_relay.Main.WebSocket.{
  next_text_message, Runtime, send_messages, send_error_and_close,
}
use rust_supervisor_relay.Main.Reading.{receive_first-Keeps}
use rust_supervisor_relay.Main.Dashboard.{
  hello_once, hello_first, Task, on_context, caught, lock, now_utc, drain, send_outbox, auto_bind,
  auto_bind_all, auto_bind_active_targets, serve_command, serve, serve_loop, open_session,
  after_first, start_session, run_dashboard_session,
}

-- Each call that a connection makes keeps the property.
pub record IsStable {Value World : Type 0} (runtime : Runtime Value World)
    (port : TargetIpcPort Value World) (new_v4 : ℕ → String) (P : Context Value World → Type 0)
    : Type 0 where
  pub locks : Keeps P (lock runtime)
  pub reads_time : Keeps P (now_utc runtime)
  pub sends :
      (messages : List (ServerMessage Value)) → Keeps P (on_world (send_messages runtime messages))
  pub drains : Keeps P (drain runtime)
  pub greets :
      (hello : ClientHello) (now : OffsetDateTime)
      → Keeps P (on_session (accept_client_hello hello now))
  pub shows :
      (targets : List VisibleTarget)
      → Keeps P (modify (λ c. record c { session = publish_target_list targets c.session }))
  pub binds : (k : String) (now : OffsetDateTime) → Keeps P (bind_target port k now)
  pub commands :
      (command : ClientCommand) (now : OffsetDateTime)
      → Keeps P (handle_command port new_v4 command now)

module _ {Value World : Type 0} (runtime : Runtime Value World) (port : TargetIpcPort Value World)
    (new_v4 : ℕ → String) (P : Context Value World → Type 0)
    (stable : IsStable runtime port new_v4 P) where
  Keeps-caught : {A : Type 0} (m : M (Context Value World) A) → Keeps P m → Keeps P (caught m)
  Keeps-caught m k = record {
    holds = λ c v. elim (RelayResult-cases (m c).0) [
      | inl (a, e) ↦ rw (caught, e) (k.holds c v)
      | inr (inl (x, e)) ↦ rw (caught, e) (k.holds c v)
      | inr (inr e) ↦ rw (caught, e) (k.holds c v)
    ];
  }

  Keeps-send_outbox : Keeps P (send_outbox runtime)
  unfolding send_outbox
  Keeps-send_outbox =
      Keeps->>= P stable.drains λ (messages : List (ServerMessage Value)). stable.sends messages

  auto_bind-Keeps : (k : String) → Keeps P (auto_bind runtime port k)
  unfolding auto_bind
  auto_bind-Keeps k = Keeps->>= P stable.locks λ (u : Unit {0}).
      Keeps->>= P stable.reads_time λ (now : OffsetDateTime).
        Keeps->>= P (Keeps-caught (bind_target port k now) (stable.binds k now))
          λ (dropped : Option RelayError). Keeps-pure P tt

  auto_bind_all-Keeps : (ks : List String) → Keeps P (auto_bind_all runtime port ks)
  unfolding auto_bind_all
  auto_bind_all-Keeps [] = Keeps-pure P tt
  auto_bind_all-Keeps (k ∷ ks) =
      Keeps->>= P (auto_bind-Keeps k) λ (u : Unit {0}). auto_bind_all-Keeps ks

  auto_bind_active_targets-Keeps : Keeps P (auto_bind_active_targets runtime port)
  unfolding auto_bind_active_targets
  auto_bind_active_targets-Keeps = Keeps->>= P stable.locks λ (u : Unit {0}).
      Keeps->>= P stable.reads_time λ (now : OffsetDateTime).
        Keeps->>= P (Keeps-gets P (λ c. c.registry)) λ (registry : TargetProcessRegistry).
          auto_bind_all-Keeps (map (λ target. target.target_id) (active_targets now registry))

  open_session-Keeps : (hello : ClientHello) → Keeps P (open_session runtime port hello)
  unfolding open_session
  open_session-Keeps hello = Keeps->>= P stable.reads_time λ (greeted : OffsetDateTime).
      Keeps->>= P (stable.greets hello greeted) λ (u : Unit {0}).
        Keeps->>= P stable.locks λ (u : Unit {0}).
          Keeps->>= P stable.reads_time λ (now : OffsetDateTime).
            Keeps->>= P (Keeps-gets P (λ c. c.registry)) λ (registry : TargetProcessRegistry).
              Keeps->>= P (stable.shows (active_targets now registry)) λ (u : Unit {0}).
                Keeps->>= P auto_bind_active_targets-Keeps λ (u : Unit {0}). Keeps-send_outbox

  module _ (decode : String → RelayResult ClientMessage) where
    answer-Keeps :
        (failed : Option RelayError)
        → Keeps P (elim failed [
          | none ↦ pure tt
          | some e ↦ on_world (send_messages runtime (ServerMessage.error e ∷ []))
        ])
    answer-Keeps none = Keeps-pure P tt
    answer-Keeps (some e) = stable.sends (ServerMessage.error e ∷ [])

    serve_command-Keeps :
        (command : ClientCommand) → Keeps P (serve_command runtime port decode new_v4 command)
    unfolding serve_command
    serve_command-Keeps command = Keeps->>= P stable.locks λ (u : Unit {0}).
        Keeps->>= P stable.reads_time λ (now : OffsetDateTime).
          Keeps->>= P
            (Keeps-caught (handle_command port new_v4 command now) (stable.commands command now))
            λ (failed : Option RelayError).
              Keeps->>= P (answer-Keeps failed) λ (u : Unit {0}). Keeps-send_outbox

    serve-Keeps :
        (received : RelayResult ClientMessage) → Keeps P (serve runtime port decode new_v4 received)
    unfolding serve
    serve-Keeps (ok (ClientMessage.command command)) = serve_command-Keeps command
    serve-Keeps (ok (ClientMessage.log_event_filter_conditions _)) = Keeps-pure P tt
    serve-Keeps (ok (client_hello _)) = stable.sends (ServerMessage.error hello_once ∷ [])
    serve-Keeps (err e) = stable.sends (ServerMessage.error e ∷ [])
    serve-Keeps panic = Keeps-lift P panic

    abbrev Running : Task Value World → Type 0
    Running t = P t.context

    serve_loop-Keeps : (fuel : ℕ) → Keeps Running (serve_loop runtime port decode new_v4 fuel)
    unfolding serve_loop
    serve_loop-Keeps zero = record { holds = λ t v. v }
    serve_loop-Keeps (suc fuel) = record {
      holds = λ t v. elim (RelayResult-cases (next_text_message t.incoming).0) [
        | inr (inl (e, q)) ↦ rw (serve_loop, q) v
        | inr (inr q) ↦ rw (serve_loop, q) v
        | inl (none, q) ↦ rw (serve_loop, q) v
        | inl (some raw, q) ↦
            let w = (serve-Keeps (decode raw)).holds t.context v in
            elim (RelayResult-cases (serve runtime port decode new_v4 (decode raw) t.context).0) [
              | inl (a, x) ↦ rw (serve_loop, q, x) ((serve_loop-Keeps fuel).holds _ w)
              | inr (inl (e, x)) ↦ rw (serve_loop, q, x) w
              | inr (inr x) ↦ rw (serve_loop, q, x) w
            ]
      ];
    }

    Running-on_context :
        {A : Type 0} {m : M (Context Value World) A} → Keeps P m → Keeps Running (on_context m)
    Running-on_context k = record { holds = λ t v. k.holds t.context v }

    refused-Keeps :
        Keeps Running
          (on_context (on_world (send_error_and_close runtime hello_first)) >> pure true)
    unfolding send_error_and_close
    refused-Keeps =
        Keeps->>= Running (Running-on_context (stable.sends (ServerMessage.error hello_first ∷ [])))
          λ (u : Unit {0}). Keeps-pure Running true

    after_first-Keeps :
        (fuel : ℕ) (first : ClientMessage)
        → Keeps Running (after_first runtime port decode new_v4 fuel first)
    unfolding after_first
    after_first-Keeps fuel (client_hello hello) =
        Keeps->>= Running (Running-on_context (open_session-Keeps hello))
          λ (u : Unit {0}). serve_loop-Keeps fuel
    after_first-Keeps fuel (ClientMessage.command _) = refused-Keeps
    after_first-Keeps fuel (ClientMessage.log_event_filter_conditions _) = refused-Keeps

    module _ (no_conditions : Value) (session_id : String) (identity : RemoteIdentity) where
      -- A property that the start of a session establishes and each of its calls keeps holds at its
      -- end, however it ends.
      pub run_dashboard_session-Keeps :
          (fuel : ℕ) (t : Task Value World)
          → P (start_session runtime no_conditions session_id identity t.context).1
          → P
              (run_dashboard_session runtime port decode new_v4 no_conditions session_id fuel
                identity t).1.context
      unfolding run_dashboard_session start_session
      run_dashboard_session-Keeps fuel t started =
          (Keeps->>= Running (Running-on_context Keeps-send_outbox) λ (u : Unit {0}).
              Keeps->>= Running
                (receive_first-Keeps runtime port decode new_v4 Running
                  (record { holds = λ t v. v }))
                λ (first : ClientMessage). after_first-Keeps fuel first).holds
            (record t {
              context = (start_session runtime no_conditions session_id identity t.context).1;
            })
            started

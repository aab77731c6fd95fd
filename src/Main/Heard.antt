-- ===== src/Main/Heard.antt =====
-- A client of src/main.rs that keeps to the protocol is heard to the end and answered in full.
use rust_supervisor_relay.Base.{
  ℕ, ◌≡◌, refl, ◌≢◌, ◌≤◌, ◌∙◌, ap, inl, inr, true, false, some, String, List, [], length, is_empty,
  trim, arith,
}
use rust_supervisor_relay.Error.{RelayResult, ok, panic}
use rust_supervisor_relay.Effect.{M, modify, gets, ◌>>=◌, ◌>>◌}
use rust_supervisor_relay.Effect.Succeeds.{Succeeds->>=, >>=-returns, >>=-ok}
use rust_supervisor_relay.Time.{OffsetDateTime}
use rust_supervisor_relay.Auth.{RemoteIdentity}
use rust_supervisor_relay.Registry.{active_targets}
use rust_supervisor_relay.Ipc.{TargetIpcPort}
use rust_supervisor_relay.Session.{
  ClientMessage, client_hello, ClientHello, DashboardSession, handshaking,
}
use rust_supervisor_relay.Session.Handshake.{greet, accept_client_hello, publish_target_list}
use rust_supervisor_relay.Session.Context.{Context, on_session}
use rust_supervisor_relay.Session.Queue.{IsMute}
use rust_supervisor_relay.Session.Steady.{IsSteady}
use rust_supervisor_relay.Main.WebSocket.{Incoming, next_text_message, Runtime}
use rust_supervisor_relay.Main.Dashboard.{
  Task, on_context, lock, now_utc, send_outbox, open_session, auto_bind_active_targets, serve_loop,
  receive_first, after_first, start_session, run_dashboard_session,
}
use rust_supervisor_relay.Main.Reading.{next_text_message_consumes}
use rust_supervisor_relay.Main.Wire.{IsWire}
use rust_supervisor_relay.Main.Received.{received}
use rust_supervisor_relay.Main.Steady.{
  IsOpen, closes, next-closes, send_outbox-Succeeds, auto_bind_active_targets-Succeeds,
  serve_loop_finishes,
}
use rust_supervisor_relay.Main.Conversation.{IsAllSaid}
use rust_supervisor_relay.Main.Conversed.{greeting, run_dashboard_session-IsAllSaid}

-- What a client sends that keeps to the protocol: a hello that names its store comes first, and the
-- stream ends without an error.
pub record IsPolite (decode : String → RelayResult ClientMessage) (items : Incoming) : Type 0 where
  pub raw : String
  pub hello : ClientHello
  pub first : (next_text_message items).0 ≡ ok (some raw)
  pub greets : decode raw ≡ ok (client_hello hello)
  pub named : is_empty (trim hello.client_store_id) ≡ false
  pub ends : closes items ≡ true

module _ {Value World : Type 0} (runtime : Runtime Value World) (is_open : IsOpen runtime)
    (port : TargetIpcPort Value World) (steady : IsSteady port)
    (decode : String → RelayResult ClientMessage) (new_v4 : ℕ → String) where
  accept_client_hello_ok :
      (hello : ClientHello) (now : OffsetDateTime) (s : DashboardSession Value)
      → s.connection_state ≡ handshaking
      → is_empty (trim hello.client_store_id) ≡ false
      → (accept_client_hello hello now s).0 ≡ ok tt
  unfolding accept_client_hello
  accept_client_hello_ok hello now s h n = ground arith

  open_session_ok :
      (hello : ClientHello) (c : Context Value World)
      → c.session.connection_state ≡ handshaking
      → is_empty (trim hello.client_store_id) ≡ false
      → (u : Unit {0}) × ((open_session runtime port hello c).0 ≡ ok u)
  unfolding open_session
  open_session_ok hello c h n =
      let (greeted, w) = runtime.now_utc c.world in
      let timed : Context Value World = record c { world = w } in
      let after : M (Context Value World) (Unit {0}) = do
        lock runtime
        now ← now_utc runtime
        registry ← gets (λ c. c.registry)
        modify (λ c. record c {
          session = publish_target_list (active_targets now registry) c.session;
        })
        auto_bind_active_targets runtime port
        send_outbox runtime
      in >>=-returns (on_session (accept_client_hello hello greeted)) (λ _. after) timed tt
        (accept_client_hello_ok hello greeted c.session h n)
        λ u. record {
          result = λ c.
              let locked = (lock runtime c).1 in
              let (now, w) = runtime.now_utc locked.world in
              (Succeeds->>= (auto_bind_active_targets-Succeeds runtime is_open port steady)
                  λ (u : Unit {0}). send_outbox-Succeeds runtime is_open).result
                (record locked {
                  world = w;
                  session = publish_target_list (active_targets now locked.registry) locked.session;
                });
        }

  receive_first_gives :
      (t : Task Value World) (raw : String) (first : ClientMessage)
      → (next_text_message t.incoming).0 ≡ ok (some raw)
      → decode raw ≡ ok first
      → receive_first runtime port decode new_v4 t
        ≡ (ok first, record t { incoming = (next_text_message t.incoming).1 })
  unfolding receive_first
  receive_first_gives t raw first q d = ground arith

  finishes_behind :
      (fuel : ℕ) (items : Incoming) (c : Context Value World)
      → IsPolite decode items
      → ((raw : String) → decode raw ≢ panic)
      → length items ≤ fuel
      → (serve_loop runtime port decode new_v4 fuel
          (record { context = c; incoming = (next_text_message items).1 })).0
        ≡ ok true
  finishes_behind fuel items c p d h = elim (next-closes items p.ends) [
    | inl q ↦ absurd (ground (arith, p.first))
    | inr (raw, q, k) ↦
        let less = next_text_message_consumes items raw q in
        serve_loop_finishes runtime is_open port steady decode new_v4 fuel _ d (omega arith) k
  ]

  module _ (no_conditions : Value) (session_id : String) (identity : RemoteIdentity) where
    run_dashboard_session_finishes :
        (fuel : ℕ) (t : Task Value World)
        → IsPolite decode t.incoming
        → ((raw : String) → decode raw ≢ panic)
        → length t.incoming ≤ fuel
        → (run_dashboard_session runtime port decode new_v4 no_conditions session_id fuel identity
            t).0
          ≡ ok true
    unfolding run_dashboard_session start_session greet after_first
    run_dashboard_session_finishes fuel t p d h =
        let (now, w) = runtime.now_utc t.context.world in
        let greeted : Context Value World = record {
          session = greet no_conditions session_id identity now;
          registry = t.context.registry;
          audit = record { events = [] };
          world = w;
        } in
        let started : Task Value World = record t { context = greeted } in
        let sent = (send_outbox runtime greeted).1 in
        let (u, e) = (send_outbox-Succeeds runtime is_open).result greeted in
        let opened : Task Value World = record {
          context = sent;
          incoming = (next_text_message t.incoming).1;
        } in
        let (v, x) = open_session_ok p.hello sent refl p.named in
        let waiting : Task Value World = record t { context = sent } in
        let got = receive_first_gives waiting p.raw (client_hello p.hello) p.first p.greets in
        let receive = receive_first runtime port decode new_v4 in
        let next = after_first runtime port decode new_v4 fuel in
        let hello = client_hello p.hello in
        ap (λ r. r.0)
          (>>=-ok (on_context (send_outbox runtime)) (λ u. receive >>= next) started u e
            ∙ >>=-ok receive next waiting hello (ap (λ r. r.0) got)
            ∙ ap (next hello) (ap (λ r. r.1) got)
            ∙ >>=-ok (on_context (open_session runtime port p.hello))
                (λ _. serve_loop runtime port decode new_v4 fuel) opened v x)
        ∙ finishes_behind fuel t.incoming (open_session runtime port p.hello sent).1 p d h

    -- Where the web socket takes every message, nothing but the connection writes to it and no
    -- target's side panics: a client that says hello with the name of its store and whose stream
    -- ends without an error is heard to its last text, whatever its texts are and whatever the
    -- targets answer, and at the end the whole conversation stands on the wire.
    pub run_dashboard_session-IsHeard :
        (wire : World → List String) (true_wire : IsWire runtime wire) (mute : IsMute port wire)
        → (fuel : ℕ) (t : Task Value World) → IsPolite decode t.incoming
        → ((raw : String) → decode raw ≢ panic)
        → length t.incoming ≤ fuel
        → let (result, after) =
            run_dashboard_session runtime port decode new_v4 no_conditions session_id fuel identity
              t in
          (result ≡ ok true)
          × IsAllSaid runtime wire decode
              (greeting no_conditions session_id identity)
              (wire t.context.world)
              (received t.incoming)
              after.context.world
    run_dashboard_session-IsHeard wire true_wire mute fuel t p d h =
        let finished = run_dashboard_session_finishes fuel t p d h in
        (
          finished,
          run_dashboard_session-IsAllSaid runtime wire true_wire port mute decode new_v4
              no_conditions session_id identity fuel t finished,
        )

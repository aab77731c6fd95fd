-- ===== src/Main/Conversed.antt =====
-- A whole dashboard connection of src/main.rs keeps to the protocol.
use rust_supervisor_relay.Base.{
  ◌≡◌, refl, ◌∙◌, sym, ap, ℕ, Bool, true, false, String, List, [], ◌∷◌, ◌++◌, arith, subst,
}
use mathlib.Core.List.{append-nil}
use rust_supervisor_relay.Error.{RelayResult, ok, err, panic}
use rust_supervisor_relay.Effect.{◌>>=◌}
use rust_supervisor_relay.Effect.Ends.{Ending, Ends->>=, Ends-weaker}
use rust_supervisor_relay.Auth.{RemoteIdentity}
use rust_supervisor_relay.Ipc.{TargetIpcPort}
use rust_supervisor_relay.Session.{ClientMessage, ServerMessage, server_hello, remote}
use rust_supervisor_relay.Session.Handshake.{greet}
use rust_supervisor_relay.Session.Context.{Context}
use rust_supervisor_relay.Session.Queue.{IsMute, At}
use rust_supervisor_relay.Main.WebSocket.{Runtime}
use rust_supervisor_relay.Main.Dashboard.{
  Task, on_context, send_outbox, receive_first, after_first, start_session, run_dashboard_session,
}
use rust_supervisor_relay.Main.Wire.{IsWire, frames, send_outbox_writes}
use rust_supervisor_relay.Main.Received.{received, Hears, receive_first-Hears}
use rust_supervisor_relay.Main.First.{after_first_says}
use rust_supervisor_relay.Main.Conversation.{
  IsSaid, IsAllSaid, Talks, Talked, Said, IsSaid-greeting, only_greeted, on_context_ends,
}

module _ {Value : Type 0} (no_conditions : Value) (session_id : String)
    (identity : RemoteIdentity) where
  -- The first message of the relay.
  abbrev pub greeting : ServerMessage Value
  greeting = server_hello session_id identity.client_identity remote no_conditions 0

module _ {Value World : Type 0} (runtime : Runtime Value World) (wire : World → List String)
    (true_wire : IsWire runtime wire) (port : TargetIpcPort Value World) (mute : IsMute port wire)
    (decode : String → RelayResult ClientMessage) (new_v4 : ℕ → String) (no_conditions : Value)
    (session_id : String) (identity : RemoteIdentity) where
  module _ (fuel : ℕ) (t : Task Value World) where
    abbrev b : List String
    b = wire t.context.world

    abbrev texts : List String
    texts = received t.incoming

    heard_first :
        (first : ClientMessage) (t' t'' : Task Value World)
        → t'.incoming ≡ t.incoming
        → At wire
            (b ++ frames runtime ((greeting no_conditions session_id identity) ∷ []))
            []
            t'.context
        → Hears decode t' first t''
        → Talks runtime wire decode
            (greeting no_conditions session_id identity)
            b
            texts
            (after_first runtime port decode new_v4 fuel first t'')
    heard_first first t' t'' i s h =
        let heard = h.raw ∷ received t''.incoming in
        let same : texts ≡ heard = ap received (sym i) ∙ h.texts in
        subst
          (λ x.
            Talks runtime wire decode (greeting no_conditions session_id identity) b x
              (after_first runtime port decode new_v4 fuel first t''))
          (sym same)
          (after_first_says runtime wire true_wire port mute decode new_v4
            (greeting no_conditions session_id identity) b h.raw (received t''.incoming) fuel first
            t'' h.decoded refl
            (subst
              (λ c.
                At wire (b ++ frames runtime ((greeting no_conditions session_id identity) ∷ [])) []
                  c)
              (sym h.kept) s))

    run_dashboard_session-Talks :
        Talks runtime wire decode (greeting no_conditions session_id identity) b texts (
          run_dashboard_session runtime port decode new_v4 no_conditions session_id fuel identity t)
    unfolding run_dashboard_session start_session greet
    run_dashboard_session-Talks =
        let (now, w) = runtime.now_utc t.context.world in
        let greeted : Context Value World = record {
          session = greet no_conditions session_id identity now;
          registry = t.context.registry;
          audit = record { events = [] };
          world = w;
        } in
        let started : Task Value World = record t { context = greeted } in
        Ends->>=
          (λ (u : Unit {0}) t'.
            At wire (b ++ frames runtime ((greeting no_conditions session_id identity) ∷ [])) []
              t'.context
            × (t'.incoming ≡ started.incoming))
          (on_context (send_outbox runtime))
          (λ (u : Unit {0}).
            receive_first runtime port decode new_v4
            >>= after_first runtime port decode new_v4 fuel)
          started
          (Ends-weaker _
            (on_context_ends _ _ _ (send_outbox runtime) started (
              send_outbox_writes runtime wire true_wire b
                ((greeting no_conditions session_id identity) ∷ []) greeted
                (record { queued = refl; written = true_wire.reads_time t.context.world })))
            (λ u t' h. h)
            (λ e t' h.
              IsSaid-greeting runtime wire true_wire port mute decode new_v4
                (greeting no_conditions session_id identity) b texts t'.context.world h)
            (λ t' h.
              IsSaid-greeting runtime wire true_wire port mute decode new_v4
                (greeting no_conditions session_id identity) b texts t'.context.world h))
          λ u t' (s, i).
            let quit = λ (t'' : Task Value World) (q : t''.context ≡ t'.context).
              only_greeted runtime wire true_wire port mute decode new_v4
                (greeting no_conditions session_id identity) b texts t''.context.world
                (ap (λ c. wire c.world) q ∙ s.written) in
            Ends-weaker _
              (Ends->>= (Hears decode t') (receive_first runtime port decode new_v4)
                (after_first runtime port decode new_v4 fuel) t'
                (Ends-weaker _ (receive_first-Hears runtime port decode new_v4 t')
                  (λ first t'' h. h) (λ e t'' q. quit t'' q) quit)
                λ first t'' h. heard_first first t' t'' i s h)
              (λ ended t'' h. h) (λ e t'' h. h) (λ t'' h. h)

    said :
        (r : RelayResult Bool) (t' : Task Value World)
        → Ending
            (Talked runtime wire decode (greeting no_conditions session_id identity) b texts)
            (λ _. Said runtime wire decode (greeting no_conditions session_id identity) b texts)
            (Said runtime wire decode (greeting no_conditions session_id identity) b texts)
            r
            t'
        → Said runtime wire decode (greeting no_conditions session_id identity) b texts t'
    said (ok true) t' h = record {
      read = texts;
      unread = [];
      heard = sym (append-nil texts);
      messages = h.messages;
      meant = h.meant;
      cut = record {
        sent = h.messages;
        lost = [];
        all = sym (append-nil h.messages);
        written = h.written;
      };
    }
    said (ok false) t' h = h
    said (err e) t' h = h
    said panic t' h = h

    -- Where nothing but the connection writes to its web socket: however it ends, what it has
    -- written there are the first frames of a conversation for the texts that it has read. That is
    -- the greeting; for a client that does not say hello one error and no more; else the targets,
    -- the states of those that were bound, and one answer to each later text in turn.
    pub run_dashboard_session-IsSaid :
        IsSaid runtime wire decode
          (greeting no_conditions session_id identity)
          b
          texts
          (run_dashboard_session runtime port decode new_v4 no_conditions session_id fuel identity
            t).1.context.world
    run_dashboard_session-IsSaid =
        let r =
          run_dashboard_session runtime port decode new_v4 no_conditions session_id fuel identity
            t in
        said r.0 r.1 run_dashboard_session-Talks.so

    all_said :
        (r : RelayResult Bool) (t' : Task Value World)
        → Ending
            (Talked runtime wire decode (greeting no_conditions session_id identity) b texts)
            (λ _. Said runtime wire decode (greeting no_conditions session_id identity) b texts)
            (Said runtime wire decode (greeting no_conditions session_id identity) b texts)
            r
            t'
        → r ≡ ok true
        → IsAllSaid runtime wire decode
            (greeting no_conditions session_id identity)
            b
            texts
            t'.context.world
    all_said (ok true) t' h q = h
    all_said (ok false) t' h q = absurd (ground arith)
    all_said (err e) t' h q = absurd (ground arith)
    all_said panic t' h q = absurd (ground arith)

    -- A connection that comes to the end of its stream has said the whole conversation.
    pub run_dashboard_session-IsAllSaid :
        (run_dashboard_session runtime port decode new_v4 no_conditions session_id fuel identity
            t).0
          ≡ ok true
        → IsAllSaid runtime wire decode
            (greeting no_conditions session_id identity)
            b
            texts
            (run_dashboard_session runtime port decode new_v4 no_conditions session_id fuel identity
              t).1.context.world
    run_dashboard_session-IsAllSaid =
        let r =
          run_dashboard_session runtime port decode new_v4 no_conditions session_id fuel identity
            t in
        all_said r.0 r.1 run_dashboard_session-Talks.so

-- ===== src/Main/First.antt =====
-- What a dashboard connection of src/main.rs says to the first text of its client, and behind it.
use rust_supervisor_relay.Base.{
  ◌≡◌, ◌≢◌, refl, ◌∙◌, sym, ap, ◌⊎◌, inl, inr, ℕ, Bool, true, false, String, List, [], ◌∷◌, ◌++◌,
  map, arith, subst,
}
use mathlib.Core.List.{append-nil, append_assoc, map-append}
use rust_supervisor_relay.Error.{RelayResult, ok}
use rust_supervisor_relay.Effect.{pure, ◌>>◌}
use rust_supervisor_relay.Effect.Ends.{Ends->>=, Ends-weaker}
use rust_supervisor_relay.Ipc.{TargetIpcPort}
use rust_supervisor_relay.Session.{ClientMessage, client_hello, ClientHello, ServerMessage}
use rust_supervisor_relay.Session.Context.{on_world}
use rust_supervisor_relay.Session.Protocol.{none_left}
use rust_supervisor_relay.Session.Queue.{IsMute, At}
use rust_supervisor_relay.Main.WebSocket.{Runtime, send_error_and_close}
use rust_supervisor_relay.Main.Dashboard.{
  hello_first, Task, on_context, open_session, serve_loop, after_first,
}
use rust_supervisor_relay.Main.Wire
use rust_supervisor_relay.Main.Wire.{
  IsWire, frames, IsCut, IsCut-nothing, IsCut-later, on_world_writes, send_outbox_writes,
}
use rust_supervisor_relay.Main.Received.{received}
use rust_supervisor_relay.Main.Replies.{IsBegun, Spoken, serve_loop_answers}
use rust_supervisor_relay.Main.Opening.{IsOpening, IsOpened, open_session_opens}
use rust_supervisor_relay.Main.Conversation.{
  turned_away, held, IsSaid, Talked, Said, Talks, after_greeting, IsSaid-greeting, on_context_ends,
}

module _ {Value World : Type 0} (runtime : Runtime Value World) (wire : World → List String)
    (true_wire : IsWire runtime wire) (port : TargetIpcPort Value World) (mute : IsMute port wire)
    (decode : String → RelayResult ClientMessage) (new_v4 : ℕ → String)
    (greeting : ServerMessage Value) (b : List String) where
  module _ (raw : String) (texts : List String) where
    said_begun :
        (hello : ClientHello) (t : Task Value World)
        → decode raw ≡ ok (client_hello hello)
        → (messages : List (ServerMessage Value)) → IsOpening messages
        → IsBegun runtime wire decode
            ((after_greeting runtime greeting b) ++ frames runtime messages)
            texts
            t
        → Said runtime wire decode greeting b (raw ∷ texts) t
    said_begun hello t d messages o h = record {
      read = raw ∷ h.read;
      unread = h.unread;
      heard = ap (λ x. raw ∷ x) h.heard;
      messages = greeting ∷ (messages ++ h.answers);
      meant = rw d (held hello o h.meant);
      cut =
          IsCut-later runtime wire true_wire b (greeting ∷ []) (messages ++ h.answers)
            t.context.world
            (IsCut-later runtime wire true_wire (after_greeting runtime greeting b) messages
              h.answers t.context.world h.cut);
    }

    IsSaid-unopened :
        (hello : ClientHello) (w : World)
        → decode raw ≡ ok (client_hello hello)
        → (messages : List (ServerMessage Value)) → IsOpening messages ⊎ (messages ≡ [])
        → IsCut runtime wire (after_greeting runtime greeting b) messages w
        → IsSaid runtime wire decode greeting b (raw ∷ texts) w
    IsSaid-unopened hello w d messages (inl o) h = record {
      read = raw ∷ [];
      unread = texts;
      heard = refl;
      messages = greeting ∷ (messages ++ []);
      meant = rw d (held hello o none_left);
      cut = IsCut-later runtime wire true_wire b (greeting ∷ []) (messages ++ []) w (
          subst (λ x. IsCut runtime wire (after_greeting runtime greeting b) x w)
            (sym (append-nil messages)) h);
    }
    IsSaid-unopened hello w d messages (inr e) h =
        IsSaid-greeting runtime wire true_wire port mute decode new_v4 greeting b (raw ∷ texts) w (
          subst (λ x. IsCut runtime wire b (greeting ∷ x) w) e
            (IsCut-later runtime wire true_wire b (greeting ∷ []) messages w h))

    talked :
        (hello : ClientHello)
        → decode raw ≡ ok (client_hello hello)
        → (messages : List (ServerMessage Value)) → IsOpening messages
        → (ended : Bool) (t : Task Value World)
        → Spoken runtime wire decode
            ((after_greeting runtime greeting b) ++ frames runtime messages)
            texts
            ended
            t
        → Talked runtime wire decode greeting b (raw ∷ texts) ended t
    talked hello d messages o true t h = record {
      messages = greeting ∷ (messages ++ h.answers);
      meant = rw d (held hello o h.meant);
      written =
          h.written
          ∙ ap (λ x. x ++ frames runtime h.answers)
              (append_assoc b (frames runtime (greeting ∷ [])) (frames runtime messages))
          ∙ append_assoc b (frames runtime (greeting ∷ messages)) (frames runtime h.answers)
          ∙ ap (λ x. b ++ x)
              (sym (map-append (Wire.frame runtime) (greeting ∷ messages) h.answers));
    }
    talked hello d messages o false t h = said_begun hello t d messages o h

    cut_off :
        (first : ClientMessage) (w : World)
        → decode raw ≡ ok first
        → ((hello : ClientHello) → first ≢ client_hello hello)
        → IsCut runtime wire
            (after_greeting runtime greeting b)
            (ServerMessage.error hello_first ∷ [])
            w
        → IsSaid runtime wire decode greeting b (raw ∷ texts) w
    cut_off first w d no_hello h = record {
      read = raw ∷ [];
      unread = texts;
      heard = refl;
      messages = greeting ∷ ServerMessage.error hello_first ∷ [];
      meant = rw d (turned_away first [] no_hello);
      cut =
          IsCut-later runtime wire true_wire b (greeting ∷ [])
            (ServerMessage.error hello_first ∷ []) w h;
    }

    -- Another first message is turned away.
    turned :
        (first : ClientMessage) (t : Task Value World)
        → decode raw ≡ ok first
        → ((hello : ClientHello) → first ≢ client_hello hello)
        → At wire (after_greeting runtime greeting b) [] t.context
        → Talks runtime wire decode greeting b
            (raw ∷ texts)
            ((on_context (on_world (send_error_and_close runtime hello_first)) >> pure true) t)
    unfolding send_error_and_close
    turned first t d no_hello s =
        let answer = ServerMessage.error hello_first ∷ [] in
        let b' = (after_greeting runtime greeting b) ++ frames runtime answer in
        Ends->>= (λ (u : Unit {0}) t'. At wire b' [] t'.context × (t'.incoming ≡ t.incoming))
          (on_context (on_world (send_error_and_close runtime hello_first)))
          (λ (u : Unit {0}). pure true) t
          (Ends-weaker _
            (on_context_ends _ _ _ (on_world (send_error_and_close runtime hello_first)) t (
              on_world_writes runtime wire true_wire (after_greeting runtime greeting b) [] answer
                t.context s))
            (λ u t' h. h) (λ e t' h. cut_off first t'.context.world d no_hello h)
            (λ t' h. cut_off first t'.context.world d no_hello h))
          λ u t' (s, i). record {
            so = record {
              messages = greeting ∷ answer;
              meant = rw d (turned_away first (map decode texts) no_hello);
              written =
                  s.written
                  ∙ append_assoc b (frames runtime (greeting ∷ [])) (frames runtime answer);
            };
          }

    pub after_first_says :
        (fuel : ℕ) (first : ClientMessage) (t : Task Value World)
        → decode raw ≡ ok first
        → texts ≡ received t.incoming
        → At wire (after_greeting runtime greeting b) [] t.context
        → Talks runtime wire decode greeting b
            (raw ∷ texts)
            (after_first runtime port decode new_v4 fuel first t)
    unfolding after_first
    after_first_says fuel (client_hello hello) t d r s =
        Ends->>=
          (λ (u : Unit {0}) t'.
            IsOpened runtime wire (after_greeting runtime greeting b) t'.context
            × (t'.incoming ≡ t.incoming))
          (on_context (open_session runtime port hello))
          (λ (u : Unit {0}). serve_loop runtime port decode new_v4 fuel) t
          (Ends-weaker _
            (on_context_ends _ _ _ (open_session runtime port hello) t (
              open_session_opens runtime wire true_wire port mute
                (after_greeting runtime greeting b) hello t.context s))
            (λ u t' h. h)
            (λ e t' h. IsSaid-unopened hello t'.context.world d h.messages h.meant h.cut)
            (λ t' h. IsSaid-unopened hello t'.context.world d h.messages h.meant h.cut))
          λ u t' ((messages, o, s), i).
            let same : received t'.incoming ≡ texts = ap received i ∙ sym r in
            Ends-weaker _
              (serve_loop_answers runtime wire true_wire decode port mute new_v4 fuel
                ((after_greeting runtime greeting b) ++ frames runtime messages) t' s)
              (λ ended t'' h. talked hello d messages o ended t'' (
                subst
                  (λ x.
                    Spoken runtime wire decode
                      ((after_greeting runtime greeting b) ++ frames runtime messages) x ended t'')
                  same h))
              (λ e t'' h. said_begun hello t'' d messages o (
                subst
                  (λ x.
                    IsBegun runtime wire decode
                      ((after_greeting runtime greeting b) ++ frames runtime messages) x t'')
                  same h))
              (λ t'' h. said_begun hello t'' d messages o (
                subst
                  (λ x.
                    IsBegun runtime wire decode
                      ((after_greeting runtime greeting b) ++ frames runtime messages) x t'')
                  same h))
    after_first_says fuel (ClientMessage.command c) t d r s =
        turned (ClientMessage.command c) t d (λ h q. ground arith) s
    after_first_says fuel (ClientMessage.log_event_filter_conditions c) t d r s =
        turned (ClientMessage.log_event_filter_conditions c) t d (λ h q. ground arith) s

-- ===== src/Main/Wire.antt =====
-- What src/main.rs writes to the web socket of a dashboard.
use rust_supervisor_relay.Base.{
  ◌≡◌, refl, ◌∙◌, sym, ap, inl, inr, String, List, [], ◌∷◌, ◌++◌, map, Sum-cases,
}
use mathlib.Core.List.{append-nil, append_assoc, map-append}
use rust_supervisor_relay.Error.{RelayResult, ok, err, panic}
use rust_supervisor_relay.Effect.Ends.{Ending, Ends, Ends->>=, Ends-weaker}
use rust_supervisor_relay.Registry.{TargetProcessRegistry}
use rust_supervisor_relay.Session.{ServerMessage, drain_outbox}
use rust_supervisor_relay.Session.Context.{Context, on_world}
use rust_supervisor_relay.Session.Queue.{At}
use rust_supervisor_relay.Main.WebSocket.{Runtime, send_message, send_messages}
use rust_supervisor_relay.Main.Dashboard.{lock, now_utc, send_outbox}

-- The frames that the web socket has taken: one more for each `send` that succeeds, and no other
-- task writes to it.
pub record IsWire {Value World : Type 0} (runtime : Runtime Value World)
    (wire : World → List String) : Type 0 where
  pub sends :
      (t : String) (w : World)
      → (runtime.send t w).0 ≡ inr tt
      → wire (runtime.send t w).1 ≡ wire w ++ (t ∷ [])
  pub fails :
      (t error : String) (w : World)
      → (runtime.send t w).0 ≡ inl error
      → wire (runtime.send t w).1 ≡ wire w
  pub reads_time : (w : World) → wire (runtime.now_utc w).1 ≡ wire w
  pub runs : (g : TargetProcessRegistry) (w : World) → wire (runtime.others g w).1 ≡ wire w

module _ {Value World : Type 0} (runtime : Runtime Value World) where
  -- The frame of a message.
  abbrev pub frame : ServerMessage Value → String
  frame message = elim (runtime.to_string message) [ inl _ ↦ "" | inr t ↦ t ]

  abbrev pub frames : List (ServerMessage Value) → List String
  frames = map frame

module _ {Value World : Type 0} (runtime : Runtime Value World) (wire : World → List String) where
  -- The web socket has taken the first of the messages, and no other.
  pub record IsCut (b : List String) (messages : List (ServerMessage Value)) (w : World)
      : Type 0 where
    pub sent : List (ServerMessage Value)
    pub lost : List (ServerMessage Value)
    pub all : messages ≡ sent ++ lost
    pub written : wire w ≡ b ++ frames runtime sent

module _ {Value World : Type 0} (runtime : Runtime Value World) (wire : World → List String)
    (true_wire : IsWire runtime wire) where
  send_message_writes :
      (b : List String) (message : ServerMessage Value) (w : World)
      → wire w ≡ b
      → Ends
          (λ _ w. wire w ≡ b ++ (frame runtime message ∷ []))
          (λ _ w. wire w ≡ b)
          (λ w. wire w ≡ b)
          (send_message runtime message w)
  unfolding send_message
  send_message_writes b message w h = elim (Sum-cases (runtime.to_string message)) [
    | inl (error, e) ↦ rw (send_message, e) (record { so = h })
    | inr (t, e) ↦ elim (Sum-cases (runtime.send t w).0) [
      | inl (error, s) ↦ rw (send_message, e, s) (record { so = true_wire.fails t error w s ∙ h })
      | inr (_, s) ↦
          let same : frame runtime message ≡ t = rw (frame, e) refl in
          rw (send_message, e, s)
            (record { so = rw same (true_wire.sends t w s ∙ ap (λ x. x ++ (t ∷ [])) h) })
    ]
  ]

  pub IsCut-nothing :
      (b : List String) (messages : List (ServerMessage Value)) (w : World)
      → wire w ≡ b
      → IsCut runtime wire b messages w
  IsCut-nothing b messages w h = record {
    sent = [];
    lost = messages;
    all = refl;
    written = h ∙ sym (append-nil b);
  }

  pub IsCut-later :
      (b : List String) (before messages : List (ServerMessage Value)) (w : World)
      → IsCut runtime wire (b ++ frames runtime before) messages w
      → IsCut runtime wire b (before ++ messages) w
  IsCut-later b before messages w h = record {
    sent = before ++ h.sent;
    lost = h.lost;
    all = ap (λ x. before ++ x) h.all ∙ sym (append_assoc before h.sent h.lost);
    written =
        h.written
        ∙ append_assoc b (frames runtime before) (frames runtime h.sent)
        ∙ ap (λ x. b ++ x) (sym (map-append (frame runtime) before h.sent));
  }

  send_messages_writes :
      (messages : List (ServerMessage Value)) (b : List String) (w : World)
      → wire w ≡ b
      → Ends
          (λ _ w. wire w ≡ b ++ frames runtime messages)
          (λ _. IsCut runtime wire b messages)
          (IsCut runtime wire b messages)
          (send_messages runtime messages w)
  unfolding send_messages
  send_messages_writes [] b w h = record { so = h ∙ sym (append-nil b) }
  send_messages_writes (message ∷ messages) b w h =
      let all = message ∷ messages in
      Ends->>= (λ (u : Unit {0}) w. wire w ≡ b ++ (frame runtime message ∷ []))
        (send_message runtime message) (λ (u : Unit {0}). send_messages runtime messages) w
        (Ends-weaker _ (send_message_writes b message w h) (λ _ w h. h)
          (λ e w h. IsCut-nothing b all w h) (λ w h. IsCut-nothing b all w h))
        λ u w h.
          Ends-weaker _ (send_messages_writes messages (b ++ (frame runtime message ∷ [])) w h)
            (λ _ w h. h ∙ append_assoc b (frame runtime message ∷ []) (frames runtime messages))
            (λ e w h. IsCut-later b (message ∷ []) messages w h)
            (λ w h. IsCut-later b (message ∷ []) messages w h)

  carried :
      (r : RelayResult (Unit {0})) (c : Context Value World) (w : World)
      → (b b' : List String) (waiting messages : List (ServerMessage Value))
      → c.session.outbox ≡ waiting
      → Ending
          (λ _ w. wire w ≡ b')
          (λ _. IsCut runtime wire b messages)
          (IsCut runtime wire b messages)
          r
          w
      → Ending
          (λ _. At wire b' waiting)
          (λ _ c. IsCut runtime wire b messages c.world)
          (λ c. IsCut runtime wire b messages c.world)
          r
          (record c { world = w })
  carried (ok u) c w b b' waiting messages q h = record { queued = q; written = h }
  carried (err e) c w b b' waiting messages q h = h
  carried panic c w b b' waiting messages q h = h

  module _ (b : List String) where
    -- A part of the messages is written, or all of them with the outbox as it was.
    abbrev pub Part : List (ServerMessage Value) → Context Value World → Type 0
    Part messages c = IsCut runtime wire b messages c.world

    pub on_world_writes :
        (waiting messages : List (ServerMessage Value)) (c : Context Value World)
        → At wire b waiting c
        → Ends
            (λ _. At wire (b ++ frames runtime messages) waiting)
            (λ _. Part messages)
            (Part messages)
            (on_world (send_messages runtime messages) c)
    on_world_writes waiting messages c s = record {
      so =
          carried (send_messages runtime messages c.world).0 c _ b _ waiting messages s.queued
            (send_messages_writes messages b c.world s.written).so;
    }

    pub send_outbox_writes :
        (messages : List (ServerMessage Value)) (c : Context Value World)
        → At wire b messages c
        → Ends
            (λ _. At wire (b ++ frames runtime messages) [])
            (λ _. Part messages)
            (Part messages)
            (send_outbox runtime c)
    unfolding send_outbox drain_outbox
    send_outbox_writes messages c s =
        let drained : Context Value World = record c {
          session = record c.session { outbox = [] };
        } in
        rw s.queued
          (on_world_writes [] messages drained (record { queued = refl; written = s.written }))

    -- What leaves the session alone and writes nothing.
    pub lock_writes :
        (waiting : List (ServerMessage Value)) (c : Context Value World)
        → At wire b waiting c
        → At wire b waiting (lock runtime c).1
    lock_writes waiting c s = record {
      queued = s.queued;
      written = true_wire.runs c.registry c.world ∙ s.written;
    }

    pub now_utc_writes :
        (waiting : List (ServerMessage Value)) (c : Context Value World)
        → At wire b waiting c
        → At wire b waiting (now_utc runtime c).1
    now_utc_writes waiting c s = record {
      queued = s.queued;
      written = true_wire.reads_time c.world ∙ s.written;
    }

-- ===== src/Main/Steady.antt =====
-- A dashboard connection of src/main.rs is not ended by what its client sends.
use rust_supervisor_relay.Base.{
  ℕ, zero, suc, ◌≡◌, refl, ◌≢◌, ◌<◌, ◌⊎◌, inl, inr, Bool, true, false, Option, none, some, String,
  List, [], ◌∷◌, map, length, arith,
}
use rust_supervisor_relay.Error.{RelayError, RelayResult, RelayResult-cases, ok, err, panic}
use rust_supervisor_relay.Effect.{M, pure}
use rust_supervisor_relay.Effect.Succeeds.{Survives, Succeeds, Succeeds->>=, Succeeds-pure}
use rust_supervisor_relay.Time.{OffsetDateTime}
use rust_supervisor_relay.Command.{ClientCommand}
use rust_supervisor_relay.Registry.{active_targets}
use rust_supervisor_relay.Ipc.{TargetIpcPort}
use rust_supervisor_relay.Session.{ClientMessage, client_hello, ServerMessage, drain_outbox}
use rust_supervisor_relay.Session.Context.{Context, on_world}
use rust_supervisor_relay.Session.Steady.{IsSteady, handle_command-Survives, bind_target-Survives}
use rust_supervisor_relay.Main.WebSocket.{
  text, binary, ping, pong, frame, close, Incoming, next_text_message, Runtime, send_message,
  send_messages,
}
use rust_supervisor_relay.Main.Dashboard.{
  hello_once, Task, caught, lock, now_utc, send_outbox, auto_bind, auto_bind_all,
  auto_bind_active_targets, serve_command, serve, serve_loop,
}
use rust_supervisor_relay.Main.Reading.{next_text_message_consumes}

-- The web socket takes every message.
pub record IsOpen {Value World : Type 0} (runtime : Runtime Value World) : Type 0 where
  pub encodes : (message : ServerMessage Value) → (t : String) × (runtime.to_string message ≡ inr t)
  pub sends : (t : String) (w : World) → (runtime.send t w).0 ≡ inr tt

-- The stream ends without an error.
unfoldable pub closes : Incoming → Bool
closes [] = true
closes (inl error ∷ items) = false
closes (inr close ∷ items) = true
closes (inr (text (inl error)) ∷ items) = false
closes (inr (text (inr t)) ∷ items) = closes items
closes (inr (binary (inl error)) ∷ items) = false
closes (inr (binary (inr t)) ∷ items) = closes items
closes (inr ping ∷ items) = closes items
closes (inr pong ∷ items) = closes items
closes (inr frame ∷ items) = closes items

-- Such a stream gives a text, or ends.
pub next-closes :
    (items : Incoming)
    → closes items ≡ true
    → ((next_text_message items).0 ≡ ok none)
      ⊎ ((raw : String) × ((next_text_message items).0 ≡ ok (some raw))
          × (closes (next_text_message items).1 ≡ true))
unfolding closes next_text_message
next-closes [] h = inl refl
next-closes (inl error ∷ items) h = absurd (ground arith)
next-closes (inr close ∷ items) h = inl refl
next-closes (inr (text (inl error)) ∷ items) h = absurd (ground arith)
next-closes (inr (text (inr t)) ∷ items) h = inr (t, refl, h)
next-closes (inr (binary (inl error)) ∷ items) h = absurd (ground arith)
next-closes (inr (binary (inr t)) ∷ items) h = inr (t, refl, h)
next-closes (inr ping ∷ items) h = next-closes items h
next-closes (inr pong ∷ items) h = next-closes items h
next-closes (inr frame ∷ items) h = next-closes items h

module _ {Value World : Type 0} (runtime : Runtime Value World) (is_open : IsOpen runtime) where
  send_message-Succeeds : (message : ServerMessage Value) → Succeeds (send_message runtime message)
  unfolding send_message
  send_message-Succeeds message = record {
    result = λ w.
        let (t, e) = is_open.encodes message in rw (send_message, e, is_open.sends t w) (tt, refl);
  }

  send_messages-Succeeds :
      (messages : List (ServerMessage Value)) → Succeeds (send_messages runtime messages)
  unfolding send_messages
  send_messages-Succeeds [] = Succeeds-pure tt
  send_messages-Succeeds (message ∷ messages) =
      Succeeds->>= (send_message-Succeeds message) λ (u : Unit {0}). send_messages-Succeeds messages

  pub on_world-Succeeds :
      (messages : List (ServerMessage Value))
      → Succeeds (on_world {Value = Value} (send_messages runtime messages))
  on_world-Succeeds messages = record {
    result = λ c. (send_messages-Succeeds messages).result c.world;
  }

  pub send_outbox-Succeeds : Succeeds (send_outbox runtime)
  unfolding send_outbox
  send_outbox-Succeeds = record {
    result = λ c.
        let (messages, s) = drain_outbox c.session in
        (on_world-Succeeds messages).result (record c { session = s });
  }

  Succeeds-caught : {A : Type 0} {m : M (Context Value World) A} → Survives m → Succeeds (caught m)
  Succeeds-caught {m} k = record {
    result = λ c. elim (RelayResult-cases (m c).0) [
      | inl (a, e) ↦ rw (caught, e) (none, refl)
      | inr (inl (x, e)) ↦ rw (caught, e) (some x, refl)
      | inr (inr e) ↦ absurd (k.never c e)
    ];
  }

  Succeeds-lock : Succeeds (lock runtime)
  Succeeds-lock = record { result = λ c. (tt, refl) }

  Succeeds-now_utc : Succeeds (now_utc runtime)
  Succeeds-now_utc = record { result = λ c. (_, refl) }

  module _ (port : TargetIpcPort Value World) (steady : IsSteady port) where
    auto_bind-Succeeds : (k : String) → Succeeds (auto_bind runtime port k)
    unfolding auto_bind
    auto_bind-Succeeds k = Succeeds->>= Succeeds-lock λ (u : Unit {0}).
        Succeeds->>= Succeeds-now_utc λ (now : OffsetDateTime).
          Succeeds->>= (Succeeds-caught (bind_target-Survives port steady k now))
            λ (dropped : Option RelayError). Succeeds-pure tt

    auto_bind_all-Succeeds : (ks : List String) → Succeeds (auto_bind_all runtime port ks)
    unfolding auto_bind_all
    auto_bind_all-Succeeds [] = Succeeds-pure tt
    auto_bind_all-Succeeds (k ∷ ks) =
        Succeeds->>= (auto_bind-Succeeds k) λ (u : Unit {0}). auto_bind_all-Succeeds ks

    -- The automatic binding passes over what fails.
    pub auto_bind_active_targets-Succeeds : Succeeds (auto_bind_active_targets runtime port)
    unfolding auto_bind_active_targets
    auto_bind_active_targets-Succeeds = record {
      result = λ c.
          let locked = (lock runtime c).1 in
          let (now, w) = runtime.now_utc locked.world in
          (auto_bind_all-Succeeds
              (map (λ target. target.target_id) (active_targets now locked.registry))).result
            (record locked { world = w });
    }

    module _ (decode : String → RelayResult ClientMessage) (new_v4 : ℕ → String) where
      reply-Succeeds :
          (failed : Option RelayError)
          → Succeeds (elim failed as (λ _. M (Context Value World) (Unit {0})) [
            | none ↦ pure tt
            | some e ↦ on_world (send_messages runtime (ServerMessage.error e ∷ []))
          ])
      reply-Succeeds none = Succeeds-pure tt
      reply-Succeeds (some e) = on_world-Succeeds (ServerMessage.error e ∷ [])

      serve_command-Succeeds :
          (command : ClientCommand) → Succeeds (serve_command runtime port decode new_v4 command)
      unfolding serve_command
      serve_command-Succeeds command = Succeeds->>= Succeeds-lock λ (u : Unit {0}).
          Succeeds->>= Succeeds-now_utc λ (now : OffsetDateTime).
            Succeeds->>= (Succeeds-caught (handle_command-Survives port steady new_v4 command now))
              λ (failed : Option RelayError).
                Succeeds->>= (reply-Succeeds failed) λ (u : Unit {0}). send_outbox-Succeeds

      pub serve-Succeeds :
          (received : RelayResult ClientMessage)
          → received ≢ panic
          → Succeeds (serve runtime port decode new_v4 received)
      unfolding serve
      serve-Succeeds (ok (ClientMessage.command command)) h = serve_command-Succeeds command
      serve-Succeeds (ok (ClientMessage.log_event_filter_conditions _)) h = Succeeds-pure tt
      serve-Succeeds (ok (client_hello _)) h =
          on_world-Succeeds (ServerMessage.error hello_once ∷ [])
      serve-Succeeds (err e) h = on_world-Succeeds (ServerMessage.error e ∷ [])
      serve-Succeeds panic h = absurd (h refl)

      -- The loop goes on to the end of the stream, whatever the texts and the commands are.
      pub serve_loop_finishes :
          (fuel : ℕ) (t : Task Value World)
          → ((raw : String) → decode raw ≢ panic)
          → length t.incoming < fuel
          → closes t.incoming ≡ true
          → (serve_loop runtime port decode new_v4 fuel t).0 ≡ ok true
      unfolding serve_loop
      serve_loop_finishes zero t d h k = absurd (omega arith)
      serve_loop_finishes (suc fuel) t d h k = elim (next-closes t.incoming k) [
        | inl q ↦ rw (serve_loop, q) refl
        | inr (raw, q, k') ↦
            let (u, x) = (serve-Succeeds (decode raw) (d raw)).result t.context in
            let less = next_text_message_consumes t.incoming raw q in
            rw (serve_loop, q, x) (serve_loop_finishes fuel _ d (omega arith) k')
      ]

-- ===== src/Main/Reading.antt =====
-- What reading from the web socket of src/main.rs does to what is still to come.
use rust_supervisor_relay.Base.{
  ℕ, ◌≡◌, ◌<◌, ◌≤◌, inl, inr, Option, none, some, String, [], ◌∷◌, length, arith,
}
use rust_supervisor_relay.Error.{RelayResult, RelayResult-cases, ok, ok_or}
use rust_supervisor_relay.Effect.Keeps.{Keeps, Keeps-lift, Keeps->>=}
use rust_supervisor_relay.Ipc.{TargetIpcPort}
use rust_supervisor_relay.Session.{ClientMessage}
use rust_supervisor_relay.Main.WebSocket.{
  text, binary, ping, pong, frame, close, Incoming, next_text_message, Runtime,
}
use rust_supervisor_relay.Main.Dashboard.{hello_required, Task, on_incoming, receive_first}

-- Reading consumes the stream.
pub next_text_message_shrinks :
    (items : Incoming) → length (next_text_message items).1 ≤ length items
unfolding next_text_message
next_text_message_shrinks [] = omega arith
next_text_message_shrinks (inl error ∷ items) = omega arith
next_text_message_shrinks (inr close ∷ items) = omega arith
next_text_message_shrinks (inr (text t) ∷ items) = omega arith
next_text_message_shrinks (inr (binary t) ∷ items) = omega arith
next_text_message_shrinks (inr ping ∷ items) = omega (arith, next_text_message_shrinks items)
next_text_message_shrinks (inr pong ∷ items) = omega (arith, next_text_message_shrinks items)
next_text_message_shrinks (inr frame ∷ items) = omega (arith, next_text_message_shrinks items)

pub next_text_message_consumes :
    (items : Incoming) (raw : String)
    → (next_text_message items).0 ≡ ok (some raw)
    → length (next_text_message items).1 < length items
unfolding next_text_message
next_text_message_consumes [] raw h = ground arith
next_text_message_consumes (inl error ∷ items) raw h = omega arith
next_text_message_consumes (inr close ∷ items) raw h = omega arith
next_text_message_consumes (inr (text t) ∷ items) raw h = omega arith
next_text_message_consumes (inr (binary t) ∷ items) raw h = omega arith
next_text_message_consumes (inr ping ∷ items) raw h =
    omega (arith, next_text_message_consumes items raw h)
next_text_message_consumes (inr pong ∷ items) raw h =
    omega (arith, next_text_message_consumes items raw h)
next_text_message_consumes (inr frame ∷ items) raw h =
    omega (arith, next_text_message_consumes items raw h)

module _ {Value World : Type 0} (runtime : Runtime Value World) (port : TargetIpcPort Value World)
    (decode : String → RelayResult ClientMessage) (new_v4 : ℕ → String) where
  pub receive_first-Keeps :
      (P : Task Value World → Type 0)
      → Keeps P (on_incoming {Value = Value} {World = World} next_text_message)
      → Keeps P (receive_first runtime port decode new_v4)
  unfolding receive_first
  receive_first-Keeps P k = Keeps->>= P k λ (received : Option String).
      Keeps->>= P (Keeps-lift P (ok_or received hello_required))
        λ (raw : String). Keeps-lift P (decode raw)

  pub receive_first_ok :
      (t : Task Value World) (first : ClientMessage)
      → (receive_first runtime port decode new_v4 t).0 ≡ ok first
      → (raw : String) × ((next_text_message t.incoming).0 ≡ ok (some raw))
        × (decode raw ≡ ok first)
  unfolding receive_first
  receive_first_ok t first h = elim (RelayResult-cases (next_text_message t.incoming).0) [
    | inr (inl (e, q)) ↦ absurd (ground arith)
    | inr (inr q) ↦ absurd (ground arith)
    | inl (none, q) ↦ absurd (ground arith)
    | inl (some raw, q) ↦ (raw, q, ground arith)
  ]

-- ===== src/Session/Queue.antt =====
-- What waits in the outbox of a session (src/session.rs), while nothing is written to the web
-- socket.
use rust_supervisor_relay.Base.{◌≡◌, ◌∙◌, ap, String, List}
use rust_supervisor_relay.Error.{RelayError, RelayResult}
use rust_supervisor_relay.Effect.{M, inspect_err}
use rust_supervisor_relay.Effect.Ends.{Ends, Ends-inspect_err, Ends-always}
use rust_supervisor_relay.Time.{OffsetDateTime}
use rust_supervisor_relay.Command.{PreparedCommand}
use rust_supervisor_relay.Registry.{TargetProcessRegistration}
use rust_supervisor_relay.Ipc.{TargetIpcPort}
use rust_supervisor_relay.Session.{ServerMessage}
use rust_supervisor_relay.Session.Context.{Context, on_world}

-- The calls of the targets write nothing to the web socket of the session.
pub record IsMute {Value World : Type 0} (port : TargetIpcPort Value World)
    (wire : World → List String) : Type 0 where
  pub connects :
      (r : TargetProcessRegistration) (now : OffsetDateTime) (w : World)
      → wire (port.connect_state r now w).1 ≡ wire w
  pub subscribes :
      (r : TargetProcessRegistration) (now : OffsetDateTime) (w : World)
      → wire (port.subscribe_event_log r now w).1 ≡ wire w
  pub forwards :
      (r : TargetProcessRegistration) (p : PreparedCommand) (now : OffsetDateTime) (w : World)
      → wire (port.forward_command r p now w).1 ≡ wire w

-- What waits in the outbox, and what the web socket has taken.
pub record Stands {Value World : Type 0} (wire : World → List String) (b : List String)
    (messages : List (ServerMessage Value)) (c : Context Value World) : Type 0 where
  pub queued : c.session.outbox ≡ messages
  pub written : wire c.world ≡ b

module _ {Value World : Type 0} (wire : World → List String) (b : List String) where
  abbrev pub Unwritten : Context Value World → Type 0
  Unwritten c = wire c.world ≡ b

  abbrev pub At : List (ServerMessage Value) → Context Value World → Type 0
  At messages = Stands wire b messages

  -- A call of the targets' side, whose error may be noted elsewhere.
  pub called :
      {A : Type 0} (m : M World A) (g : RelayError → Context Value World → Context Value World)
      → ((w : World) → wire (m w).1 ≡ wire w)
      → ((e : RelayError) (c : Context Value World) → (g e c).session ≡ c.session)
      → ((e : RelayError) (c : Context Value World) → (g e c).world ≡ c.world)
      → (messages : List (ServerMessage Value)) (c : Context Value World) → At messages c
      → Ends (λ _. At messages) (λ _. At messages) Unwritten (inspect_err (on_world m) g c)
  called m g mute same still messages c s =
      Ends-inspect_err (λ _. At messages) (λ _. At messages) (λ _. At messages) Unwritten
        (on_world m) g c
        (Ends-always (At messages) Unwritten (λ c s. s.written) (on_world m c)
          (record { queued = s.queued; written = mute c.world ∙ s.written }))
        λ e c s. record {
          queued = ap (λ x. x.outbox) (same e c) ∙ s.queued;
          written = ap wire (still e c) ∙ s.written;
        }

  -- A step that touches neither the session nor the world.
  pub passed :
      {A : Type 0} (r : RelayResult A × Context Value World)
      → (messages : List (ServerMessage Value)) → At messages r.1
      → Ends (λ _. At messages) (λ _. At messages) Unwritten r
  passed r messages s = Ends-always (At messages) Unwritten (λ c s. s.written) r s

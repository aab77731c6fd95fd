-- ===== src/Session/QueueCommand.antt =====
-- What a command puts into the outbox (src/session.rs).
use rust_supervisor_relay.Base.{
  ◌≡◌, refl, ap, ℕ, inl, inr, true, String, List, [], ◌∷◌, ◌++◌, Bool-cases,
}
use rust_supervisor_relay.Error.{RelayError}
use rust_supervisor_relay.Effect.{pure, inspect_err}
use rust_supervisor_relay.Effect.Ends.{Ends, Ends->>=, Ends-weaker}
use rust_supervisor_relay.Time.{OffsetDateTime}
use rust_supervisor_relay.Auth.{RemoteIdentity}
use rust_supervisor_relay.Command.{ClientCommand, PreparedCommand, ControlCommandResult}
use rust_supervisor_relay.Command.Laws.{prepared}
use rust_supervisor_relay.Registry.{TargetProcessRegistration}
use rust_supervisor_relay.Audit.{record_accepted, record_rejected, record_completed}
use rust_supervisor_relay.Ipc.{TargetIpcPort}
use rust_supervisor_relay.Session.{ServerMessage, command_result, push}
use rust_supervisor_relay.Session.Context.{Context, on_world}
use rust_supervisor_relay.Session.Control.{
  refresh_or_report, finish_command, forward_prepared, handle_command, audited,
}
use rust_supervisor_relay.Session.Gate.{handle_command_cases}
use rust_supervisor_relay.Session.Protocol.{is_completed, IsResult, plain, refreshed, unreachable}
use rust_supervisor_relay.Session.Queue.{IsMute, At, Unwritten, called}
use rust_supervisor_relay.Session.QueueRefresh.{Followed, refresh_or_report_queues}

module _ {Value World : Type 0} (wire : World → List String) (b : List String) where
  -- The result of a command waits.
  abbrev pub Answered : Context Value World → Type 0
  Answered c = (messages : List (ServerMessage Value)) × IsResult messages × At wire b messages c

module _ {Value World : Type 0} (wire : World → List String) (b : List String)
    (port : TargetIpcPort Value World) (mute : IsMute port wire) (new_v4 : ℕ → String) where
  abbrev Here : List (ServerMessage Value) → Context Value World → Type 0
  Here = At wire b

  finished :
      (r : ControlCommandResult)
      → is_completed r ≡ true
      → (u : Unit {0}) (c : Context Value World)
      → Followed wire b r.target_id (command_result r.target_id r ∷ []) c
      → Ends
          (λ _. Answered wire b)
          (λ _. Here [])
          (Unwritten wire b)
          (pure {S = Context Value World} r c)
  finished r h u c (inl (payload, s)) = record { so = (_, refreshed r payload h, s) }
  finished r h u c (inr (inl s)) = record { so = (_, plain r, s) }
  finished r h u c (inr (inr s)) = record { so = (_, unreachable r h, s) }

  finish_command_queues :
      (identity : RemoteIdentity) (p : PreparedCommand) (r : ControlCommandResult)
      → (now : OffsetDateTime) (c : Context Value World) → Here [] c
      → Ends
          (λ _. Answered wire b)
          (λ _. Here [])
          (Unwritten wire b)
          (finish_command port new_v4 identity p r now c)
  unfolding finish_command push
  finish_command_queues identity p r now c s =
      let answered : Context Value World = record c {
        session = push (command_result r.target_id r) c.session;
        audit = record_completed new_v4 identity p r.status now c.audit;
      } in
      let told : Here (command_result r.target_id r ∷ []) answered = record {
        queued = ap (λ o. o ++ (command_result r.target_id r ∷ [])) s.queued;
        written = s.written;
      } in
      elim (Bool-cases (is_completed r)) [
        | inl h ↦ rw h (
            Ends->>=
              (λ (u : Unit {0}). Followed wire b r.target_id (command_result r.target_id r ∷ []))
              (refresh_or_report port new_v4 r.target_id now) (λ _. pure r) answered
              (Ends-weaker _
                (refresh_or_report_queues wire b port mute new_v4 r.target_id now _ answered told)
                (λ _ c h. h) (λ e c h. absurd h) (λ c h. h))
              (finished r h))
        | inr h ↦ rw h (record { so = (_, plain r, told) })
      ]

  forward_prepared_queues :
      (r : TargetProcessRegistration) (identity : RemoteIdentity) (p : PreparedCommand)
      → (now : OffsetDateTime) (c : Context Value World) → Here [] c
      → Ends
          (λ _. Answered wire b)
          (λ _. Here [])
          (Unwritten wire b)
          (forward_prepared port new_v4 r identity p now c)
  unfolding forward_prepared
  forward_prepared_queues r identity p now c s =
      let accepted : Context Value World = record c {
        audit = record_accepted new_v4 identity p now c.audit;
      } in
      let rejected =
        λ (e : RelayError). audited (record_rejected new_v4 identity p e.message now) in
      Ends->>= (λ (answer : ControlCommandResult). Here [])
        (inspect_err (on_world (port.forward_command r p now)) rejected)
        (λ answer. finish_command port new_v4 identity p answer now) accepted
        (called wire b (port.forward_command r p now) rejected (mute.forwards r p now) (λ e c. refl)
          (λ e c. refl) [] accepted (record { queued = s.queued; written = s.written }))
        λ answer c s. finish_command_queues identity p answer now c s

  -- A command that succeeds leaves its result in the empty outbox, and one that fails leaves
  -- nothing.
  pub handle_command_queues :
      (command : ClientCommand) (now : OffsetDateTime) (c : Context Value World)
      → Here [] c
      → Ends
          (λ _. Answered wire b)
          (λ _. Here [])
          (Unwritten wire b)
          (handle_command port new_v4 command now c)
  handle_command_queues command now c s = elim (handle_command_cases port new_v4 command now c) [
    | inl (e, q) ↦ rw q (record { so = s })
    | inr (identity, r, a, q) ↦
        rw q (forward_prepared_queues r identity (prepared command identity now) now c s)
  ]

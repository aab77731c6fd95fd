-- ===== src/Main/Answers.antt =====
-- What the loop of `run_dashboard_session` in src/main.rs answers.
use rust_supervisor_relay.Base.{
  ◌≡◌, refl, ◌∙◌, sym, ◌⊎◌, inl, inr, ℕ, Option, none, some, String, List, [], ◌∷◌, ◌++◌,
}
use mathlib.Core.List.{append-nil}
use rust_supervisor_relay.Error.{RelayError, RelayResult, ok, err, panic}
use rust_supervisor_relay.Effect.{M, pure, ◌>>◌}
use rust_supervisor_relay.Effect.Ends.{Ending, Ends, Ends->>=, Ends-weaker}
use rust_supervisor_relay.Command.{ClientCommand}
use rust_supervisor_relay.Ipc.{TargetIpcPort}
use rust_supervisor_relay.Session.{ClientMessage, client_hello, ServerMessage}
use rust_supervisor_relay.Session.Context.{Context, on_world}
use rust_supervisor_relay.Session.Control.{handle_command}
use rust_supervisor_relay.Session.Protocol.{IsAnswer, refused, done, unanswered, late, malformed}
use rust_supervisor_relay.Session.Queue.{IsMute, At, Unwritten}
use rust_supervisor_relay.Session.QueueCommand.{Answered, handle_command_queues}
use rust_supervisor_relay.Main.WebSocket.{Runtime, send_messages}
use rust_supervisor_relay.Main.Dashboard.{
  hello_once, caught, lock, send_outbox, serve_command, serve,
}
use rust_supervisor_relay.Main.Wire.{
  IsWire, frames, IsCut, IsCut-nothing, IsCut-later, on_world_writes, send_outbox_writes,
  lock_writes, now_utc_writes,
}

module _ {Value World : Type 0} (P : Context Value World → Type 0)
    (Q : RelayError → Context Value World → Type 0) where
  -- What holds of a result as a value.
  abbrev pub Caught : Option RelayError → Context Value World → Type 0
  Caught none = P
  Caught (some e) = Q e

  pub caught_ends :
      {A : Type 0} (r : RelayResult A) (c c' : Context Value World)
      → (E : RelayError → Context Value World → Type 0) (Z : Context Value World → Type 0)
      → Ending (λ _. P) Q Z r c
      → Ends Caught E Z (caught (λ _. (r, c)) c')
  caught_ends (ok a) c c' E Z h = record { so = h }
  caught_ends (err e) c c' E Z h = record { so = h }
  caught_ends panic c c' E Z h = record { so = h }

module _ {Value World : Type 0} (runtime : Runtime Value World) (wire : World → List String)
    (b : List String) where
  -- The answer is written and nothing waits.
  abbrev pub IsAnswered : RelayResult ClientMessage → Context Value World → Type 0
  IsAnswered text c =
      (answer : List (ServerMessage Value)) × IsAnswer hello_once text answer
      × At wire (b ++ frames runtime answer) [] c

  -- The session ends within the answer.
  pub record IsBroken (text : RelayResult ClientMessage) (c : Context Value World) : Type 0 where
    pub answer : List (ServerMessage Value)
    pub meant : IsAnswer hello_once text answer ⊎ (answer ≡ [])
    pub cut : IsCut runtime wire b answer c.world

module _ {Value World : Type 0} (runtime : Runtime Value World) (wire : World → List String)
    (true_wire : IsWire runtime wire) (port : TargetIpcPort Value World) (mute : IsMute port wire)
    (decode : String → RelayResult ClientMessage) (new_v4 : ℕ → String) (b : List String) where
  abbrev Serves : ClientCommand → M (Context Value World) (Unit {0}) → Context Value World → Type 0
  Serves command m c =
      Ends (λ _. IsAnswered runtime wire b (ok (ClientMessage.command command)))
        (λ _. IsBroken runtime wire b (ok (ClientMessage.command command)))
        (IsBroken runtime wire b (ok (ClientMessage.command command))) (m c)

  reply :
      (command : ClientCommand) (failed : Option RelayError) (c : Context Value World)
      → Caught (Answered wire b) (λ _. At wire b []) failed c
      → Serves command
          ((elim failed as (λ _. M (Context Value World) (Unit {0})) [
            | none ↦ pure tt
            | some e ↦ on_world (send_messages runtime (ServerMessage.error e ∷ []))
          ])
            >> send_outbox runtime)
          c
  reply command none c (messages, r, s) =
      let meant = done command messages r in
      Ends-weaker _ (send_outbox_writes runtime wire true_wire b messages c s)
        (λ _ c h. (messages, meant, h))
        (λ e c h. record { answer = messages; meant = inl meant; cut = h })
        (λ c h. record { answer = messages; meant = inl meant; cut = h })
  reply command (some e) c s =
      let answer = ServerMessage.error e ∷ [] in
      let meant = refused command e in
      let b' = b ++ frames runtime answer in
      Ends->>= (λ (u : Unit {0}). At wire b' []) (on_world (send_messages runtime answer))
        (λ (u : Unit {0}). send_outbox runtime) c
        (Ends-weaker _ (on_world_writes runtime wire true_wire b [] answer c s) (λ _ c h. h)
          (λ e c h. record { answer = answer; meant = inl meant; cut = h })
          (λ c h. record { answer = answer; meant = inl meant; cut = h }))
        λ u c s.
          Ends-weaker _ (send_outbox_writes runtime wire true_wire b' [] c s)
            (λ _ c h.
              (answer, meant, record { queued = h.queued; written = h.written ∙ append-nil b' }))
            (λ e c h. record {
              answer = answer;
              meant = inl meant;
              cut = IsCut-later runtime wire true_wire b answer [] c.world h;
            })
            (λ c h. record {
              answer = answer;
              meant = inl meant;
              cut = IsCut-later runtime wire true_wire b answer [] c.world h;
            })

  unheard :
      (text : RelayResult ClientMessage) (c : Context Value World)
      → Unwritten wire b c
      → IsBroken runtime wire b text c
  unheard text c h = record {
    answer = [];
    meant = inr refl;
    cut = IsCut-nothing runtime wire true_wire b [] c.world h;
  }

  serve_command_answers :
      (command : ClientCommand) (c : Context Value World)
      → At wire b [] c
      → Serves command (serve_command runtime port decode new_v4 command) c
  unfolding serve_command
  serve_command_answers command c s =
      let locked = (lock runtime c).1 in
      let (now, w) = runtime.now_utc locked.world in
      let timed : Context Value World = record locked { world = w } in
      let ready =
        now_utc_writes runtime wire true_wire b [] locked
          (lock_writes runtime wire true_wire b [] c s) in
      let handled = handle_command port new_v4 command now timed in
      Ends->>= (Caught (Answered wire b) (λ _. At wire b []))
        (caught (handle_command port new_v4 command now))
        (λ failed.
          elim failed [
            | none ↦ pure tt
            | some e ↦ on_world (send_messages runtime (ServerMessage.error e ∷ []))
          ]
          >> send_outbox runtime)
        timed
        (caught_ends (Answered wire b) (λ _. At wire b []) handled.0 handled.1 timed _ _
          (Ends-weaker handled
            (handle_command_queues wire b port mute new_v4 command now timed ready) (λ _ c h. h)
            (λ e c h. h) (unheard (ok (ClientMessage.command command)))).so)
        λ failed c s. reply command failed c s

  said :
      (text : RelayResult ClientMessage) (e : RelayError) (c : Context Value World)
      → IsAnswer {Value = Value} hello_once text (ServerMessage.error e ∷ [])
      → At wire b [] c
      → Ends
          (λ _. IsAnswered runtime wire b text)
          (λ _. IsBroken runtime wire b text)
          (IsBroken runtime wire b text)
          (on_world (send_messages runtime (ServerMessage.error e ∷ [])) c)
  said text e c meant s =
      let answer = ServerMessage.error e ∷ [] in
      Ends-weaker _ (on_world_writes runtime wire true_wire b [] answer c s)
        (λ _ c h. (answer, meant, h))
        (λ e c h. record { answer = answer; meant = inl meant; cut = h })
        (λ c h. record { answer = answer; meant = inl meant; cut = h })

  -- One text is answered, and nothing but the answer is written.
  pub serve_answers :
      (text : RelayResult ClientMessage) (c : Context Value World)
      → At wire b [] c
      → Ends
          (λ _. IsAnswered runtime wire b text)
          (λ _. IsBroken runtime wire b text)
          (IsBroken runtime wire b text)
          (serve runtime port decode new_v4 text c)
  unfolding serve
  serve_answers (ok (ClientMessage.command command)) c s = serve_command_answers command c s
  serve_answers (ok (ClientMessage.log_event_filter_conditions f)) c s = record {
    so = ([], unanswered f, record { queued = s.queued; written = s.written ∙ sym (append-nil b) });
  }
  serve_answers (ok (client_hello hello)) c s =
      said (ok (client_hello hello)) hello_once c (late hello) s
  serve_answers (err e) c s = said (err e) e c (malformed e) s
  serve_answers panic c s = record { so = unheard panic c s.written }

-- ===== src/Main/Ending.antt =====
-- A dashboard connection of src/main.rs ends when its stream does.
use rust_supervisor_relay.Base.{
  ℕ, zero, suc, ◌≢◌, ◌<◌, inl, inr, false, none, some, String, length, arith,
}
use rust_supervisor_relay.Error.{RelayResult, RelayResult-cases, ok}
use rust_supervisor_relay.Effect.Keeps.{Keeps, Avoids, Avoids->>=}
use rust_supervisor_relay.Auth.{RemoteIdentity}
use rust_supervisor_relay.Ipc.{TargetIpcPort}
use rust_supervisor_relay.Session.{ClientMessage, client_hello}
use rust_supervisor_relay.Main.WebSocket.{next_text_message, Runtime}
use rust_supervisor_relay.Main.Dashboard.{
  Task, on_context, send_outbox, serve, serve_loop, open_session, receive_first, after_first,
  start_session, run_dashboard_session,
}
use rust_supervisor_relay.Main.Reading.{
  next_text_message_shrinks, next_text_message_consumes, receive_first-Keeps,
}

module _ {Value World : Type 0} (runtime : Runtime Value World) (port : TargetIpcPort Value World)
    (decode : String → RelayResult ClientMessage) (new_v4 : ℕ → String) where
  serve_loop_ends :
      (fuel : ℕ) (t : Task Value World)
      → length t.incoming < fuel
      → (serve_loop runtime port decode new_v4 fuel t).0 ≢ ok false
  unfolding serve_loop
  serve_loop_ends zero t h q = omega arith
  serve_loop_ends (suc fuel) t h q = elim (RelayResult-cases (next_text_message t.incoming).0) [
    | inr (inl (e, x)) ↦ ground arith
    | inr (inr x) ↦ ground arith
    | inl (none, x) ↦ ground arith
    | inl (some raw, x) ↦
        elim (RelayResult-cases (serve runtime port decode new_v4 (decode raw) t.context).0) [
          | inl (a, y) ↦
              let less = next_text_message_consumes t.incoming raw x in
              let t' : Task Value World = record {
                context = (serve runtime port decode new_v4 (decode raw) t.context).1;
                incoming = (next_text_message t.incoming).1;
              } in
              serve_loop_ends fuel t' (omega arith) (ground arith)
          | inr (inl (e, y)) ↦ ground arith
          | inr (inr y) ↦ ground arith
        ]
  ]

  -- The fuel is more than what arrives.
  abbrev IsFed : ℕ → Task Value World → Type 0
  IsFed fuel t = length t.incoming < fuel

  receive_first-IsFed : (fuel : ℕ) → Keeps (IsFed fuel) (receive_first runtime port decode new_v4)
  receive_first-IsFed fuel =
      receive_first-Keeps runtime port decode new_v4 (IsFed fuel)
        (record { holds = λ t h. omega (arith, next_text_message_shrinks t.incoming) })

  after_first_ends :
      (fuel : ℕ) (first : ClientMessage)
      → Avoids (IsFed fuel) false (after_first runtime port decode new_v4 fuel first)
  unfolding after_first
  after_first_ends fuel (client_hello hello) =
      Avoids->>= (IsFed fuel) false {m = on_context (open_session runtime port hello)}
        {f = λ _. serve_loop runtime port decode new_v4 fuel} (record { holds = λ t h. h })
        λ (u : Unit {0}). record { never = serve_loop_ends fuel }
  after_first_ends fuel (ClientMessage.command _) = record { never = λ t h q. ground arith }
  after_first_ends fuel (ClientMessage.log_event_filter_conditions _) = record {
    never = λ t h q. ground arith;
  }

  module _ (no_conditions : Value) (session_id : String) (identity : RemoteIdentity) where
    -- With more fuel than there are items to come, a connection ends with its stream or with an
    -- error or a panic, never for want of fuel.
    pub run_dashboard_session_ends :
        (fuel : ℕ) (t : Task Value World)
        → length t.incoming < fuel
        → (run_dashboard_session runtime port decode new_v4 no_conditions session_id fuel identity
            t).0
          ≢ ok false
    unfolding run_dashboard_session start_session
    run_dashboard_session_ends fuel t h =
        (Avoids->>= (IsFed fuel) false {m = on_context (send_outbox runtime)}
            (record { holds = λ t h. h })
            λ (u : Unit {0}).
              Avoids->>= (IsFed fuel) false {m = receive_first runtime port decode new_v4}
                (receive_first-IsFed fuel)
                λ (first : ClientMessage). after_first_ends fuel first).never
          _ h

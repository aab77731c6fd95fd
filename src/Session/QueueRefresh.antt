-- ===== src/Session/QueueRefresh.antt =====
-- What the refresh of a target puts into the outbox (src/session.rs).
use rust_supervisor_relay.Base.{
  ◌≡◌, refl, ◌∙◌, ap, ◌⊎◌, ℕ, inl, inr, Bool, true, false, String, List, [], ◌∷◌, ◌++◌, arith,
  Bool-cases, if◌then◌else◌,
}
use rust_supervisor_relay.Error.{RelayError, RelayResult, ok, err, panic}
use rust_supervisor_relay.Effect.{pure, lift, modify, inspect_err, ◌>>=◌}
use rust_supervisor_relay.Effect.Ends.{Ending, Ends, Ends->>=, Ends-weaker}
use rust_supervisor_relay.Time.{OffsetDateTime}
use rust_supervisor_relay.Registry.{TargetProcessRegistration, unavailable, registration}
use rust_supervisor_relay.Registry.Link.{mark_connected}
use rust_supervisor_relay.Ipc.{DashboardState, TargetIpcPort}
use rust_supervisor_relay.Session.{ServerMessage, state, connection_state, push, contains}
use rust_supervisor_relay.Session.Stream.{accept_connection_state}
use rust_supervisor_relay.Session.Context.{Context, on_session, on_registry, on_world, succeeds}
use rust_supervisor_relay.Session.Bind.{give_up}
use rust_supervisor_relay.Session.Control.{refresh_target_state_after_command, refresh_or_report}
use rust_supervisor_relay.Session.Queue.{IsMute, At, Unwritten, called, passed}

-- What holds of a result as a value.
abbrev Either : {S : Type 0} → Bool → (S → Type 0) → (S → Type 0) → S → Type 0
Either true P Q s = P s
Either false P Q s = Q s

module _ {Value World A : Type 0} {P Q Z : Context Value World → Type 0} where
  succeeds_ends :
      (r : RelayResult A) (c c' : Context Value World)
      (E : RelayError → Context Value World → Type 0)
      → Ending (λ _. P) (λ _. Q) Z r c
      → Ends (λ b. Either b P Q) E Z (succeeds (λ _. (r, c)) c')
  succeeds_ends (ok a) c c' E h = record { so = h }
  succeeds_ends (err e) c c' E h = record { so = h }
  succeeds_ends panic c c' E h = record { so = h }

module _ {Value World : Type 0} (wire : World → List String) (b : List String) where
  -- What follows a command that was carried out.
  abbrev pub Followed : String → List (ServerMessage Value) → Context Value World → Type 0
  Followed k messages c =
      ((payload : Value) × At wire b (messages ++ (state k payload ∷ [])) c)
      ⊎ (At wire b messages c ⊎ At wire b (messages ++ (connection_state k unavailable ∷ [])) c)

module _ {Value World : Type 0} (wire : World → List String) (b : List String)
    (port : TargetIpcPort Value World) (mute : IsMute port wire) (new_v4 : ℕ → String) where
  abbrev Here : List (ServerMessage Value) → Context Value World → Type 0
  Here = At wire b

  abbrev Never : RelayError → Context Value World → Type 0
  Never e c = ⊥

  -- A target's new state.
  refresh_queues :
      (k : String) (now : OffsetDateTime)
      → (messages : List (ServerMessage Value)) (c : Context Value World) → Here messages c
      → Ends
          (λ _ c'. (payload : Value) × Here (messages ++ (state k payload ∷ [])) c')
          (λ _. Here messages)
          (Unwritten wire b)
          (refresh_target_state_after_command port new_v4 k now c)
  unfolding refresh_target_state_after_command push
  refresh_queues k now messages c s =
      Ends->>= (λ (r : TargetProcessRegistration). Here messages) (lift (registration k c.registry))
        _ c (passed wire b (lift (registration k c.registry) c) messages s)
        λ r c s.
          Ends->>= (λ (reported : DashboardState Value). Here messages)
            (inspect_err (on_world (port.connect_state r now)) (give_up k now)) _ c
            (called wire b (port.connect_state r now) (give_up k now) (mute.connects r now)
              (λ e c. refl) (λ e c. refl) messages c s)
            λ reported c s.
              let marked = on_registry (mark_connected k reported.state_generation now) in
              let add = λ (c : Context Value World). record c {
                session = push (state k reported.payload) c.session;
              } in
              Ends->>= (λ (u : Unit {0}). Here messages) marked (λ (u : Unit {0}). modify add) c
                (passed wire b (marked c) messages
                  (record { queued = s.queued; written = s.written }))
                λ u c s. record {
                  so = (
                    reported.payload,
                    record {
                      queued = ap (λ q. q ++ (state k reported.payload ∷ [])) s.queued;
                      written = s.written;
                    },
                  );
                }

  -- A refresh that fails is reported of a bound target.
  report_queues :
      (k : String) (messages : List (ServerMessage Value)) (c : Context Value World)
      → Here messages c
      → Ends
          (λ _ c'. Here messages c' ⊎ Here (messages ++ (connection_state k unavailable ∷ [])) c')
          Never
          (Unwritten wire b)
          ((on_session (accept_connection_state k unavailable) >>= λ _. pure tt) c)
  unfolding accept_connection_state push
  report_queues k messages c s =
      let message = connection_state k unavailable in
      elim (Bool-cases (contains c.session.bound_targets k)) [
        | inl e ↦
            let q : accept_connection_state k unavailable c.session ≡ (
              ok (message ∷ []),
              record c.session { outbox = c.session.outbox ++ (message ∷ []) },
            ) =
              ground arith in
            rw (q, ◌>>=◌)
              (record {
                so = inr (record {
                  queued = ap (λ p. p.1.outbox) q ∙ ap (λ o. o ++ (message ∷ [])) s.queued;
                  written = s.written;
                });
              })
        | inr e ↦
            let q : accept_connection_state k unavailable c.session ≡ (ok [], c.session) =
              ground arith in
            rw (q, ◌>>=◌)
              (record {
                so =
                    inl
                      (record { queued = ap (λ p. p.1.outbox) q ∙ s.queued; written = s.written });
              })
      ]

  followed :
      (refreshed : Bool) (k : String) (messages : List (ServerMessage Value))
      → (c : Context Value World)
      → Either refreshed
          (λ c. (payload : Value) × Here (messages ++ (state k payload ∷ [])) c)
          (Here messages)
          c
      → Ends
          (λ _. Followed wire b k messages)
          Never
          (Unwritten wire b)
          ((if refreshed
              then pure tt
              else on_session (accept_connection_state k unavailable) >>= λ _. pure tt)
            c)
  followed true k messages c s = record { so = inl s }
  followed false k messages c s =
      Ends-weaker _ (report_queues k messages c s) (λ _ c h. inr h) (λ e c h. h) (λ c h. h)

  pub refresh_or_report_queues :
      (k : String) (now : OffsetDateTime)
      → (messages : List (ServerMessage Value)) (c : Context Value World) → Here messages c
      → Ends
          (λ _. Followed wire b k messages)
          Never
          (Unwritten wire b)
          (refresh_or_report port new_v4 k now c)
  unfolding refresh_or_report
  refresh_or_report_queues k now messages c s =
      Ends->>=
        (λ (refreshed : Bool).
          Either refreshed (λ c. (payload : Value) × Here (messages ++ (state k payload ∷ [])) c)
            (Here messages))
        (succeeds (refresh_target_state_after_command port new_v4 k now))
        (λ (refreshed : Bool).
          if refreshed
          then pure tt
          else on_session (accept_connection_state k unavailable) >>= λ _. pure tt)
        c
        (let r = refresh_target_state_after_command port new_v4 k now c in
          succeeds_ends r.0 r.1 c Never (refresh_queues k now messages c s).so)
        λ refreshed c s. followed refreshed k messages c s

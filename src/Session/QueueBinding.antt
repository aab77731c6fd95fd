-- ===== src/Session/QueueBinding.antt =====
-- What the binding of a target puts into the outbox (src/session.rs).
use rust_supervisor_relay.Base.{
  refl, ap, ◌⊎◌, inl, inr, String, List, [], ◌∷◌, ◌++◌, Bool-cases, if◌then◌else◌,
}
use rust_supervisor_relay.Effect.{pure, lift, modify, inspect_err}
use rust_supervisor_relay.Effect.Ends.{Ends, Ends->>=}
use rust_supervisor_relay.Time.{OffsetDateTime}
use rust_supervisor_relay.Registry.{TargetProcessRegistration, registration, ensure_target_active}
use rust_supervisor_relay.Registry.Link.{begin_binding, mark_connected}
use rust_supervisor_relay.Ipc.{DashboardState, TargetIpcPort}
use rust_supervisor_relay.Session.{ServerMessage, state, push, contains, ensure_control_established}
use rust_supervisor_relay.Session.Context.{Context, on_registry, on_world}
use rust_supervisor_relay.Session.Bind.{give_up, bound, connect_and_subscribe, bind_target}
use rust_supervisor_relay.Session.Queue.{IsMute, At, Unwritten, called, passed}

module _ {Value World : Type 0} (wire : World → List String) (b : List String) (k : String)
    (messages : List (ServerMessage Value)) where
  -- The state of the target, if it was not bound before.
  abbrev pub Shown : Context Value World → Type 0
  Shown c =
      At wire b messages c ⊎ ((payload : Value) × At wire b (messages ++ (state k payload ∷ [])) c)

module _ {Value World : Type 0} (wire : World → List String) (b : List String)
    (port : TargetIpcPort Value World) (mute : IsMute port wire) (k : String) (now : OffsetDateTime)
    (messages : List (ServerMessage Value)) where
  connect_and_subscribe_queues :
      (r : TargetProcessRegistration) (c : Context Value World)
      → At wire b messages c
      → Ends
          (λ _. Shown wire b k messages)
          (λ _. At wire b messages)
          (Unwritten wire b)
          (connect_and_subscribe port k r now c)
  unfolding connect_and_subscribe push
  connect_and_subscribe_queues r c s =
      let Same = At wire b messages in
      let begin = on_registry (begin_binding k now) in
      Ends->>= (λ (u : Unit {0}). Same) begin _ c
        (passed wire b (begin c) messages (record { queued = s.queued; written = s.written }))
        λ u c s.
          Ends->>= (λ (reported : DashboardState Value). Same)
            (inspect_err (on_world (port.connect_state r now)) (give_up k now)) _ c
            (called wire b (port.connect_state r now) (give_up k now) (mute.connects r now)
              (λ e c. refl) (λ e c. refl) messages c s)
            λ reported c s.
              let mark = on_registry (mark_connected k reported.state_generation now) in
              Ends->>= (λ (u : Unit {0}). Same) mark _ c
                (passed wire b (mark c) messages
                  (record { queued = s.queued; written = s.written }))
                λ u c s.
                  Ends->>= (λ (u : Unit {0}). Same)
                    (inspect_err (on_world (port.subscribe_event_log r now)) (give_up k now))
                    (λ (u : Unit {0}).
                      modify (λ c. record c { session = bound k reported.payload now c.session }))
                    c
                    (called wire b (port.subscribe_event_log r now) (give_up k now)
                      (mute.subscribes r now) (λ e c. refl) (λ e c. refl) messages c s)
                    λ u c s. record {
                      so = inr (
                        reported.payload,
                        record {
                          queued = ap (λ o. o ++ (state k reported.payload ∷ [])) s.queued;
                          written = s.written;
                        },
                      );
                    }

  -- The part behind the checks of `bind_target`.
  bind_new_queues :
      (targets : List String) (r : TargetProcessRegistration) (c : Context Value World)
      → At wire b messages c
      → Ends
          (λ _. Shown wire b k messages)
          (λ _. At wire b messages)
          (Unwritten wire b)
          ((if contains targets k then pure tt else connect_and_subscribe port k r now) c)
  bind_new_queues targets r c s = elim (Bool-cases (contains targets k)) [
    | inl e ↦ rw e (record { so = inl s })
    | inr e ↦ rw e (connect_and_subscribe_queues r c s)
  ]

  -- A binding that fails leaves the outbox as it is.
  pub bind_target_queues :
      (c : Context Value World)
      → At wire b messages c
      → Ends
          (λ _. Shown wire b k messages)
          (λ _. At wire b messages)
          (Unwritten wire b)
          (bind_target port k now c)
  unfolding bind_target
  bind_target_queues c s =
      let Same = At wire b messages in
      Ends->>= (λ (u : Unit {0}). Same) (lift (ensure_control_established c.session)) _ c
        (passed wire b (lift (ensure_control_established c.session) c) messages s)
        λ u c' s.
          Ends->>= (λ (u : Unit {0}). Same) (lift (ensure_target_active k now c'.registry)) _ c'
            (passed wire b (lift (ensure_target_active k now c'.registry) c') messages s)
            λ u c'' s.
              Ends->>= (λ (r : TargetProcessRegistration). Same) (lift (registration k c'.registry))
                (λ r.
                  if contains c.session.bound_targets k
                  then pure tt
                  else connect_and_subscribe port k r now)
                c'' (passed wire b (lift (registration k c'.registry) c'') messages s)
                λ r c s'. bind_new_queues _ r c s'

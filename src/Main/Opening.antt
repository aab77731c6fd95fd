-- ===== src/Main/Opening.antt =====
-- What a dashboard connection of src/main.rs says when it opens: the targets, and the states of those
-- that it binds.
use rust_supervisor_relay.Base.{
  ◌≡◌, refl, ◌∙◌, ap, ◌⊎◌, inl, inr, Option, none, some, String, List, [], ◌∷◌, ◌++◌, map, arith,
}
use rust_supervisor_relay.Error.{RelayError}
use rust_supervisor_relay.Effect.{pure}
use rust_supervisor_relay.Effect.Ends.{Ends, Ends->>=, Ends-weaker}
use rust_supervisor_relay.Time.{OffsetDateTime}
use rust_supervisor_relay.Registry.{VisibleTarget, active_targets}
use rust_supervisor_relay.Ipc.{TargetIpcPort}
use rust_supervisor_relay.Session.{ClientHello, ServerMessage, DashboardSession, target_list, push}
use rust_supervisor_relay.Session.Handshake.{accept_client_hello, publish_target_list}
use rust_supervisor_relay.Session.Context.{Context, on_session}
use rust_supervisor_relay.Session.Bind.{bind_target}
use rust_supervisor_relay.Session.Protocol.{AreStates, no_state, one_state}
use rust_supervisor_relay.Session.Queue.{IsMute, At, Unwritten, passed}
use rust_supervisor_relay.Session.QueueBinding.{Shown, bind_target_queues}
use rust_supervisor_relay.Main.WebSocket.{Runtime}
use rust_supervisor_relay.Main.Dashboard.{
  caught, lock, send_outbox, auto_bind, auto_bind_all, auto_bind_active_targets, open_session,
}
use rust_supervisor_relay.Main.Wire.{
  IsWire, frames, IsCut, IsCut-nothing, send_outbox_writes, lock_writes, now_utc_writes,
}
use rust_supervisor_relay.Main.Answers.{Caught, caught_ends}

-- The targets, and then the states of those that are bound.
pub data IsOpening {Value : Type 0} : List (ServerMessage Value) → Type 0 where
  opening :
      {states : List (ServerMessage Value)} (targets : List VisibleTarget)
      → AreStates states
      → IsOpening (target_list targets ∷ states)

module _ {Value World : Type 0} (runtime : Runtime Value World) (wire : World → List String)
    (b : List String) where
  -- The opening is written and nothing waits.
  abbrev pub IsOpened : Context Value World → Type 0
  IsOpened c =
      (messages : List (ServerMessage Value)) × IsOpening messages
      × At wire (b ++ frames runtime messages) [] c

  -- The session ends within the opening.
  pub record IsUnopened (c : Context Value World) : Type 0 where
    pub messages : List (ServerMessage Value)
    pub meant : IsOpening messages ⊎ (messages ≡ [])
    pub cut : IsCut runtime wire b messages c.world

module _ {Value World : Type 0} (runtime : Runtime Value World) (wire : World → List String)
    (true_wire : IsWire runtime wire) (port : TargetIpcPort Value World) (mute : IsMute port wire)
    (b : List String) where
  -- An opening waits.
  abbrev Waits : Context Value World → Type 0
  Waits c = (messages : List (ServerMessage Value)) × IsOpening messages × At wire b messages c

  Shown-Waits :
      (k : String) (now : OffsetDateTime) (messages : List (ServerMessage Value))
      → IsOpening messages
      → (dropped : Option RelayError) (c : Context Value World)
      → Caught (Shown wire b k messages) (λ _. At wire b messages) dropped c
      → Waits c
  Shown-Waits k now messages o none c (inl s) = (messages, o, s)
  Shown-Waits k now messages (opening {states} targets a) none c (inr (payload, s)) =
      (_, opening targets (one_state k payload a), s)
  Shown-Waits k now messages o (some e) c s = (messages, o, s)

  auto_bind-Waits :
      (k : String) (c : Context Value World)
      → Waits c
      → Ends (λ _. Waits) (λ _. Waits) (Unwritten wire b) (auto_bind runtime port k c)
  unfolding auto_bind
  auto_bind-Waits k c (messages, o, s) =
      let locked = (lock runtime c).1 in
      let (now, w) = runtime.now_utc locked.world in
      let timed : Context Value World = record locked { world = w } in
      let ready =
        now_utc_writes runtime wire true_wire b messages locked
          (lock_writes runtime wire true_wire b messages c s) in
      let r = bind_target port k now timed in
      Ends->>= (Caught (Shown wire b k messages) (λ _. At wire b messages))
        (caught (bind_target port k now)) (λ dropped. pure tt) timed
        (caught_ends (Shown wire b k messages) (λ _. At wire b messages) r.0 r.1 timed _ _
          (bind_target_queues wire b port mute k now messages timed ready).so)
        λ dropped c s. record { so = Shown-Waits k now messages o dropped c s }

  auto_bind_all-Waits :
      (ks : List String) (c : Context Value World)
      → Waits c
      → Ends (λ _. Waits) (λ _. Waits) (Unwritten wire b) (auto_bind_all runtime port ks c)
  unfolding auto_bind_all
  auto_bind_all-Waits [] c h = record { so = h }
  auto_bind_all-Waits (k ∷ ks) c h =
      Ends->>= (λ (u : Unit {0}). Waits) (auto_bind runtime port k)
        (λ (u : Unit {0}). auto_bind_all runtime port ks) c (auto_bind-Waits k c h)
        λ u c h. auto_bind_all-Waits ks c h

  auto_bind_active_targets-Waits :
      (c : Context Value World)
      → Waits c
      → Ends (λ _. Waits) (λ _. Waits) (Unwritten wire b) (auto_bind_active_targets runtime port c)
  unfolding auto_bind_active_targets
  auto_bind_active_targets-Waits c (messages, o, s) =
      let locked = (lock runtime c).1 in
      let (now, w) = runtime.now_utc locked.world in
      auto_bind_all-Waits (map (λ target. target.target_id) (active_targets now locked.registry))
        (record locked { world = w })
        (
          messages,
          o,
          now_utc_writes runtime wire true_wire b messages locked
              (lock_writes runtime wire true_wire b messages c s),
        )

  unheard : (c : Context Value World) → Unwritten wire b c → IsUnopened runtime wire b c
  unheard c h = record {
    messages = [];
    meant = inr refl;
    cut = IsCut-nothing runtime wire true_wire b [] c.world h;
  }

  opening_writes :
      (c : Context Value World)
      → Waits c
      → Ends
          (λ _. IsOpened runtime wire b)
          (λ _. IsUnopened runtime wire b)
          (IsUnopened runtime wire b)
          (send_outbox runtime c)
  opening_writes c (messages, o, s) =
      Ends-weaker _ (send_outbox_writes runtime wire true_wire b messages c s)
        (λ _ c h. (messages, o, h))
        (λ e c h. record { messages = messages; meant = inl o; cut = h })
        (λ c h. record { messages = messages; meant = inl o; cut = h })

  accept_client_hello_outbox :
      (hello : ClientHello) (now : OffsetDateTime) (s : DashboardSession Value)
      → (accept_client_hello hello now s).1.outbox ≡ s.outbox
  unfolding accept_client_hello
  accept_client_hello_outbox hello now s = ground arith

  accept_client_hello_waits :
      (hello : ClientHello) (now : OffsetDateTime) (c : Context Value World)
      → At wire b [] c
      → Ends
          (λ _. At wire b [])
          (λ _. At wire b [])
          (Unwritten wire b)
          (on_session (accept_client_hello hello now) c)
  accept_client_hello_waits hello now c s =
      passed wire b (on_session (accept_client_hello hello now) c) [] (record {
        queued = accept_client_hello_outbox hello now c.session ∙ s.queued;
        written = s.written;
      })

  -- The opening is said, and nothing else.
  pub open_session_opens :
      (hello : ClientHello) (c : Context Value World)
      → At wire b [] c
      → Ends
          (λ _. IsOpened runtime wire b)
          (λ _. IsUnopened runtime wire b)
          (IsUnopened runtime wire b)
          (open_session runtime port hello c)
  unfolding open_session publish_target_list push
  open_session_opens hello c s =
      let (greeted, w) = runtime.now_utc c.world in
      let timed : Context Value World = record c { world = w } in
      Ends->>= (λ (u : Unit {0}). At wire b []) (on_session (accept_client_hello hello greeted)) _
        timed
        (Ends-weaker _
          (accept_client_hello_waits hello greeted timed
            (now_utc_writes runtime wire true_wire b [] c s))
          (λ _ c s. s) (λ e c s. unheard c s.written) unheard)
        λ u c s.
          let locked = (lock runtime c).1 in
          let (now, w) = runtime.now_utc locked.world in
          let targets = active_targets now locked.registry in
          let ready =
            now_utc_writes runtime wire true_wire b [] locked
              (lock_writes runtime wire true_wire b [] c s) in
          let published : Context Value World = record locked {
            world = w;
            session = publish_target_list targets locked.session;
          } in
          Ends->>= (λ (u : Unit {0}). Waits) (auto_bind_active_targets runtime port)
            (λ (u : Unit {0}). send_outbox runtime) published
            (Ends-weaker _
              (auto_bind_active_targets-Waits published (
                target_list targets ∷ [],
                opening targets no_state,
                record {
                  queued = ap (λ o. o ++ (target_list targets ∷ [])) ready.queued;
                  written = ready.written;
                },
              ))
              (λ _ c h. h) (λ e c (messages, o, s). unheard c s.written) unheard)
            λ u c h. opening_writes c h

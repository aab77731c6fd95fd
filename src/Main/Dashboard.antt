-- ===== src/Main/Dashboard.antt =====
-- A dashboard connection of src/main.rs from the first message to the last: `run_dashboard_session`
-- and `auto_bind_active_targets`.
use rust_supervisor_relay.Base.{
  ℕ, zero, suc, Bool, true, false, Option, none, some, String, List, [], ◌∷◌, map,
}
use rust_supervisor_relay.Error.{RelayError, RelayResult, ok, err, panic, new, ok_or}
use rust_supervisor_relay.Effect.{M, pure, lift, gets, modify, ◌>>=◌, ◌>>◌}
use rust_supervisor_relay.Time.{OffsetDateTime}
use rust_supervisor_relay.Auth.{RemoteIdentity}
use rust_supervisor_relay.Command.{ClientCommand}
use rust_supervisor_relay.Registry.{active_targets}
use rust_supervisor_relay.Ipc.{TargetIpcPort}
use rust_supervisor_relay.Session.{
  ClientMessage, client_hello, ClientHello, ServerMessage, drain_outbox,
}
use rust_supervisor_relay.Session.Handshake.{greet, accept_client_hello, publish_target_list}
use rust_supervisor_relay.Session.Context.{Context, on_session, on_world}
use rust_supervisor_relay.Session.Bind.{bind_target}
use rust_supervisor_relay.Session.Control.{handle_command}
use rust_supervisor_relay.Main.WebSocket.{
  Incoming, next_text_message, Runtime, send_messages, send_error_and_close,
}

-- The task of one connection: what its session works on, and what still arrives.
pub record Task (Value World : Type 0) : Type 0 where
  pub context : Context Value World
  pub incoming : Incoming

abbrev pub hello_required : RelayError
hello_required =
    new "protocol_error" "session" none "client_hello is required before business messages" false

abbrev pub hello_first : RelayError
hello_first =
    new "protocol_error" "session" none "client_hello must be the first client message" false

abbrev pub hello_once : RelayError
hello_once =
    new "protocol_error" "session" none "client_hello is only valid as the first client message"
      false

module _ {Value World A : Type 0} where
  abbrev pub on_context : M (Context Value World) A → M (Task Value World) A
  on_context m t = let (r, c) = m t.context in (r, record t { context = c })

  abbrev pub on_incoming : M Incoming A → M (Task Value World) A
  on_incoming m t = let (r, items) = m t.incoming in (r, record t { incoming = items })

  -- The result of a step as a value; a panic goes on.
  abbrev pub caught : M (Context Value World) A → M (Context Value World) (Option RelayError)
  caught m c =
      let (r, c') = m c in
      elim r [ ok _ ↦ (ok none, c') | err e ↦ (ok (some e), c') | panic ↦ (panic, c') ]

module _ {Value World : Type 0} (runtime : Runtime Value World) where
  -- `registry.lock().await`: the other tasks have run.
  abbrev pub lock : M (Context Value World) (Unit {0})
  lock c =
      let (g, w) = runtime.others c.registry c.world in
      (ok tt, record c { registry = g; world = w })

  abbrev pub now_utc : M (Context Value World) OffsetDateTime
  now_utc c = let (now, w) = runtime.now_utc c.world in (ok now, record c { world = w })

  abbrev pub drain : M (Context Value World) (List (ServerMessage Value))
  drain c = let (messages, s) = drain_outbox c.session in (ok messages, record c { session = s })

  -- `send_messages(&mut sink, session.drain_outbox())`
  unfoldable pub send_outbox : M (Context Value World) (Unit {0})
  unfolding drain_outbox
  send_outbox = do messages ← drain; on_world (send_messages runtime messages)

  -- The new session and its empty audit trail.
  unfoldable pub start_session :
      Value → String → RemoteIdentity → M (Context Value World) (Unit {0})
  start_session no_conditions session_id identity = do
    now ← now_utc
    modify (λ c. record c {
      session = greet no_conditions session_id identity now;
      audit = record { events = [] };
    })

  module _ (port : TargetIpcPort Value World) where
    -- One round of the loop of `auto_bind_active_targets`; the result of the binding is dropped.
    unfoldable pub auto_bind : String → M (Context Value World) (Unit {0})
    auto_bind target_id = do
      lock
      now ← now_utc
      dropped ← caught (bind_target port target_id now)
      pure tt

    unfoldable pub auto_bind_all : List String → M (Context Value World) (Unit {0})
    unfolding auto_bind
    auto_bind_all [] = pure tt
    auto_bind_all (target_id ∷ target_ids) = auto_bind target_id >> auto_bind_all target_ids

    unfoldable pub auto_bind_active_targets : M (Context Value World) (Unit {0})
    unfolding auto_bind_all
    auto_bind_active_targets = do
      lock
      now ← now_utc
      registry ← gets (λ c. c.registry)
      auto_bind_all (map (λ target. target.target_id) (active_targets now registry))

    -- What follows an accepted first message.
    unfoldable pub open_session : ClientHello → M (Context Value World) (Unit {0})
    unfolding auto_bind_active_targets send_outbox
    open_session hello = do
      greeted ← now_utc
      on_session (accept_client_hello hello greeted)
      lock
      now ← now_utc
      registry ← gets (λ c. c.registry)
      modify
          (λ c. record c { session = publish_target_list (active_targets now registry) c.session })
      auto_bind_active_targets
      send_outbox

    -- The loop over messages, with their decoder and `Uuid::new_v4`.
    module _ (decode : String → RelayResult ClientMessage) (new_v4 : ℕ → String) where
      -- The arm for a command.
      unfoldable pub serve_command : ClientCommand → M (Context Value World) (Unit {0})
      unfolding send_outbox
      serve_command command = do
        lock
        now ← now_utc
        failed ← caught (handle_command port new_v4 command now)
        elim failed [
          | none ↦ pure tt
          | some e ↦ on_world (send_messages runtime (ServerMessage.error e ∷ []))
        ]
        send_outbox

      -- One round of the loop over the messages behind the first.
      unfoldable pub serve : RelayResult ClientMessage → M (Context Value World) (Unit {0})
      unfolding serve_command
      serve (ok (ClientMessage.command command)) = serve_command command
      serve (ok (ClientMessage.log_event_filter_conditions _)) = pure tt
      serve (ok (client_hello _)) =
          on_world (send_messages runtime (ServerMessage.error hello_once ∷ []))
      serve (err e) = on_world (send_messages runtime (ServerMessage.error e ∷ []))
      serve panic = lift panic

      -- The loop, on fuel: whether it came to the end of the stream.
      unfoldable pub serve_loop : ℕ → M (Task Value World) Bool
      unfolding serve
      serve_loop zero t = (ok false, t)
      serve_loop (suc fuel) t =
          let (r, t') = on_incoming next_text_message t in
          elim r [
            | err e ↦ (err e, t')
            | panic ↦ (panic, t')
            | ok none ↦ (ok true, t')
            | ok (some raw) ↦
                let (served, c) = serve (decode raw) t'.context in
                elim served [
                  | err e ↦ (err e, record t' { context = c })
                  | panic ↦ (panic, record t' { context = c })
                  | ok _ ↦ serve_loop fuel (record t' { context = c })
                ]
          ]

      -- The first message.
      unfoldable pub receive_first : M (Task Value World) ClientMessage
      receive_first = do
        received ← on_incoming next_text_message
        raw ← lift (ok_or received hello_required)
        lift (decode raw)

      -- What follows the first message.
      unfoldable pub after_first : ℕ → ClientMessage → M (Task Value World) Bool
      unfolding open_session serve_loop
      after_first fuel (client_hello hello) = on_context (open_session hello) >> serve_loop fuel
      after_first fuel _ =
          on_context (on_world (send_error_and_close runtime hello_first)) >> pure true

      -- A whole session, with its id and the value `{}`.
      module _ (no_conditions : Value) (session_id : String) where
        -- `run_dashboard_session`
        unfoldable pub run_dashboard_session : ℕ → RemoteIdentity → M (Task Value World) Bool
        unfolding after_first send_outbox start_session receive_first
        run_dashboard_session fuel identity = do
          on_context (start_session no_conditions session_id identity)
          on_context send_outbox
          first ← receive_first
          after_first fuel first

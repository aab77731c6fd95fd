-- ===== src/Tests/Conversation.antt =====
-- A dashboard connection over a web socket that keeps its frames.
use rust_supervisor_relay.Base.{
  ◌≡◌, ◌≢◌, refl, inr, true, String, List, [], ◌∷◌, ◌++◌, arith, is_empty, trim, lookup, modify,
}
use rust_supervisor_relay.Error.{ok, panic}
use rust_supervisor_relay.Ipc.{TargetIpcPort}
use rust_supervisor_relay.Session.{
  ServerMessage, server_hello, target_list, state, event, log, state_delta, dropped_count,
  command_result, connection_state, error, ensure_control_established, contains, drain_outbox, push,
  bind,
}
use rust_supervisor_relay.Command.{prepare_client_command, wire_name, requires_confirmation}
use rust_supervisor_relay.Registry.{
  active_targets, ensure_target_active, ensure_command_supported, registration,
}
use rust_supervisor_relay.Registry.Link.{begin_binding, mark_connected}
use rust_supervisor_relay.Session.Handshake.{greet, accept_client_hello, publish_target_list}
use rust_supervisor_relay.Session.Bind.{bind_target, connect_and_subscribe}
use rust_supervisor_relay.Session.Control.{handle_command}
use rust_supervisor_relay.Session.Queue.{IsMute}
use rust_supervisor_relay.Session.Steady.{IsSteady}
use rust_supervisor_relay.Main.WebSocket.{
  text, ping, Incoming, Runtime, next_text_message, send_messages,
}
use rust_supervisor_relay.Main.Dashboard.{Task, run_dashboard_session}
use rust_supervisor_relay.Main.Wire.{IsWire}
use rust_supervisor_relay.Main.Received.{received}
use rust_supervisor_relay.Main.Steady.{IsOpen, closes}
use rust_supervisor_relay.Main.Conversation.{IsSaid, IsAllSaid}
use rust_supervisor_relay.Main.Conversed.{greeting, run_dashboard_session-IsSaid}
use rust_supervisor_relay.Main.Heard.{IsPolite, run_dashboard_session-IsHeard}
use rust_supervisor_relay.Tests.Data.{registry, identity, session, reported, answer, new_v4}
use rust_supervisor_relay.Tests.Dashboard.{hello, decode}

abbrev Wire : Type 0
Wire = List String

-- The kind of a message.
abbrev kind : ServerMessage String → String
kind (server_hello _ _ _ _ _) = "server_hello"
kind (target_list _) = "target_list"
kind (state _ _) = "state"
kind (event _ _) = "event"
kind (log _ _) = "log"
kind (state_delta _ _) = "state_delta"
kind (dropped_count _ _) = "dropped_count"
kind (command_result _ _) = "command_result"
kind (connection_state _ _) = "connection_state"
kind (error _) = "error"

abbrev talking : Runtime String Wire
talking = record {
  now_utc = λ w. (1, w);
  to_string = λ message. inr (kind message);
  send = λ t w. (inr tt, w ++ (t ∷ []));
  others = λ g w. (g, w);
}

abbrev quiet : TargetIpcPort String Wire
quiet = record {
  connect_state = λ _ _ w. (ok reported, w);
  subscribe_event_log = λ _ _ w. (ok tt, w);
  forward_command = λ _ _ _ w. (ok answer, w);
}

talking-IsWire : IsWire talking (λ w. w)
talking-IsWire = record {
  sends = λ t w e. refl;
  fails = λ t error w e. absurd (ground arith);
  reads_time = λ w. refl;
  runs = λ g w. refl;
}

quiet-IsMute : IsMute quiet (λ w. w)
quiet-IsMute = record {
  connects = λ r now w. refl;
  subscribes = λ r now w. refl;
  forwards = λ r p now w. refl;
}

-- A hello, a command, a text that does not decode, and the hello again.
abbrev chatty : Incoming
chatty =
    inr (text (inr "hello"))
    ∷ inr ping
    ∷ inr (text (inr "command"))
    ∷ inr (text (inr "noise"))
    ∷ inr (text (inr "hello"))
    ∷ []

abbrev chat : Task String Wire
chat = record {
  context = record {
    session = session;
    registry = registry;
    audit = record { events = [] };
    world = [];
  };
  incoming = chatty;
}

chat_frames :
    (run_dashboard_session talking quiet decode new_v4 "{}" "s" 5 identity chat).1.context.world
    ≡ "server_hello" ∷ "target_list" ∷ "state" ∷ "command_result" ∷ "state" ∷ "error" ∷ "error" ∷ []
unfolding run_dashboard_session send_messages greet next_text_message accept_client_hello is_empty
    trim active_targets bind_target ensure_control_established publish_target_list
    ensure_target_active lookup contains connect_and_subscribe begin_binding mark_connected modify
    handle_command prepare_client_command ensure_command_supported drain_outbox push bind
    registration wire_name requires_confirmation
chat_frames = refl

said_example :
    IsSaid talking
      (λ w. w)
      decode
      (greeting "{}" "s" identity)
      []
      (received chatty)
      (run_dashboard_session talking quiet decode new_v4 "{}" "s" 5 identity chat).1.context.world
said_example =
    run_dashboard_session-IsSaid talking (λ w. w) talking-IsWire quiet quiet-IsMute decode new_v4
      "{}" "s" identity 5 chat

talking-IsOpen : IsOpen talking
talking-IsOpen = record { encodes = λ message. (kind message, refl); sends = λ t w. refl }

quiet-IsSteady : IsSteady quiet
quiet-IsSteady = record {
  connects = λ r now. record { never = λ w q. ground arith };
  subscribes = λ r now. record { never = λ w q. ground arith };
  forwards = λ r p now. record { never = λ w q. ground arith };
}

chatty-IsPolite : IsPolite decode chatty
unfolding next_text_message is_empty trim closes
chatty-IsPolite = record {
  raw = "hello";
  hello = hello;
  first = refl;
  greets = refl;
  named = refl;
  ends = refl;
}

decode-ne-panic : (raw : String) → decode raw ≢ panic
decode-ne-panic raw q = ground arith

heard_example :
    let (result, after) =
      run_dashboard_session talking quiet decode new_v4 "{}" "s" 5 identity chat in
    (result ≡ ok true)
    × IsAllSaid talking
        (λ w. w)
        decode
        (greeting "{}" "s" identity)
        []
        (received chatty)
        after.context.world
heard_example =
    run_dashboard_session-IsHeard talking talking-IsOpen quiet quiet-IsSteady decode new_v4 "{}" "s"
      identity (λ w. w) talking-IsWire quiet-IsMute 5 chat chatty-IsPolite decode-ne-panic
      (omega arith)

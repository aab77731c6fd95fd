-- ===== src/Main/WebSocket.antt =====
-- The web socket of a dashboard connection in src/main.rs. What arrives is an explicit list, and its
-- end is the end of the stream; encoding and sending are parameters.
use rust_supervisor_relay.Base.{
  ◌⊎◌, inl, inr, true, false, Option, none, some, String, ◌<>◌, List, [], ◌∷◌,
}
use rust_supervisor_relay.Error.{RelayError, RelayResult, ok, err, new}
use rust_supervisor_relay.Effect.{M, pure, ◌>>◌}
use rust_supervisor_relay.Time.{OffsetDateTime}
use rust_supervisor_relay.Registry.{TargetProcessRegistry}
use rust_supervisor_relay.Session.{ServerMessage}

-- `tungstenite::Message`, with what its conversion to text gives: on the left the text of an error.
pub data Message : Type 0 where
  text binary : String ⊎ String → Message
  ping pong frame close : Message

-- One item of the stream: the text of an error, or a message.
abbrev pub Incoming : Type 0
Incoming = List (String ⊎ Message)

abbrev websocket_read_failed : String → RelayError
websocket_read_failed error =
    new "websocket_read_failed" "session" none ("websocket message could not be read: " <> error)
      true

abbrev invalid_message_text : String → RelayError
invalid_message_text error =
    new "invalid_message_text" "session" none
      ("websocket text message could not be read: " <> error) false

abbrev invalid_message_binary : String → RelayError
invalid_message_binary error =
    new "invalid_message_binary" "session" none
      ("websocket binary message was not UTF-8: " <> error) false

abbrev converted : (String → RelayError) → String ⊎ String → RelayResult (Option String)
converted failure (inl error) = err (failure error)
converted failure (inr t) = ok (some t)

-- `next_text_message`
unfoldable pub next_text_message : M Incoming (Option String)
next_text_message [] = (ok none, [])
next_text_message (inl error ∷ items) = (err (websocket_read_failed error), items)
next_text_message (inr close ∷ items) = (ok none, items)
next_text_message (inr (text t) ∷ items) = (converted invalid_message_text t, items)
next_text_message (inr (binary t) ∷ items) = (converted invalid_message_binary t, items)
next_text_message (inr ping ∷ items) = next_text_message items
next_text_message (inr pong ∷ items) = next_text_message items
next_text_message (inr frame ∷ items) = next_text_message items

-- What a connection uses of the system around it, on the system's state: the clock, the sink of the
-- web socket, and what the other tasks have done to the registry by the time its lock is taken.
pub record Runtime (Value World : Type 0) : Type 0 where
  pub now_utc : World → OffsetDateTime × World
  pub to_string : ServerMessage Value → String ⊎ String
  pub send : String → World → (String ⊎ Unit {0}) × World
  pub others : TargetProcessRegistry → World → TargetProcessRegistry × World

abbrev server_message_encode_failed : String → RelayError
server_message_encode_failed error =
    new "server_message_encode_failed" "session" none
      ("server message could not be encoded: " <> error) false

abbrev websocket_write_failed : String → RelayError
websocket_write_failed error =
    new "websocket_write_failed" "session" none
      ("websocket message could not be written: " <> error) true

module _ {Value World : Type 0} (runtime : Runtime Value World) where
  -- One round of the loop of `send_messages`.
  unfoldable pub send_message : ServerMessage Value → M World (Unit {0})
  send_message message w = elim (runtime.to_string message) [
    | inl error ↦ (err (server_message_encode_failed error), w)
    | inr t ↦
        let (sent, w') = runtime.send t w in
        elim sent [ inl error ↦ (err (websocket_write_failed error), w') | inr _ ↦ (ok tt, w') ]
  ]

  unfoldable pub send_messages : List (ServerMessage Value) → M World (Unit {0})
  unfolding send_message
  send_messages [] = pure tt
  send_messages (message ∷ messages) = send_message message >> send_messages messages

  -- Which sends, and leaves the closing to the drop of the stream.
  unfoldable pub send_error_and_close : RelayError → M World (Unit {0})
  unfolding send_messages
  send_error_and_close e = send_messages (ServerMessage.error e ∷ [])

-- ===== src/Session/Protocol.antt =====
-- The protocol between the relay and a dashboard, as an order of messages: what the messages of
-- src/session.rs and the loop of src/main.rs mean to say, apart from how they are produced.
use rust_supervisor_relay.Base.{◌≡◌, Bool, true, ◌&&◌, String, List, [], ◌∷◌, ◌++◌, ◌==◌}
use rust_supervisor_relay.Error.{RelayError, RelayResult, ok, err}
use rust_supervisor_relay.Command.{ClientCommand, ControlCommandResult}
use rust_supervisor_relay.Registry.{unavailable}
use rust_supervisor_relay.Session.{
  ClientMessage, client_hello, command, log_event_filter_conditions, ClientHello,
  LogEventFilterConditionsMessage, ServerMessage, state, command_result, connection_state, error,
}

-- The target carried the command out.
abbrev pub is_completed : ControlCommandResult → Bool
is_completed result = result.accepted && result.status == "completed"

-- The result of a command, and what it says of the target that it names: its new state, or that it
-- is unavailable.
pub data IsResult {Value : Type 0} : List (ServerMessage Value) → Type 0 where
  plain : (r : ControlCommandResult) → IsResult (command_result r.target_id r ∷ [])
  refreshed :
      (r : ControlCommandResult) (payload : Value)
      → is_completed r ≡ true
      → IsResult (command_result r.target_id r ∷ state r.target_id payload ∷ [])
  unreachable :
      (r : ControlCommandResult)
      → is_completed r ≡ true
      → IsResult (command_result r.target_id r ∷ connection_state r.target_id unavailable ∷ [])

-- The answer to one text behind the client's hello, by what the text decodes to.
pub data IsAnswer {Value : Type 0} (once : RelayError)
    : RelayResult ClientMessage → List (ServerMessage Value) → Type 0 where
  refused : (c : ClientCommand) (e : RelayError) → IsAnswer once (ok (command c)) (error e ∷ [])
  done :
      (c : ClientCommand) (messages : List (ServerMessage Value))
      → IsResult messages
      → IsAnswer once (ok (command c)) messages
  unanswered :
      (f : LogEventFilterConditionsMessage) → IsAnswer once (ok (log_event_filter_conditions f)) []
  late : (hello : ClientHello) → IsAnswer once (ok (client_hello hello)) (error once ∷ [])
  malformed : (e : RelayError) → IsAnswer once (err e) (error e ∷ [])

-- Every text is answered before the next.
pub data AreAnswers {Value : Type 0} (once : RelayError)
    : List (RelayResult ClientMessage) → List (ServerMessage Value) → Type 0 where
  none_left : AreAnswers once [] []
  one_more :
      {text : RelayResult ClientMessage} {texts : List (RelayResult ClientMessage)}
      → {answer answers : List (ServerMessage Value)} → IsAnswer once text answer
      → AreAnswers once texts answers
      → AreAnswers once (text ∷ texts) (answer ++ answers)

-- The states of the targets that were bound.
pub data AreStates {Value : Type 0} : List (ServerMessage Value) → Type 0 where
  no_state : AreStates []
  one_state :
      {messages : List (ServerMessage Value)} (target_id : String) (payload : Value)
      → AreStates messages
      → AreStates (messages ++ (state target_id payload ∷ []))

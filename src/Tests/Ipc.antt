-- ===== src/Tests/Ipc.antt =====
-- Runs of the client of a target's socket, on a small type of JSON values.
use rust_supervisor_relay.Base.{
  ℕ, ◌≡◌, refl, ◌⊎◌, inr, Bool, true, false, not, Option, none, some, String, List, [], ◌∷◌, any,
  ◌==◌, HashMap, lookup, unwrap_or, if◌then◌else◌,
}
use rust_supervisor_relay.Error.{ok}
use rust_supervisor_relay.Command.Laws.{prepared}
use rust_supervisor_relay.Ipc.Json.{Json, IsLawful}
use rust_supervisor_relay.Ipc.Client.{Transport, response_result, bool_at, str_at}
use rust_supervisor_relay.Ipc.Unix.{connect_state, forward_command, forward_command_request}
use rust_supervisor_relay.Ipc.Answers.{state_response, connect_state_reported, forward_command_lem}
use rust_supervisor_relay.Session.{ClientMessage}
use rust_supervisor_relay.Session.Decode.{
  Decoder, allowed_key, decode_client_message, decode_client_message_lem,
}
use rust_supervisor_relay.Tests.Data.{alpha, command, identity, answer}

-- An object is its fields, one after another.
pub data Value : Type 0 where
  null empty_object : Value
  str : String → Value
  bool : Bool → Value
  number : ℕ → Value
  field : String → Value → Value → Value

abbrev get : String → Value → Option Value
get key (field name value rest) =
    let below = get key rest in if name == key then some value else below
get key _ = none

abbrev object : HashMap Value → Value
object [] = empty_object
object ((name, value) ∷ fields) = field name value (object fields)

get_object : (key : String) (fields : HashMap Value) → get key (object fields) ≡ lookup key fields
unfolding lookup
get_object key [] = refl
get_object key ((name, value) ∷ fields) = rw (get_object key fields) refl

abbrev as_str : Value → Option String
as_str (str s) = some s
as_str _ = none

abbrev as_bool : Value → Option Bool
as_bool (bool b) = some b
as_bool _ = none

abbrev as_u64 : Value → Option ℕ
as_u64 (number n) = some n
as_u64 _ = none

abbrev json : Json Value
json = record {
  get = get;
  as_str = as_str;
  as_bool = as_bool;
  as_u64 = as_u64;
  object = object;
  of_str = str;
  of_bool = bool;
  of_u64 = number;
  null = null;
}

json-IsLawful : IsLawful json
json-IsLawful = record {
  get_object = get_object;
  as_str_of_str = λ s. refl;
  as_bool_of_bool = λ b. refl;
  as_u64_of_u64 = λ n. refl;
}

abbrev fields : HashMap Value
fields = ("state_generation", number 7) ∷ []

-- A target's side that reads one line, whatever it is sent, which parses to the given value.
abbrev answering : Value → Transport Value (Unit {0})
answering value = record {
  runtime = λ w. (inr tt, w);
  connect = λ _ w. (inr tt, w);
  to_vec = λ _. inr "request";
  write_all = λ _ w. (inr tt, w);
  read_line = λ w. (inr "response", w);
  from_str = λ _. inr value;
  new_v4 = λ w. ("uuid", w);
  of_unix_nanos = number;
}

reported_example :
    connect_state json (answering (state_response json "alpha" (json.object fields))) alpha 1 tt ≡ (
      ok (record {
        target_id = "alpha";
        state_generation = 7;
        generated_at = 1;
        payload = json.object fields;
      }),
      tt,
    )
unfolding lookup rust_supervisor_relay.Ipc.Unix.request_json_blocking
reported_example =
    connect_state_reported json (answering (state_response json "alpha" (json.object fields)))
      json-IsLawful alpha 1 tt tt "alpha" 7 fields refl refl

abbrev command_response : Value
command_response = json.object (
    ("ok", bool true)
    ∷ (
      "result",
      json.object (
          ("result", json.object (("accepted", bool true) ∷ ("status", str "completed") ∷ []))
          ∷ []),
    )
    ∷ [])

answer_run :
    forward_command json (answering command_response) alpha (prepared command identity 1) 1 tt
    ≡ (ok answer, tt)
unfolding forward_command
answer_run = refl

answer_example :
    (answer.requested_by ≡ (prepared command identity 1).requested_by)
    × (answer.completed_at ≡ 1)
    × ((response result said : Value) × (forward_command_request json
            (answering command_response)
            alpha
            (prepared command identity 1)
            1
            tt
          ≡ (ok response, tt))
        × (response_result json response ≡ ok result)
        × (json.get "result" result ≡ some said)
        × (answer.accepted ≡ unwrap_or (bool_at json "accepted" said) false))
answer_example =
    forward_command_lem json (answering command_response) alpha (prepared command identity 1) 1 tt
      tt answer answer_run

-- A decoder whose every text is a command.
abbrev decoder : Decoder Value
decoder = record {
  from_str = λ _. inr (field "type" (str "command") empty_object);
  object_keys = λ _. some ("type" ∷ []);
  from_value = λ _. inr (ClientMessage.command command);
}

decoded_example :
    (value : Value) × (type_name : String) × (decoder.from_str "text" ≡ inr value)
    × (decoder.from_value value ≡ inr (ClientMessage.command command))
    × (str_at json "type" value ≡ some type_name)
    × (((type_name ≡ "client_hello")
          × ((keys : List String) × (decoder.object_keys value ≡ some keys)
              × (any (λ key. not (allowed_key key)) keys ≡ false)))
        ⊎ ((type_name ≡ "command") ⊎ (type_name ≡ "log_event_filter_conditions")))
unfolding decode_client_message
decoded_example = decode_client_message_lem json decoder "text" (ClientMessage.command command) refl

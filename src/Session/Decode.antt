-- ===== src/Session/Decode.antt =====
-- `decode_client_message` of src/session.rs. serde_json's parser, the keys of an object and the
-- decoding of a message are parameters.
use rust_supervisor_relay.Base.{
  ◌≡◌, ◌⊎◌, inl, inr, Bool, false, not, ◌||◌, Option, none, some, String, ◌<>◌, List, any, ◌==◌,
  if◌then◌else◌, arith, Bool-cases, Option-cases, Sum-cases, eq_iff,
}
use rust_supervisor_relay.Error.{RelayError, RelayResult, ok, new, ok_or, reject_if, ◌>>=◌, ◌>>◌}
use rust_supervisor_relay.Ipc.Json.{Json}
use rust_supervisor_relay.Ipc.Client.{map_err, str_at}
use rust_supervisor_relay.Session.{ClientMessage}

pub record Decoder (Value : Type 0) : Type 0 where
  pub from_str : String → String ⊎ Value
  pub object_keys : Value → Option (List String)
  pub from_value : Value → String ⊎ ClientMessage

abbrev is_type : Option String → String → Bool
is_type none name = false
is_type (some type_name) name = type_name == name

-- `allowed.contains`
abbrev pub allowed_key : String → Bool
allowed_key key = key == "type" || key == "client_store_id" || key == "resume_cursor"

abbrev invalid_json : String → RelayError
invalid_json e =
    new "invalid_message_json" "session_decode" none ("client message could not be parsed: " <> e)
      false

abbrev invalid_schema : String → RelayError
invalid_schema e =
    new "invalid_message_schema" "session_decode" none ("client message schema is invalid: " <> e)
      false

abbrev not_an_object : RelayError
not_an_object =
    new "invalid_message_schema" "session_decode" none "client message must be a JSON object" false

abbrev unsupported_field : RelayError
unsupported_field =
    new "unsupported_field" "session_decode" none
      "message field is not supported by the current protocol" false

abbrev unsupported_type : RelayError
unsupported_type =
    new "unsupported_message_type" "session_decode" none
      "message type is not supported by the current protocol" false

module _ {Value : Type 0} (json : Json Value) (decoder : Decoder Value) where
  -- The checks of the type and of the fields of a hello.
  abbrev check_shape : Value → RelayResult (Unit {0})
  check_shape value =
      let message_type = str_at json "type" value in
      if is_type message_type "client_hello"
      then (ok_or (decoder.object_keys value) not_an_object >>= λ keys.
          reject_if (any (λ key. not (allowed_key key)) keys) unsupported_field)
      else reject_if
          (not
            (is_type message_type "command" || is_type message_type "log_event_filter_conditions"))
          unsupported_type

  unfoldable pub decode_client_message : String → RelayResult ClientMessage
  decode_client_message raw = do
    value ← map_err invalid_json (decoder.from_str raw)
    check_shape value
    map_err invalid_schema (decoder.from_value value)

  -- A message is decoded only from a JSON value of one of the three types that the protocol has, and
  -- one of the type `client_hello` only from an object with no other fields than the protocol's.
  pub decode_client_message_lem :
      (raw : String) (message : ClientMessage)
      → decode_client_message raw ≡ ok message
      → (value : Value) × (type_name : String) × (decoder.from_str raw ≡ inr value)
        × (decoder.from_value value ≡ inr message)
        × (str_at json "type" value ≡ some type_name)
        × (((type_name ≡ "client_hello")
              × ((keys : List String) × (decoder.object_keys value ≡ some keys)
                  × (any (λ key. not (allowed_key key)) keys ≡ false)))
            ⊎ ((type_name ≡ "command") ⊎ (type_name ≡ "log_event_filter_conditions")))
  unfolding decode_client_message
  decode_client_message_lem raw message h = elim (Sum-cases (decoder.from_str raw)) [
    | inl (e, p) ↦ absurd (ground arith)
    | inr (value, p) ↦ elim (Sum-cases (decoder.from_value value)) [
      | inl (e, q) ↦ absurd (ground arith)
      | inr (m, q) ↦ elim (Option-cases (str_at json "type" value)) [
        | inl n ↦ absurd (ground arith)
        | inr (type_name, n) ↦ (
          value,
          type_name,
          p,
          ground arith,
          n,
          elim (Bool-cases (type_name == "client_hello")) [
            | inl t ↦ elim (Option-cases (decoder.object_keys value)) [
              | inl k ↦ absurd (ground arith)
              | inr (keys, k) ↦ inl ((eq_iff type_name "client_hello").0 t, (keys, k, ground arith))
            ]
            | inr t ↦ elim (Bool-cases (type_name == "command")) [
              | inl c ↦ inr (inl ((eq_iff type_name "command").0 c))
              | inr c ↦
                  inr (inr ((eq_iff type_name "log_event_filter_conditions").0 (ground arith)))
            ]
          ],
        )
      ]
    ]
  ]

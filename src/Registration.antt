-- ===== src/Registration.antt =====
-- src/registration.rs: the registration payload, its line, the submitter's identity and the mode of
-- the registration socket. serde_json and the socket are parameters.
pub mod Peers
pub mod Socket
use Prim.Native.Nat.{◌/◌}
use rust_supervisor_relay.Base.{
  ℕ, zero, suc, ◌%◌, ◌⊎◌, inl, inr, Bool, true, false, Option, none, some, String, ◌<>◌, List, ltb,
  eqb, trim, if◌then◌else◌,
}
use rust_supervisor_relay.Error.{RelayError, RelayResult, ok, err, new, ◌>>=◌}

pub record SupportedCommand : Type 0 where
  pub name : String
  pub idempotent : Bool
  pub timeout_seconds : ℕ

pub record RegistrationRequest : Type 0 where
  pub target_id : String
  pub display_name : String
  pub ipc_path : String
  pub lease_seconds : ℕ
  pub supported_commands : List SupportedCommand

-- `SupportedCommand::new` and `RegistrationRequest::new`.
abbrev pub supported_command : String → Bool → ℕ → SupportedCommand
supported_command name idempotent timeout_seconds = record {
  name = name;
  idempotent = idempotent;
  timeout_seconds = timeout_seconds;
}

abbrev pub registration_request :
    String → String → String → ℕ → List SupportedCommand → RegistrationRequest
registration_request target_id display_name ipc_path lease_seconds supported_commands = record {
  target_id = target_id;
  display_name = display_name;
  ipc_path = ipc_path;
  lease_seconds = lease_seconds;
  supported_commands = supported_commands;
}

-- `decode_registration_line`; the argument is serde_json's parser for the payload.
unfoldable pub decode_registration_line :
    (String → String ⊎ RegistrationRequest) → String → RelayResult RegistrationRequest
decode_registration_line from_str line = elim (from_str line) [
  | inl error ↦ err (
      new "invalid_registration_json" "registration_parse" none
        ("registration line could not be parsed: " <> error) false)
  | inr request ↦ ok request
]

-- A digit, and a decimal numeral of at most the given number of digits.
digit : ℕ → String
digit n =
    if eqb n 0
    then "0"
    else if eqb n 1
    then "1"
    else if eqb n 2
    then "2"
    else if eqb n 3
    then "3"
    else if eqb n 4
    then "4"
    else if eqb n 5
    then "5"
    else if eqb n 6
    then "6"
    else if eqb n 7
    then "7"
    else if eqb n 8
    then "8"
    else "9"

decimal : ℕ → ℕ → String
unfolding digit
decimal zero n = ""
decimal (suc digits) n =
    let front = decimal digits (n / 10) in if ltb n 10 then digit n else front <> digit (n % 10)

-- `owner_identity_from_stream`, from the user id in the peer's credential; a `u32` has ten digits.
unfoldable pub owner_identity_from_stream : Option ℕ → String
unfolding decimal
owner_identity_from_stream none = "unix_uid:unknown"
owner_identity_from_stream (some uid) = "unix_uid:" <> decimal 10 uid

-- A connection to the registration socket: the peer's user id, and its first line or an error.
pub record Connection : Type 0 where
  pub peer_uid : Option ℕ
  pub line : String ⊎ String

pub record AcceptedRegistration : Type 0 where
  pub request : RegistrationRequest
  pub owner_identity : String

abbrev accept_failed : String → RelayError
accept_failed error =
    new "registration_accept_failed" "registration_accept" none
      ("registration connection could not be accepted: " <> error) true

module _ (from_str : String → String ⊎ RegistrationRequest) where
  -- `read_registration_request_and_stream`
  unfoldable pub read_registration_request : Connection → RelayResult RegistrationRequest
  read_registration_request connection = elim connection.line [
    | inl error ↦ err (
        new "registration_read_failed" "registration_accept" none
          ("registration line could not be read: " <> error) true)
    | inr line ↦ decode_registration_line from_str (trim line)
  ]

  -- `read_registration_from_stream`
  abbrev read_registration_from_stream : Connection → RelayResult RegistrationRequest
  read_registration_from_stream = read_registration_request

  -- `RegistrationListener::accept_once`, from what `accept` gave.
  unfoldable pub accept_once : String ⊎ Connection → RelayResult RegistrationRequest
  unfolding read_registration_request
  accept_once (inl error) = err (accept_failed error)
  accept_once (inr connection) = read_registration_from_stream connection

  -- `RegistrationListener::accept_registration`, from what `accept` gave.
  unfoldable pub accept_registration : String ⊎ Connection → RelayResult AcceptedRegistration
  accept_registration (inl error) = err (accept_failed error)
  accept_registration (inr connection) = do
    request ← read_registration_request connection
    ok (record {
      request = request;
      owner_identity = owner_identity_from_stream connection.peer_uid;
    })

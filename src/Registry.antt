-- ===== src/Registry.antt =====
-- src/registry.rs: the records of the registry and its queries. The operations stand in the children.
use rust_supervisor_relay.Base.{
  ℕ, ◌+◌, Bool, true, false, not, ◌&&◌, ◌||◌, Option, none, some, String, List, [], ◌∷◌, map,
  length, any, keep, ltb, leb, ◌==◌, unwrap_or, HashMap, lookup,
}
use mathlib.Core.Option
use rust_supervisor_relay.Error.{
  RelayError, RelayResult, ok, for_target, ◌>>=◌, ◌>>◌, reject_if, ok_or,
}
use rust_supervisor_relay.Time.{OffsetDateTime}
use rust_supervisor_relay.Config.{RegistrationPolicy}
use rust_supervisor_relay.Registration.{SupportedCommand}
use rust_supervisor_relay.Command.{ControlCommandName, wire_name}
pub mod Validate
pub mod Register
pub mod Lease
pub mod Link
pub mod Outcome
pub mod Invariant
pub mod Preserve
pub mod Admit
pub mod Expiry
pub mod Reach
pub mod Place
pub mod Sockets
pub mod Verdict
pub mod Judged
pub mod Lapse
pub mod Ownership
pub mod Views
pub mod Live
pub mod Spec
pub mod Refine
pub mod Alike
pub mod Unordered
pub mod Order

pub data RegistrationState : Type 0 where
  active rejected expired : RegistrationState

pub data ConnectionState : Type 0 where
  registered disconnected connecting connected reconnecting unavailable expired : ConnectionState

pub record TargetProcessRegistration : Type 0 where
  pub target_id : String
  pub display_name : String
  pub ipc_path : String
  pub ipc_path_key : String
  pub owner_identity : String
  pub lease_seconds : ℕ
  pub supported_commands : List SupportedCommand
  pub registered_at : OffsetDateTime
  pub renewed_at : OffsetDateTime
  pub expires_at : OffsetDateTime
  pub registration_state : RegistrationState
  pub last_rejection : Option String

pub record TargetProcessConnection : Type 0 where
  pub target_id : String
  pub ipc_path : String
  pub state : ConnectionState
  pub last_error : Option String
  pub last_state_generation : Option ℕ
  pub last_sequence : Option ℕ
  pub connected_at : Option OffsetDateTime
  pub updated_at : OffsetDateTime

pub record VisibleTarget : Type 0 where
  pub target_id : String
  pub display_name : String
  pub registration_state : RegistrationState
  pub connection_state : ConnectionState
  pub supported_commands : List SupportedCommand

pub record AvailabilitySummary : Type 0 where
  pub total : ℕ
  pub registered : ℕ
  pub connected : ℕ
  pub reconnecting : ℕ
  pub unavailable : ℕ
  pub expired : ℕ

pub record TargetProcessRegistry : Type 0 where
  pub policy : RegistrationPolicy
  pub registrations : HashMap TargetProcessRegistration
  pub connections : HashMap TargetProcessConnection

-- `TargetProcessRegistry::new`
abbrev pub empty : RegistrationPolicy → TargetProcessRegistry
empty policy = record { policy = policy; registrations = []; connections = [] }

abbrev pub is_active : RegistrationState → Bool
is_active active = true
is_active rejected = false
is_active RegistrationState.expired = false

-- The test of `active_registration_count` and `active_targets`.
abbrev pub is_live : OffsetDateTime → TargetProcessRegistration → Bool
is_live now r = is_active r.registration_state && ltb now r.expires_at

unfoldable pub active_registration_count : OffsetDateTime → TargetProcessRegistry → ℕ
active_registration_count now registry =
    length (keep (λ (_, r). is_live now r) registry.registrations)

-- The connection state of a target, `Unavailable` where it has no connection record.
abbrev state_of : HashMap TargetProcessConnection → String → ConnectionState
state_of connections target_id =
    unwrap_or (Option.map (λ c. c.state) (lookup target_id connections)) unavailable

abbrev pub visible : HashMap TargetProcessConnection → TargetProcessRegistration → VisibleTarget
visible connections r = record {
  target_id = r.target_id;
  display_name = r.display_name;
  registration_state = r.registration_state;
  connection_state = state_of connections r.target_id;
  supported_commands = r.supported_commands;
}

unfoldable pub active_targets : OffsetDateTime → TargetProcessRegistry → List VisibleTarget
active_targets now registry =
    map (λ (_, r). visible registry.connections r)
      (keep (λ (_, r). is_live now r) registry.registrations)

abbrev pub not_registered : String → RelayError
not_registered target_id =
    for_target "target_not_registered" "registry" target_id "target is not registered" true

-- `TargetProcessRegistry::registration`
unfoldable pub registration : String → TargetProcessRegistry → RelayResult TargetProcessRegistration
registration target_id registry =
    ok_or (lookup target_id registry.registrations) (not_registered target_id)

abbrev pub inactive : String → RelayError
inactive target_id =
    for_target "target_unavailable" "registry" target_id "target registration is not active" true

unfoldable pub ensure_target_active :
    String → OffsetDateTime → TargetProcessRegistry → RelayResult (Unit {0})
unfolding registration
ensure_target_active target_id now registry = do
  r ← registration target_id registry
  reject_if (not (is_active r.registration_state) || leb r.expires_at now) (inactive target_id)

abbrev pub unsupported : String → RelayError
unsupported target_id =
    for_target "unsupported_command" "command_validate" target_id
      "target does not declare support for this command" false

unfoldable pub ensure_command_supported :
    String → ControlCommandName → TargetProcessRegistry → RelayResult (Unit {0})
unfolding registration
ensure_command_supported target_id command registry = do
  r ← registration target_id registry
  reject_if (not (any (λ supported. supported.name == wire_name command) r.supported_commands))
      (unsupported target_id)

unfoldable pub connection_state : String → TargetProcessRegistry → Option ConnectionState
connection_state target_id registry =
    Option.map (λ c. c.state) (lookup target_id registry.connections)

-- One round of the loop of `availability_summary`.
count_connection : ConnectionState → AvailabilitySummary → AvailabilitySummary
count_connection registered s = record s { registered = s.registered + 1 }
count_connection disconnected s = record s { registered = s.registered + 1 }
count_connection connecting s = record s { registered = s.registered + 1 }
count_connection connected s = record s { connected = s.connected + 1 }
count_connection reconnecting s = record s { reconnecting = s.reconnecting + 1 }
count_connection unavailable s = record s { unavailable = s.unavailable + 1 }
count_connection ConnectionState.expired s = record s { expired = s.expired + 1 }

unfoldable pub summarize :
    HashMap TargetProcessConnection → AvailabilitySummary → AvailabilitySummary
unfolding count_connection
summarize [] s = s
summarize ((_, c) ∷ connections) s = summarize connections (count_connection c.state s)

unfoldable pub availability_summary : TargetProcessRegistry → AvailabilitySummary
unfolding summarize
availability_summary registry = summarize registry.connections (record {
  total = length registry.connections;
  registered = 0;
  connected = 0;
  reconnecting = 0;
  unavailable = 0;
  expired = 0;
})

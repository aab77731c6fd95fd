-- ===== src/Session.antt =====
-- src/session.rs: the messages, the session's record and its plain operations. The type of JSON
-- values is a parameter.
use rust_supervisor_relay.Base.{
  ℕ, Bool, true, false, ◌&&◌, Option, none, some, String, List, [], ◌∷◌, ◌++◌, any, length, is_some,
  ◌==◌, if◌then◌else◌, HashMap,
}
use rust_supervisor_relay.Error.{RelayError, RelayResult, ok, err, new}
use rust_supervisor_relay.Time.{OffsetDateTime}
use rust_supervisor_relay.Auth.{RemoteIdentity}
use rust_supervisor_relay.Command.{ClientCommand, ControlCommandResult}
use rust_supervisor_relay.Registry.{ConnectionState, VisibleTarget}
pub mod Handshake
pub mod Stream
pub mod Sequence
pub mod Context
pub mod Bind
pub mod Control
pub mod Gate
pub mod Binding
pub mod Bound
pub mod Trail
pub mod Opening
pub mod Refresh
pub mod Decode
pub mod Guarantee
pub mod Kept
pub mod KeptBinding
pub mod Settled
pub mod Guarded
pub mod Protocol
pub mod Queue
pub mod QueueBinding
pub mod QueueRefresh
pub mod QueueCommand
pub mod Steady

pub data TransportSecurity : Type 0 where
  wss ws : TransportSecurity

pub data ConnectionStateForSession : Type 0 where
  handshaking established closing closed : ConnectionStateForSession

pub data ControlState : Type 0 where
  not_established established revoked : ControlState

pub record EventRecord : Type 0 where
  pub target_id : String
  pub sequence : ℕ
  pub event_type : String
  pub severity : String
  pub occurred_at : OffsetDateTime

pub record LogRecord : Type 0 where
  pub target_id : String
  pub sequence : Option ℕ
  pub severity : String
  pub message : String
  pub occurred_at : OffsetDateTime

pub data LogEventFilterMode : Type 0 where
  remote local : LogEventFilterMode

pub record ResumeCursorEntry : Type 0 where
  pub delivery_mode : String
  pub filter_config_version : ℕ
  pub stream_epoch : String
  pub sequence : ℕ

pub record ResumeCursor : Type 0 where
  pub events : HashMap ResumeCursorEntry
  pub logs : HashMap ResumeCursorEntry

pub record ClientHello : Type 0 where
  pub client_store_id : String
  pub resume_cursor : ResumeCursor

pub record LogEventFilterConditionsMessage : Type 0 where
  pub target_ids : List String
  pub child_paths : List String
  pub lifecycle_states : List String
  pub event_types : List String
  pub severities : List String
  pub sequence_min : Option ℕ
  pub correlation_id : Option String

pub data ClientMessage : Type 0 where
  client_hello : ClientHello → ClientMessage
  command : ClientCommand → ClientMessage
  log_event_filter_conditions : LogEventFilterConditionsMessage → ClientMessage

pub data ServerMessage (Value : Type 0) : Type 0 where
  -- The session id, the client's identity, the filter mode and conditions, and their version.
  server_hello : String → String → LogEventFilterMode → Value → ℕ → ServerMessage Value
  target_list : List VisibleTarget → ServerMessage Value
  state : String → Value → ServerMessage Value
  event : String → EventRecord → ServerMessage Value
  log : String → LogRecord → ServerMessage Value
  state_delta : String → Value → ServerMessage Value
  dropped_count : String → ℕ → ServerMessage Value
  command_result : String → ControlCommandResult → ServerMessage Value
  connection_state : String → ConnectionState → ServerMessage Value
  error : RelayError → ServerMessage Value

pub record DashboardSession (Value : Type 0) : Type 0 where
  pub session_id : String
  pub remote_identity : Option RemoteIdentity
  pub client_store_id : Option String
  pub connection_state : ConnectionStateForSession
  pub control_state : ControlState
  pub bound_targets : List String
  pub last_sequences : HashMap ℕ
  pub outbox : List (ServerMessage Value)
  pub created_at : OffsetDateTime
  pub last_seen_at : OffsetDateTime

abbrev pub uncontrolled : RelayError
uncontrolled =
    new "session_not_established" "session" none
      "control session must be established before IPC binding or command forwarding" false

-- `HashSet::contains` and `HashSet::insert` on `bound_targets`.
unfoldable pub contains : List String → String → Bool
contains targets target_id = any (λ bound. bound == target_id) targets

unfoldable pub bind : List String → String → List String
unfolding contains
bind targets target_id = if contains targets target_id then targets else targets ++ (target_id ∷ [])

abbrev pub is_handshaking : ConnectionStateForSession → Bool
is_handshaking handshaking = true
is_handshaking _ = false

abbrev pub is_connected : ConnectionStateForSession → Bool
is_connected ConnectionStateForSession.established = true
is_connected _ = false

abbrev pub has_control : ControlState → Bool
has_control ControlState.established = true
has_control _ = false

module _ {Value : Type 0} where
  unfoldable pub push : ServerMessage Value → DashboardSession Value → DashboardSession Value
  push message s = record s { outbox = s.outbox ++ (message ∷ []) }

  -- `drain_outbox`
  unfoldable pub drain_outbox :
      DashboardSession Value → List (ServerMessage Value) × DashboardSession Value
  drain_outbox s = (s.outbox, record s { outbox = [] })

  unfoldable pub is_bound : String → DashboardSession Value → Bool
  unfolding contains
  is_bound target_id s = contains s.bound_targets target_id

  first_target_count : List (ServerMessage Value) → ℕ
  first_target_count [] = 0
  first_target_count (target_list targets ∷ _) = length targets
  first_target_count (_ ∷ messages) = first_target_count messages

  unfoldable pub visible_target_count : DashboardSession Value → ℕ
  unfolding first_target_count
  visible_target_count s = first_target_count s.outbox

  -- The test of `ensure_control_established`.
  abbrev pub in_control : DashboardSession Value → Bool
  in_control s =
      is_connected s.connection_state && has_control s.control_state && is_some s.remote_identity

  unfoldable pub ensure_control_established : DashboardSession Value → RelayResult (Unit {0})
  ensure_control_established s = if in_control s then ok tt else err uncontrolled

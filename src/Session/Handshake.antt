-- ===== src/Session/Handshake.antt =====
-- How src/session.rs opens a session.
use rust_supervisor_relay.Base.{false, not, none, some, String, List, [], ◌∷◌, is_empty, trim}
use rust_supervisor_relay.Error.{RelayError, RelayResult, ok, err, panic, new, reject_if}
use rust_supervisor_relay.Effect.{M, lift, gets, modify, ◌>>=◌, ◌>>◌}
use rust_supervisor_relay.Time.{OffsetDateTime}
use rust_supervisor_relay.Auth.{RemoteIdentity}
use rust_supervisor_relay.Registry.{VisibleTarget, TargetProcessRegistry, active_targets}
use rust_supervisor_relay.Session.{
  TransportSecurity, wss, ws, ConnectionStateForSession, handshaking, ControlState, not_established,
  remote, ClientHello, server_hello, target_list, DashboardSession, push, is_handshaking,
}

abbrev pub blank_store : RelayError
blank_store = new "invalid_message_schema" "session" none "client_store_id must not be empty" false

abbrev pub late_hello : RelayError
late_hello =
    new "protocol_error" "session" none "client_hello is only valid during handshaking" false

abbrev pub insecure : RelayError
insecure = new "insecure_transport" "session" none "full control session requires wss://" false

abbrev volatile_hello : ClientHello
volatile_hello = record {
  client_store_id = "volatile-session";
  resume_cursor = record { events = []; logs = [] };
}

module _ {Value : Type 0} where
  -- `DashboardSession::unauthenticated`, with the id that `Uuid::new_v4` gives.
  unfoldable pub unauthenticated : String → OffsetDateTime → DashboardSession Value
  unauthenticated session_id now = record {
    session_id = session_id;
    remote_identity = none;
    client_store_id = none;
    connection_state = handshaking;
    control_state = not_established;
    bound_targets = [];
    last_sequences = [];
    outbox = [];
    created_at = now;
    last_seen_at = now;
  }

  -- `DashboardSession::server_hello`; the first argument is the JSON value `{}`.
  unfoldable pub greet : Value → String → RemoteIdentity → OffsetDateTime → DashboardSession Value
  greet no_conditions session_id identity now = record {
    session_id = session_id;
    remote_identity = some identity;
    client_store_id = none;
    connection_state = handshaking;
    control_state = not_established;
    bound_targets = [];
    last_sequences = [];
    outbox = server_hello session_id identity.client_identity remote no_conditions 0 ∷ [];
    created_at = now;
    last_seen_at = now;
  }

  unfoldable pub accept_client_hello :
      ClientHello → OffsetDateTime → M (DashboardSession Value) (Unit {0})
  accept_client_hello hello now = do
    lift (reject_if (is_empty (trim hello.client_store_id)) blank_store)
    state ← gets (λ s. s.connection_state)
    lift (reject_if (not (is_handshaking state)) late_hello)
    modify (λ s. record s {
      client_store_id = some hello.client_store_id;
      connection_state = ConnectionStateForSession.established;
      control_state = ControlState.established;
      last_seen_at = now;
    })

  unfoldable pub publish_target_list :
      List VisibleTarget → DashboardSession Value → DashboardSession Value
  unfolding push
  publish_target_list targets = push (target_list targets)

  abbrev published :
      List VisibleTarget
      → RelayResult (Unit {0}) × DashboardSession Value
      → RelayResult (DashboardSession Value)
  published targets (ok _, s) = ok (publish_target_list targets s)
  published targets (err e, _) = err e
  published targets (panic, _) = panic

  unfoldable pub establish :
      Value
      → String
      → RemoteIdentity
      → TargetProcessRegistry
      → TransportSecurity
      → OffsetDateTime
      → RelayResult (DashboardSession Value)
  unfolding greet accept_client_hello publish_target_list
  establish no_conditions session_id identity registry ws now = err insecure
  establish no_conditions session_id identity registry wss now =
      published (active_targets now registry)
        (accept_client_hello volatile_hello now (greet no_conditions session_id identity now))

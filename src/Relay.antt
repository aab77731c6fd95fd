-- ===== src/Relay.antt =====
-- src/relay.rs: the boundary through which the messages of the targets reach a session.
use rust_supervisor_relay.Base.{ℕ, Option, String, List}
use rust_supervisor_relay.Error.{RelayResult}
use rust_supervisor_relay.Effect.{M}
use rust_supervisor_relay.Time.{OffsetDateTime}
use rust_supervisor_relay.Registry.{TargetProcessRegistry, unavailable}
use rust_supervisor_relay.Registry.Link.{mark_unavailable}
use rust_supervisor_relay.Session.{ServerMessage, DashboardSession}
use rust_supervisor_relay.Session.Stream.{
  accept_event, accept_log, accept_state_delta, accept_dropped_count, accept_connection_state,
}
pub mod Silence
pub mod Delivery
pub mod Heard

module _ {Value : Type 0} where
  unfoldable pub fan_out_event :
      String
      → ℕ
      → String
      → String
      → OffsetDateTime
      → M (DashboardSession Value) (List (ServerMessage Value))
  fan_out_event target_id sequence event_type severity occurred_at = accept_event (record {
    target_id = target_id;
    sequence = sequence;
    event_type = event_type;
    severity = severity;
    occurred_at = occurred_at;
  })

  unfoldable pub fan_out_log :
      String
      → Option ℕ
      → String
      → String
      → OffsetDateTime
      → M (DashboardSession Value) (List (ServerMessage Value))
  fan_out_log target_id sequence severity message occurred_at = accept_log (record {
    target_id = target_id;
    sequence = sequence;
    severity = severity;
    message = message;
    occurred_at = occurred_at;
  })

  unfoldable pub fan_out_state_delta :
      String → Value → M (DashboardSession Value) (List (ServerMessage Value))
  fan_out_state_delta target_id delta = accept_state_delta target_id delta

  unfoldable pub fan_out_dropped_count :
      String → ℕ → M (DashboardSession Value) (List (ServerMessage Value))
  fan_out_dropped_count target_id dropped_event_count =
      accept_dropped_count target_id dropped_event_count

  -- The session and the registry are both written.
  unfoldable pub reconnect_timeout :
      String
      → OffsetDateTime
      → M (DashboardSession Value × TargetProcessRegistry) (List (ServerMessage Value))
  reconnect_timeout target_id now (s, registry) =
      let registry' =
        mark_unavailable target_id "reconnect timeout after 10 seconds" now registry in
      let (result, s') = accept_connection_state target_id unavailable s in
      (result, (s', registry'))

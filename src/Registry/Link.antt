-- ===== src/Registry/Link.antt =====
-- The operations of src/registry.rs on the connection records.
use rust_supervisor_relay.Base.{ℕ, true, Option, none, some, String, HashMap, lookup, unwrap_or}
use rust_supervisor_relay.Base
use rust_supervisor_relay.Error.{for_target, ok_or}
use rust_supervisor_relay.Effect.{M, lift, gets, modify, ◌>>=◌}
use rust_supervisor_relay.Time.{OffsetDateTime}
use rust_supervisor_relay.Registry.{
  connecting, connected, reconnecting, unavailable, TargetProcessConnection, TargetProcessRegistry,
}

abbrev pub with_connection :
    String
    → (TargetProcessConnection → TargetProcessConnection)
    → TargetProcessRegistry
    → TargetProcessRegistry
with_connection target_id f registry = record registry {
  connections = Base.modify target_id f registry.connections;
}

-- What the operations below write into a connection.
abbrev pub to_connecting : OffsetDateTime → TargetProcessConnection → TargetProcessConnection
to_connecting now c = record c { state = connecting; updated_at = now }

abbrev pub to_connected : ℕ → OffsetDateTime → TargetProcessConnection → TargetProcessConnection
to_connected state_generation now c = record c {
  state = connected;
  last_error = none;
  last_state_generation = some state_generation;
  connected_at = some now;
  updated_at = now;
}

abbrev pub to_reconnecting :
    String → OffsetDateTime → TargetProcessConnection → TargetProcessConnection
to_reconnecting reason now c = record c {
  state = reconnecting;
  last_error = some reason;
  updated_at = now;
}

abbrev pub to_unavailable :
    String → OffsetDateTime → TargetProcessConnection → TargetProcessConnection
to_unavailable reason now c = record c {
  state = unavailable;
  last_error = some reason;
  updated_at = now;
}

-- A write through `connection_mut`.
unfoldable pub connection_mut :
    String
    → (TargetProcessConnection → TargetProcessConnection)
    → M TargetProcessRegistry (Unit {0})
connection_mut target_id f = do
  found ← gets (λ registry. lookup target_id registry.connections)
  connection ← lift (
      ok_or found (
        for_target "target_not_registered" "registry" target_id
          "target connection is not registered" true))
  modify (with_connection target_id f)

unfoldable pub begin_binding : String → OffsetDateTime → M TargetProcessRegistry (Unit {0})
unfolding connection_mut
begin_binding target_id now = connection_mut target_id (to_connecting now)

unfoldable pub mark_connected : String → ℕ → OffsetDateTime → M TargetProcessRegistry (Unit {0})
unfolding connection_mut
mark_connected target_id state_generation now =
    connection_mut target_id (to_connected state_generation now)

-- A missing connection is ignored by the marks below.
unfoldable pub mark_reconnecting :
    String → String → OffsetDateTime → TargetProcessRegistry → TargetProcessRegistry
unfolding connection_mut
mark_reconnecting target_id reason now registry =
    (connection_mut target_id (to_reconnecting reason now) registry).1

unfoldable pub mark_unavailable :
    String → String → OffsetDateTime → TargetProcessRegistry → TargetProcessRegistry
unfolding connection_mut
mark_unavailable target_id reason now registry =
    (connection_mut target_id (to_unavailable reason now) registry).1

-- The previous sequence, and the registry with the new one.
unfoldable pub update_sequence :
    String → ℕ → TargetProcessRegistry → Option ℕ × TargetProcessRegistry
update_sequence target_id sequence registry = (
  elim (lookup target_id registry.connections) [ none ↦ none | some c ↦ c.last_sequence ],
  with_connection target_id (λ c. record c { last_sequence = some sequence }) registry,
)

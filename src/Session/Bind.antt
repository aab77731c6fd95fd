-- ===== src/Session/Bind.antt =====
-- `bind_target` of src/session.rs.
use rust_supervisor_relay.Base.{String, if◌then◌else◌}
use rust_supervisor_relay.Error.{RelayError}
use rust_supervisor_relay.Effect.{M, pure, lift, gets, modify, inspect_err, ◌>>=◌, ◌>>◌}
use rust_supervisor_relay.Time.{OffsetDateTime}
use rust_supervisor_relay.Registry.{TargetProcessRegistration, registration, ensure_target_active}
use rust_supervisor_relay.Registry.Link.{begin_binding, mark_connected, mark_unavailable}
use rust_supervisor_relay.Ipc.{TargetIpcPort}
use rust_supervisor_relay.Session.{
  state, DashboardSession, contains, bind, push, ensure_control_established,
}
use rust_supervisor_relay.Session.Context.{Context, on_registry, on_world}

module _ {Value World : Type 0} where
  -- The closure of the two `inspect_err` calls.
  abbrev pub give_up :
      String → OffsetDateTime → RelayError → Context Value World → Context Value World
  give_up target_id now e c = record c {
    registry = mark_unavailable target_id e.message now c.registry;
  }

module _ {Value : Type 0} where
  abbrev pub bound :
      String → Value → OffsetDateTime → DashboardSession Value → DashboardSession Value
  bound target_id payload now s =
      let t = push (state target_id payload) s in
      record t { bound_targets = bind s.bound_targets target_id; last_seen_at = now }

module _ {Value World : Type 0} (port : TargetIpcPort Value World) where
  -- The calls behind the test of `bound_targets`.
  unfoldable pub connect_and_subscribe :
      String → TargetProcessRegistration → OffsetDateTime → M (Context Value World) (Unit {0})
  connect_and_subscribe target_id r now = do
    on_registry (begin_binding target_id now)
    reported ← inspect_err (on_world (port.connect_state r now)) (give_up target_id now)
    on_registry (mark_connected target_id reported.state_generation now)
    inspect_err (on_world (port.subscribe_event_log r now)) (give_up target_id now)
    modify (λ c. record c { session = bound target_id reported.payload now c.session })

  unfoldable pub bind_target : String → OffsetDateTime → M (Context Value World) (Unit {0})
  bind_target target_id now = do
    session ← gets (λ c. c.session)
    lift (ensure_control_established session)
    registry ← gets (λ c. c.registry)
    lift (ensure_target_active target_id now registry)
    r ← lift (registration target_id registry)
    if contains session.bound_targets target_id
        then pure tt
        else connect_and_subscribe target_id r now

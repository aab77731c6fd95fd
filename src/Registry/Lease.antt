-- ===== src/Registry/Lease.antt =====
-- `renew` and `expire_leases` of src/registry.rs.
use rust_supervisor_relay.Base.{
  ℕ, ◌+◌, Bool, true, false, ◌&&◌, Option, none, some, String, [], ◌∷◌, leb, if◌then◌else◌, HashMap,
  lookup,
}
use rust_supervisor_relay.Base
use rust_supervisor_relay.Error.{for_target, ok_or, or_panic}
use rust_supervisor_relay.Effect.{M, lift, gets, modify, ◌>>=◌, ◌>>◌}
use rust_supervisor_relay.Time.{OffsetDateTime, Clock}
use rust_supervisor_relay.Registry.{
  RegistrationState, ConnectionState, active, TargetProcessRegistration, TargetProcessConnection,
  TargetProcessRegistry, is_active,
}
use rust_supervisor_relay.Registry.Register.{lease_end}

-- A write to one registration.
abbrev pub with_registration :
    String
    → (TargetProcessRegistration → TargetProcessRegistration)
    → TargetProcessRegistry
    → TargetProcessRegistry
with_registration target_id f registry = record registry {
  registrations = Base.modify target_id f registry.registrations;
}

-- `renewed_at` is written before the addition that may panic.
unfoldable pub renew : Clock → String → OffsetDateTime → M TargetProcessRegistry (Unit {0})
renew clock target_id now = do
  found ← gets (λ registry. lookup target_id registry.registrations)
  registration ← lift (
      ok_or found (
        for_target "target_not_registered" "registration_renew" target_id "target is not registered"
          true))
  modify (with_registration target_id (λ r. record r { renewed_at = now }))
  expires_at ← lift (or_panic (lease_end clock now registration.lease_seconds))
  modify (
      with_registration target_id
        (λ r. record r { expires_at = expires_at; registration_state = active }))

-- The test of the loop of `expire_leases`.
abbrev pub is_due : OffsetDateTime → TargetProcessRegistration → Bool
is_due now r = is_active r.registration_state && leb r.expires_at now

abbrev pub expire_registration :
    OffsetDateTime → TargetProcessRegistration → TargetProcessRegistration
expire_registration now r =
    if is_due now r then record r { registration_state = RegistrationState.expired } else r

abbrev pub expire_connection : OffsetDateTime → TargetProcessConnection → TargetProcessConnection
expire_connection now c = record c { state = ConnectionState.expired; updated_at = now }

-- What the loop leaves: the registrations, the connections and the count.
abbrev pub Expiry : Type 0
Expiry = HashMap TargetProcessRegistration × HashMap TargetProcessConnection × ℕ

-- The loop over `registrations.values_mut()`.
unfoldable pub expire_loop :
    OffsetDateTime
    → HashMap TargetProcessRegistration
    → HashMap TargetProcessConnection
    → ℕ
    → Expiry
expire_loop now [] connections count = ([], connections, count)
expire_loop now ((k, r) ∷ registrations) connections count =
    let (registrations', connections', count') =
      expire_loop now registrations
        (if is_due now r
          then Base.modify r.target_id (expire_connection now) connections
          else connections)
        (if is_due now r then count + 1 else count) in
    ((k, expire_registration now r) ∷ registrations', connections', count')

unfoldable pub expire_leases : OffsetDateTime → TargetProcessRegistry → ℕ × TargetProcessRegistry
unfolding expire_loop
expire_leases now registry =
    let (registrations, connections, count) =
      expire_loop now registry.registrations registry.connections 0 in
    (count, record registry { registrations = registrations; connections = connections })

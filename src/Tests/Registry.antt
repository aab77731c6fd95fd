-- ===== src/Tests/Registry.antt =====
-- Runs of the registry.
use rust_supervisor_relay.Base.{
  ℕ, ◌⊎◌, ◌+◌, ◌*◌, ◌^◌, ◌<◌, ◌≡◌, refl, Bool, true, false, Option, none, some, String, List, [],
  ◌∷◌, any, keep, length, arith, subst, ◌==◌, lookup, insert, if◌then◌else◌,
}
use mathlib.Core.Option
use rust_supervisor_relay.Error.{ok}
use rust_supervisor_relay.Registry.{
  RegistrationState, ConnectionState, TargetProcessRegistration, TargetProcessConnection, empty,
  connection_state, active_targets, ensure_target_active,
}
use rust_supervisor_relay.Registry.Validate.{validate_request, normalize_ipc_path_key}
use rust_supervisor_relay.Registry.Register.{register}
use rust_supervisor_relay.Registry.Lease.{renew, expire_leases, expire_registration}
use rust_supervisor_relay.Registry.Invariant.{IsValid}
use rust_supervisor_relay.Registry.Sockets.{IsConfined, Reach-IsConfined}
use rust_supervisor_relay.Registry.Verdict.{Verdict}
use rust_supervisor_relay.Registry.Judged.{register_lem}
use rust_supervisor_relay.Registry.Lapse.{HasRunOut, Tally, expire_leases_cases}
use rust_supervisor_relay.Registry.Reach.{Reach, here, next, registers, expires, Reach-IsValid}
use rust_supervisor_relay.Registry.Ownership.{StaysOwned, Reach-StaysOwned}
use rust_supervisor_relay.Registry.Views.{active_targets_iff, renew-connection_state}
use rust_supervisor_relay.Registry.Spec.{Moves, to_sweep}
use rust_supervisor_relay.Registry.Refine.{leases, Reach-Moves}
use rust_supervisor_relay.Registry.Live.{register-active}
use rust_supervisor_relay.Tests.Data.{clock, clock-IsLawful, fs, policy, request, alpha, registry}

-- The first registration.
pub registered_alpha :
    register clock fs request "unix_uid:501" 0 (empty policy) ≡ (ok alpha, registry)
unfolding register validate_request rust_supervisor_relay.Base.is_empty
    rust_supervisor_relay.Base.trim rust_supervisor_relay.Paths.is_absolute
    rust_supervisor_relay.Config.ipc_path_is_allowed rust_supervisor_relay.Paths.starts_with
    normalize_ipc_path_key rust_supervisor_relay.Paths.parent rust_supervisor_relay.Paths.file_name
    lookup rust_supervisor_relay.Paths.join insert
registered_alpha = refl

abbrev registration_history :
    Reach clock fs (empty policy) (register clock fs request "unix_uid:501" 0 (empty policy)).1
registration_history = next here (registers request "unix_uid:501" 0)

sockets_example : IsConfined fs policy (register clock fs request "unix_uid:501" 0 (empty policy)).1
sockets_example =
    Reach-IsConfined fs clock policy (register clock fs request "unix_uid:501" 0 (empty policy)).1
      registration_history

-- The registry that the first registration leaves.
pub registry-IsValid : IsValid registry
registry-IsValid =
    subst (λ out. IsValid out.1) registered_alpha
      (Reach-IsValid clock fs policy registration_history)

abbrev later : Reach clock fs registry (expire_leases 40_000_000_000 registry).1
later = next here (expires 40_000_000_000)

owner_example : StaysOwned "alpha" alpha (expire_leases 40_000_000_000 registry).1
unfolding lookup
owner_example = Reach-StaysOwned clock fs later "alpha" alpha refl

-- The owner registers the target again.
admitted_example :
    Verdict fs request "unix_uid:501" 5 registry clock
      (register clock fs request "unix_uid:501" 5 registry)
admitted_example = register_lem fs request "unix_uid:501" 5 registry clock registry-IsValid

expiry_example :
    let (count, g') = expire_leases 40_000_000_000 registry in
    let found = lookup "alpha" registry.registrations in
    ((HasRunOut 40_000_000_000 found
        × (lookup "alpha" g'.registrations
            ≡ Option.map {A = TargetProcessRegistration}
                (λ r. record r { registration_state = RegistrationState.expired })
                found)
        × (lookup "alpha" g'.connections
            ≡ Option.map {A = TargetProcessConnection}
                (λ c. record c { state = ConnectionState.expired; updated_at = 40_000_000_000 })
                (lookup "alpha" registry.connections)))
      ⊎ ((¬ HasRunOut 40_000_000_000 found)
          × (lookup "alpha" g'.registrations ≡ found)
          × (lookup "alpha" g'.connections ≡ lookup "alpha" registry.connections)))
    × Tally 40_000_000_000 registry.registrations count
expiry_example = expire_leases_cases 40_000_000_000 registry "alpha" registry-IsValid

lease_example :
    (alpha.target_id ≡ request.target_id)
    × (alpha.owner_identity ≡ "unix_uid:501")
    × (alpha.expires_at ≡ 0 + request.lease_seconds * 1_000_000_000)
    × (ensure_target_active request.target_id 0 registry ≡ ok tt)
lease_example =
    register-active clock fs clock-IsLawful request "unix_uid:501" 0 (empty policy) registry alpha
      (omega arith) registered_alpha

shown_example : ensure_target_active "alpha" 5 registry ≡ ok tt
unfolding active_targets
shown_example = (active_targets_iff "alpha" 5 registry registry-IsValid).0 refl

-- The lease of the target has run out before it is renewed.
renewed_example :
    let (result, g') =
      renew clock "alpha" 50_000_000_000 (expire_leases 40_000_000_000 registry).1 in
    (result ≡ ok tt)
    × (ensure_target_active "alpha" 50_000_000_000 g' ≡ ok tt)
    × (connection_state "alpha" g'
        ≡ connection_state "alpha" (expire_leases 40_000_000_000 registry).1)
unfolding lookup expire_leases
renewed_example =
    renew-connection_state clock "alpha" 50_000_000_000 (expire_leases 40_000_000_000 registry).1
      (expire_registration 40_000_000_000 alpha) 80_000_000_000 refl refl (omega arith)

lease_moves_example :
    Moves clock
      (leases registry)
      (to_sweep 40_000_000_000 ∷ [])
      (leases (expire_leases 40_000_000_000 registry).1)
lease_moves_example = Reach-Moves clock fs later

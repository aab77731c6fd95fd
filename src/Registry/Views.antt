-- ===== src/Registry/Views.antt =====
-- What the queries of src/registry.rs agree on.
use rust_supervisor_relay.Base.{
  ℕ, ◌+◌, ◌≡◌, refl, ◌∙◌, inl, inr, ◌↔◌, Bool, true, false, Option, none, some, String, [], ◌∷◌,
  map, keep, length, length-map, arith, lookup, HashMap, ◌==◌, Bool-cases, All, All-map, any, subst,
  lookup-modify, ◌<◌, eq_refl, NodupKeys, eq_iff,
}
use rust_supervisor_relay.Error.{ok}
use rust_supervisor_relay.Time.{OffsetDateTime, Clock}
use rust_supervisor_relay.Registry.{
  TargetProcessRegistration, TargetProcessConnection, TargetProcessRegistry, AvailabilitySummary,
  ConnectionState, registered, disconnected, connecting, connected, reconnecting, unavailable,
  connection_state, active, is_live, active_registration_count, active_targets, visible,
  ensure_target_active, summarize, availability_summary, count_connection,
}
use rust_supervisor_relay.Registry.Register.{lease_end}
use rust_supervisor_relay.Registry.Lease.{renew, with_registration}
use rust_supervisor_relay.Registry.Invariant.{IsValid}

-- The count of active registrations is the number of targets that a dashboard is shown.
pub active_registration_count_lem :
    (now : OffsetDateTime) (g : TargetProcessRegistry)
    → active_registration_count now g ≡ length (active_targets now g)
unfolding active_registration_count active_targets
active_registration_count_lem now g = omega (arith, length-map _ _)

abbrev counted : AvailabilitySummary → ℕ
counted s = s.registered + s.connected + s.reconnecting + s.unavailable + s.expired

count_connection-counted :
    (state : ConnectionState) (s : AvailabilitySummary)
    → (counted (count_connection state s) ≡ counted s + 1)
      × ((count_connection state s).total ≡ s.total)
unfolding count_connection
count_connection-counted registered s = (omega arith, refl)
count_connection-counted disconnected s = (omega arith, refl)
count_connection-counted connecting s = (omega arith, refl)
count_connection-counted connected s = (omega arith, refl)
count_connection-counted reconnecting s = (omega arith, refl)
count_connection-counted unavailable s = (omega arith, refl)
count_connection-counted ConnectionState.expired s = (omega arith, refl)

summarize-counted :
    (connections : HashMap TargetProcessConnection) (s : AvailabilitySummary)
    → (counted (summarize connections s) ≡ counted s + length connections)
      × ((summarize connections s).total ≡ s.total)
unfolding summarize
summarize-counted [] s = (omega arith, refl)
summarize-counted ((_, c) ∷ connections) s =
    let (a, b) = summarize-counted connections (count_connection c.state s) in
    let (d, e) = count_connection-counted c.state s in (omega (arith, a, d), b ∙ e)

-- The summary counts every connection in exactly one of its fields.
pub availability_summary_lem :
    (g : TargetProcessRegistry)
    → let s = availability_summary g in
      (s.total ≡ length g.connections)
      × (s.registered + s.connected + s.reconnecting + s.unavailable + s.expired ≡ s.total)
unfolding availability_summary
availability_summary_lem g =
    let (a, b) = summarize-counted g.connections (record {
      total = length g.connections;
      registered = 0;
      connected = 0;
      reconnecting = 0;
      unavailable = 0;
      expired = 0;
    }) in
    (b, omega (arith, a, b))

-- Whether a lookup found a live registration.
abbrev live_at : OffsetDateTime → Option TargetProcessRegistration → Bool
live_at now none = false
live_at now (some r) = is_live now r

shown_iff :
    (connections : HashMap TargetProcessConnection) (now : OffsetDateTime) (k : String)
    → (m : HashMap TargetProcessRegistration) → NodupKeys m
    → All (λ (j, r). r.target_id ≡ j) m
    → any
        (λ v. v.target_id == k)
        (map (λ (_, r). visible connections r) (keep (λ (_, r). is_live now r) m))
      ≡ live_at now (lookup k m)
unfolding lookup
shown_iff connections now k [] u a = refl
shown_iff connections now k ((j, r) ∷ m) u a =
    let rest = shown_iff connections now k m u.1 a.1 in
    elim (Bool-cases (j == k)) [
      | inl q ↦
          let none_left = subst (λ i. lookup i m ≡ none) ((eq_iff j k).0 q) u.0 in
          ground (arith, rest, none_left, a.0, q)
      | inr q ↦ ground (arith, rest, a.0, q)
    ]

-- In a valid registry the targets that a dashboard is shown are exactly those that can be bound.
pub active_targets_iff :
    (k : String) (now : OffsetDateTime) (g : TargetProcessRegistry)
    → IsValid g
    → (any (λ v. v.target_id == k) (active_targets now g) ≡ true)
      ↔ (ensure_target_active k now g ≡ ok tt)
unfolding active_targets ensure_target_active
active_targets_iff k now g v =
    let named = All-map (λ (j, r) a. a.named) g.registrations v.accepted in
    let shown = shown_iff g.connections now k g.registrations v.nodup_registrations named in
    (λ h. ground (arith, shown, h), λ h. ground (arith, shown, h))

abbrev renewed :
    OffsetDateTime → OffsetDateTime → String → TargetProcessRegistry → TargetProcessRegistry
renewed now until k g =
    with_registration k (λ r. record r { expires_at = until; registration_state = active })
      (with_registration k (λ r. record r { renewed_at = now }) g)

renew-renewed :
    (clock : Clock) (k : String) (now : OffsetDateTime) (g : TargetProcessRegistry)
    → (r : TargetProcessRegistration) (until : OffsetDateTime) → lookup k g.registrations ≡ some r
    → lease_end clock now r.lease_seconds ≡ some until
    → renew clock k now g ≡ (ok tt, renewed now until k g)
unfolding renew
renew-renewed clock k now g r until e l = ground arith

-- Renewing a registered target, when the end of the new lease is in the clock's range and lies
-- ahead, makes the target active, also where it had expired, and leaves the state of its connection
-- as it is, also where that is `Expired`.
pub renew-connection_state :
    (clock : Clock) (k : String) (now : OffsetDateTime) (g : TargetProcessRegistry)
    → (r : TargetProcessRegistration) (until : OffsetDateTime) → lookup k g.registrations ≡ some r
    → lease_end clock now r.lease_seconds ≡ some until
    → now < until
    → let (result, g') = renew clock k now g in
      (result ≡ ok tt)
      × (ensure_target_active k now g' ≡ ok tt)
      × (connection_state k g' ≡ connection_state k g)
unfolding ensure_target_active connection_state
renew-connection_state clock k now g r until e l h = rw (renew-renewed clock k now g r until e l) (
  refl,
  ground (
    arith,
    lookup-modify k k (λ r. record r { expires_at = until; registration_state = active })
        (with_registration k (λ r. record r { renewed_at = now }) g).registrations,
    lookup-modify k k (λ r. record r { renewed_at = now }) g.registrations,
    eq_refl k,
  ),
  refl,
)

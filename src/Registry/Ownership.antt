-- ===== src/Registry/Ownership.antt =====
-- A target id stays with the identity that registered it first.
use rust_supervisor_relay.Base.{
  ◌≡◌, refl, ◌∙◌, some, String, arith, eq_iff, ◌==◌, HashMap, lookup, insert, modify, lookup-insert,
  lookup-modify, lookup-map_values, Bool-cases, Option-cases, inl, inr,
}
use rust_supervisor_relay.Time.{OffsetDateTime, Clock}
use rust_supervisor_relay.Paths.{FileSystem}
use rust_supervisor_relay.Registration.{RegistrationRequest}
use rust_supervisor_relay.Registry.{
  active, TargetProcessRegistration, TargetProcessConnection, TargetProcessRegistry,
}
use rust_supervisor_relay.Registry.Register.{register, lease_end}
use rust_supervisor_relay.Registry.Lease.{renew, expire_leases, expire_registration}
use rust_supervisor_relay.Registry.Link.{
  connection_mut, begin_binding, mark_connected, mark_reconnecting, mark_unavailable,
  update_sequence,
}
use rust_supervisor_relay.Registry.Outcome.{refused, overflowed, inserted, updated, register_cases}
use rust_supervisor_relay.Registry.Expiry.{expire_loop-registrations}
use rust_supervisor_relay.Registry.Reach.{
  Step, registers, renews, expires, begins, connects, reconnects, fails, advances, Reach, here,
  next,
}

-- The target is still there, with the owner and the time of its first registration.
abbrev pub StaysOwned : String → TargetProcessRegistration → TargetProcessRegistry → Type 0
StaysOwned k r h =
    (s : TargetProcessRegistration) × (lookup k h.registrations ≡ some s)
    × (s.owner_identity ≡ r.owner_identity)
    × (s.registered_at ≡ r.registered_at)

module _ (k : String) (r : TargetProcessRegistration) where
  written_over :
      (j : String) (s : TargetProcessRegistration) (m : HashMap TargetProcessRegistration)
      → lookup k m ≡ some r
      → ((j ≡ k) → (s.owner_identity ≡ r.owner_identity) × (s.registered_at ≡ r.registered_at))
      → (t : TargetProcessRegistration) × (lookup k (insert j s m) ≡ some t)
        × (t.owner_identity ≡ r.owner_identity)
        × (t.registered_at ≡ r.registered_at)
  written_over j s m e h = elim (Bool-cases (j == k)) [
    | inl p ↦ let (o, t) = h ((eq_iff j k).0 p) in (s, ground (arith, lookup-insert j k s m), o, t)
    | inr p ↦ (r, ground (arith, lookup-insert j k s m), refl, refl)
  ]

  written_in_place :
      (j : String) (f : TargetProcessRegistration → TargetProcessRegistration)
      → (m : HashMap TargetProcessRegistration) → lookup k m ≡ some r
      → (f r).owner_identity ≡ r.owner_identity
      → (f r).registered_at ≡ r.registered_at
      → (t : TargetProcessRegistration) × (lookup k (modify j f m) ≡ some t)
        × (t.owner_identity ≡ r.owner_identity)
        × (t.registered_at ≡ r.registered_at)
  written_in_place j f m e o t = elim (Bool-cases (j == k)) [
    | inl p ↦ (f r, ground (arith, lookup-modify j k f m), o, t)
    | inr p ↦ (r, ground (arith, lookup-modify j k f m), refl, refl)
  ]

module _ (clock : Clock) (fs : FileSystem) where
  register-StaysOwned :
      (q : RegistrationRequest) (owner_identity : String) (now : OffsetDateTime)
      → (g : TargetProcessRegistry) (k : String) (r : TargetProcessRegistration)
      → lookup k g.registrations ≡ some r
      → StaysOwned k r (register clock fs q owner_identity now g).1
  register-StaysOwned q owner_identity now g k r e =
      elim (register_cases clock fs q owner_identity now g) [
        | refused _ p ↦ rw p (r, e, refl, refl)
        | overflowed _ p ↦ rw p (r, e, refl, refl)
        | inserted key u a f p ↦
            rw p (written_over k r q.target_id _ g.registrations e λ j. ground arith)
        | updated key u existing a f o p ↦
            rw p (written_over k r q.target_id _ g.registrations e λ j. ground arith)
      ]

  connection_mut-StaysOwned :
      (j : String) (f : TargetProcessConnection → TargetProcessConnection)
      → (g : TargetProcessRegistry) (k : String) (r : TargetProcessRegistration)
      → lookup k g.registrations ≡ some r
      → StaysOwned k r (connection_mut j f g).1
  unfolding connection_mut
  connection_mut-StaysOwned j f g k r e = (r, ground arith, refl, refl)

  renew-StaysOwned :
      (j : String) (now : OffsetDateTime) (g : TargetProcessRegistry)
      → (k : String) (r : TargetProcessRegistration) → lookup k g.registrations ≡ some r
      → StaysOwned k r (renew clock j now g).1
  unfolding renew
  renew-StaysOwned j now g k r e = elim (Option-cases (lookup j g.registrations)) [
    | inl n ↦ rw n (r, e, refl, refl)
    | inr (s, n) ↦
        let (t, p, o, a) =
          written_in_place k r j (λ r. record r { renewed_at = now }) g.registrations e refl refl in
        elim (Option-cases (lease_end clock now s.lease_seconds)) [
          | inl x ↦ rw (n, x) (t, p, o, a)
          | inr (u, x) ↦
              let (t', p', o', a') =
                written_in_place k t j
                  (λ r. record r { expires_at = u; registration_state = active }) _ p refl refl in
              rw (n, x) (t', p', o' ∙ o, a' ∙ a)
        ]
  ]

  expire-StaysOwned :
      (now : OffsetDateTime) (g : TargetProcessRegistry)
      → (k : String) (r : TargetProcessRegistration) → lookup k g.registrations ≡ some r
      → StaysOwned k r (expire_leases now g).1
  unfolding expire_leases
  expire-StaysOwned now g k r e =
      rw (expire_loop-registrations now g.registrations g.connections 0) (
        expire_registration now r,
        rw (lookup-map_values (expire_registration now) k g.registrations, e) refl,
        ground arith,
        ground arith,
      )

  pub Step-StaysOwned :
      {g h : TargetProcessRegistry}
      → Step clock fs g h
      → (k : String) (r : TargetProcessRegistration) → lookup k g.registrations ≡ some r
      → StaysOwned k r h
  unfolding begin_binding mark_connected mark_reconnecting mark_unavailable update_sequence
  Step-StaysOwned {g} (registers q owner_identity now) k r e =
      register-StaysOwned q owner_identity now g k r e
  Step-StaysOwned {g} (renews j now) k r e = renew-StaysOwned j now g k r e
  Step-StaysOwned {g} (expires now) k r e = expire-StaysOwned now g k r e
  Step-StaysOwned {g} (begins j now) k r e = connection_mut-StaysOwned j _ g k r e
  Step-StaysOwned {g} (connects j generation now) k r e = connection_mut-StaysOwned j _ g k r e
  Step-StaysOwned {g} (reconnects j reason now) k r e = connection_mut-StaysOwned j _ g k r e
  Step-StaysOwned {g} (fails j reason now) k r e = connection_mut-StaysOwned j _ g k r e
  Step-StaysOwned {g} (advances j sequence) k r e = (r, e, refl, refl)

  -- Once a target is registered, no history of calls removes it, gives it to another owner or
  -- changes the time of its first registration.
  pub Reach-StaysOwned :
      {g h : TargetProcessRegistry}
      → Reach clock fs g h
      → (k : String) (r : TargetProcessRegistration) → lookup k g.registrations ≡ some r
      → StaysOwned k r h
  Reach-StaysOwned here k r e = (r, e, refl, refl)
  Reach-StaysOwned (next p s) k r e =
      let (t, q, o, a) = Reach-StaysOwned p k r e in
      let (t', q', o', a') = Step-StaysOwned s k t q in (t', q', o' ∙ o, a' ∙ a)

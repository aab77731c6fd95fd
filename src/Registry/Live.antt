-- ===== src/Registry/Live.antt =====
-- What a successful registration gives (src/registry.rs): a lease from now on, for as long as asked.
use rust_supervisor_relay.Base.{
  ℕ, ◌+◌, ◌*◌, ◌^◌, ◌<◌, ◌≡◌, refl, some, String, arith, lookup, lookup-insert, eq_refl, subst,
}
use rust_supervisor_relay.Error.{ok}
use rust_supervisor_relay.Time.{OffsetDateTime, Clock, IsLawful}
use rust_supervisor_relay.Paths.{FileSystem}
use rust_supervisor_relay.Registration.{RegistrationRequest}
use rust_supervisor_relay.Registry.{
  TargetProcessRegistration, TargetProcessRegistry, active, ensure_target_active,
}
use rust_supervisor_relay.Registry.Register.{register, lease_end, registration_of}
use rust_supervisor_relay.Registry.Outcome.{
  refused, overflowed, inserted, updated, register_cases, IsAdmitted,
}
use rust_supervisor_relay.Registry.Invariant.{validate_request_iff}

lease_end_lem :
    (clock : Clock)
    → IsLawful clock
    → (now lease u : ℕ) → lease < 2 ^ 63
    → lease_end clock now lease ≡ some u
    → u ≡ now + lease * 1_000_000_000
lease_end_lem clock l now lease u h e = l.add_seconds_exact now u lease (ground arith)

-- Behind a write of a registration that runs, the target is active.
written_active :
    (g' : TargetProcessRegistry) (k : String) (r : TargetProcessRegistration) (now : OffsetDateTime)
    → lookup k g'.registrations ≡ some r
    → r.registration_state ≡ active
    → now < r.expires_at
    → ensure_target_active k now g' ≡ ok tt
unfolding ensure_target_active
written_active g' k r now e a h = ground arith

module _ (clock : Clock) (fs : FileSystem) where
  abbrev Leased :
      RegistrationRequest
      → String
      → OffsetDateTime
      → TargetProcessRegistration
      → TargetProcessRegistry
      → Type 0
  Leased q owner_identity now r g' =
      (r.target_id ≡ q.target_id)
      × (r.owner_identity ≡ owner_identity)
      × (r.expires_at ≡ now + q.lease_seconds * 1_000_000_000)
      × (ensure_target_active q.target_id now g' ≡ ok tt)

  leased :
      IsLawful clock
      → (q : RegistrationRequest) (owner_identity : String) (now : OffsetDateTime)
      → (g g' : TargetProcessRegistry) → (key : String) (since u : OffsetDateTime)
      → q.lease_seconds < 2 ^ 63
      → IsAdmitted clock fs q owner_identity now g key u
      → (let r = registration_of q owner_identity key since now u in
          lookup q.target_id g'.registrations ≡ some r)
      → Leased q owner_identity now (registration_of q owner_identity key since now u) g'
  leased l q owner_identity now g g' key since u h a w =
      let e = lease_end_lem clock l now q.lease_seconds u h a.lease in
      let one = ((validate_request_iff g.policy q).0 a.valid).lease_pos in
      (
        refl,
        refl,
        e,
        written_active g' q.target_id (registration_of q owner_identity key since now u) now w refl
            (omega (arith, e, one)),
      )

  -- A registration that succeeds, of a lease below 2^63 seconds and on a clock whose sums are
  -- exact, names its target and owner, ends exactly the lease after now, and makes the target
  -- active.
  pub register-active :
      IsLawful clock
      → (q : RegistrationRequest) (owner_identity : String) (now : OffsetDateTime)
      → (g g' : TargetProcessRegistry) (r : TargetProcessRegistration) → q.lease_seconds < 2 ^ 63
      → register clock fs q owner_identity now g ≡ (ok r, g')
      → (r.target_id ≡ q.target_id)
        × (r.owner_identity ≡ owner_identity)
        × (r.expires_at ≡ now + q.lease_seconds * 1_000_000_000)
        × (ensure_target_active q.target_id now g' ≡ ok tt)
  register-active l q owner_identity now g g' r h e =
      elim (register_cases clock fs q owner_identity now g) [
        | refused x p ↦ absurd (ground arith)
        | overflowed _ p ↦ absurd (ground arith)
        | inserted key u a f p ↦
            let s = registration_of q owner_identity key now now u in
            let b = leased l q owner_identity now g g' key now u h a (
              ground (
                arith,
                lookup-insert q.target_id q.target_id s g.registrations,
                eq_refl q.target_id,
              )) in
            let same : s ≡ r = ground arith in subst (λ x. Leased q owner_identity now x g') same b
        | updated key u existing a f o p ↦
            let s = registration_of q owner_identity key existing.registered_at now u in
            let b = leased l q owner_identity now g g' key existing.registered_at u h a (
              ground (
                arith,
                lookup-insert q.target_id q.target_id s g.registrations,
                eq_refl q.target_id,
              )) in
            let same : s ≡ r = ground arith in subst (λ x. Leased q owner_identity now x g') same b
      ]

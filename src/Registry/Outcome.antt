-- ===== src/Registry/Outcome.antt =====
-- The ways in which `register` can end.
use rust_supervisor_relay.Base.{
  ◌≡◌, ◌≢◌, inl, inr, false, none, some, String, any, arith, eq_iff, ◌==◌, not, lookup, Bool-cases,
  Option-cases,
}
use rust_supervisor_relay.Error.{RelayError, RelayResult, ok, err, panic, RelayResult-cases}
use rust_supervisor_relay.Time.{OffsetDateTime, Clock}
use rust_supervisor_relay.Paths.{FileSystem}
use rust_supervisor_relay.Config.{RegistrationPolicy}
use rust_supervisor_relay.Registration.{RegistrationRequest}
use rust_supervisor_relay.Registry.{TargetProcessRegistration, TargetProcessRegistry}
use rust_supervisor_relay.Registry.Validate.{validate_request, normalize_ipc_path_key}
use rust_supervisor_relay.Registry.Register.{
  holds_path, registration_of, connection_of, moved, add_target, update_target, lease_end, register,
  owner_mismatch, path_conflict,
}

pub validate_request-ne-panic :
    (policy : RegistrationPolicy) (q : RegistrationRequest) → validate_request policy q ≢ panic
unfolding validate_request
validate_request-ne-panic policy q h = ground arith

pub normalize_ipc_path_key-ne-panic :
    (fs : FileSystem) (now : OffsetDateTime) (path : String)
    → normalize_ipc_path_key fs now path ≢ panic
unfolding normalize_ipc_path_key
normalize_ipc_path_key-ne-panic fs now path h = ground arith

module _ (clock : Clock) (fs : FileSystem) (q : RegistrationRequest) (owner_identity : String)
    (now : OffsetDateTime) (g : TargetProcessRegistry) where
  -- The checks that both kinds of success have passed.
  pub record IsAdmitted (key : String) (u : OffsetDateTime) : Type 0 where
    pub valid : validate_request g.policy q ≡ ok tt
    pub normal : normalize_ipc_path_key fs now q.ipc_path ≡ ok key
    pub free : any (holds_path q.target_id key) g.registrations ≡ false
    pub lease : lease_end clock now q.lease_seconds ≡ some u

  pub data Registers (out : RelayResult TargetProcessRegistration × TargetProcessRegistry)
      : Type 0 where
    refused : (e : RelayError) → out ≡ (err e, g) → Registers out
    overflowed : lease_end clock now q.lease_seconds ≡ none → out ≡ (panic, g) → Registers out
    inserted :
        (key : String) (u : OffsetDateTime)
        → IsAdmitted key u
        → lookup q.target_id g.registrations ≡ none
        → (let r = registration_of q owner_identity key now now u in
            out ≡ (ok r, add_target r (connection_of q now) g))
        → Registers out
    updated :
        (key : String) (u : OffsetDateTime) (existing : TargetProcessRegistration)
        → IsAdmitted key u
        → lookup q.target_id g.registrations ≡ some existing
        → existing.owner_identity ≡ owner_identity
        → (let r = registration_of q owner_identity key existing.registered_at now u in
            out
            ≡ (ok r, update_target r (moved (not (existing.ipc_path_key == key)) q.ipc_path now) g))
        → Registers out

  abbrev outcome : RelayResult TargetProcessRegistration × TargetProcessRegistry
  outcome = register clock fs q owner_identity now g

  fresh_cases :
      (key : String)
      → validate_request g.policy q ≡ ok tt
      → normalize_ipc_path_key fs now q.ipc_path ≡ ok key
      → lookup q.target_id g.registrations ≡ none
      → Registers outcome
  unfolding register
  fresh_cases key v n f = elim (Bool-cases (any (holds_path q.target_id key) g.registrations)) [
    | inl t ↦ refused path_conflict (ground arith)
    | inr t ↦ elim (Option-cases (lease_end clock now q.lease_seconds)) [
      | inl p ↦ overflowed p (ground arith)
      | inr (u, p) ↦
          inserted key u (record { valid = v; normal = n; free = t; lease = p }) f (ground arith)
    ]
  ]

  known_cases :
      (key : String) (existing : TargetProcessRegistration)
      → validate_request g.policy q ≡ ok tt
      → normalize_ipc_path_key fs now q.ipc_path ≡ ok key
      → lookup q.target_id g.registrations ≡ some existing
      → Registers outcome
  unfolding register
  known_cases key existing v n f = elim (Bool-cases (existing.owner_identity == owner_identity)) [
    | inr o ↦ refused (owner_mismatch q.target_id) (ground arith)
    | inl o ↦ elim (Bool-cases (any (holds_path q.target_id key) g.registrations)) [
      | inl t ↦ refused path_conflict (ground arith)
      | inr t ↦ elim (Option-cases (lease_end clock now q.lease_seconds)) [
        | inl p ↦ overflowed p (ground arith)
        | inr (u, p) ↦
            updated key u existing (record { valid = v; normal = n; free = t; lease = p }) f
              ((eq_iff _ _).0 o) (ground arith)
      ]
    ]
  ]

  -- `register` refuses or panics with the registry unchanged, or adds a target that is new, or
  -- replaces the registration of a target of the same owner.
  pub register_cases : Registers outcome
  unfolding register
  register_cases = elim (RelayResult-cases (validate_request g.policy q)) [
    | inr (inl (e, v)) ↦ refused e (ground arith)
    | inr (inr v) ↦ absurd (validate_request-ne-panic g.policy q v)
    | inl (_, v) ↦ elim (RelayResult-cases (normalize_ipc_path_key fs now q.ipc_path)) [
      | inr (inl (e, n)) ↦ refused e (ground arith)
      | inr (inr n) ↦ absurd (normalize_ipc_path_key-ne-panic fs now q.ipc_path n)
      | inl (key, n) ↦ elim (Option-cases (lookup q.target_id g.registrations)) [
        | inl f ↦ fresh_cases key v n f
        | inr (existing, f) ↦ known_cases key existing v n f
      ]
    ]
  ]

-- ===== src/Registry/Alike.antt =====
-- The operations of src/registry.rs do not see the order in which a hash map iterates.
use rust_supervisor_relay.Base.{
  ◌≡◌, refl, sym, ap, ◌∙◌, inl, inr, ℕ, String, HashMap, any, lookup, Same, any-Same, Same-insert,
  Same-modify, Bool-cases, Option-cases, contains_key,
}
use rust_supervisor_relay.Base.Bag.{length-keep-Same}
use mathlib.Core.Option
use rust_supervisor_relay.Error.{RelayResult, RelayResult-cases}
use rust_supervisor_relay.Time.{OffsetDateTime, Clock}
use rust_supervisor_relay.Paths.{FileSystem}
use rust_supervisor_relay.Registration.{RegistrationRequest}
use rust_supervisor_relay.Registry.{
  TargetProcessRegistration, TargetProcessConnection, TargetProcessRegistry,
}
use rust_supervisor_relay.Registry.Validate.{validate_request, normalize_ipc_path_key}
use rust_supervisor_relay.Registry.Register.{
  owned_by_other, holds_path, lease_end, upsert_existing_registration, insert_registration,
  register,
}
use rust_supervisor_relay.Registry.Lease.{renew, is_due, expire_leases, expire_registration}
use rust_supervisor_relay.Registry.Link.{
  to_connecting, to_connected, to_reconnecting, to_unavailable, connection_mut, begin_binding,
  mark_connected, mark_reconnecting, mark_unavailable, update_sequence,
}
use rust_supervisor_relay.Registry.Invariant.{IsValid}
use rust_supervisor_relay.Registry.Expiry.{expire_leases_lem}
pub mod Link

-- The same policy and the same entries.
pub record Alike (g h : TargetProcessRegistry) : Type 0 where
  pub policy : g.policy ≡ h.policy
  pub registrations : Same g.registrations h.registrations
  pub connections : Same g.connections h.connections

-- The same result, and alike registries behind it.
pub record Agrees {A : Type 0} (r s : RelayResult A × TargetProcessRegistry) : Type 0 where
  pub result : r.0 ≡ s.0
  pub after : Alike r.1 s.1

module _ (clock : Clock) (fs : FileSystem) where
  module _ (q : RegistrationRequest) (owner_identity key : String) (now : OffsetDateTime)
      (g h : TargetProcessRegistry) (a : Alike g h) where
    insert_registration-Agrees :
        Agrees
          (insert_registration clock q owner_identity key now g)
          (insert_registration clock q owner_identity key now h)
    unfolding insert_registration
    insert_registration-Agrees = elim (Option-cases (lease_end clock now q.lease_seconds)) [
      | inl e ↦ rw e (record { result = refl; after = a })
      | inr (end, e) ↦ rw e (record {
        result = refl;
        after = record {
          policy = a.policy;
          registrations = Same-insert q.target_id _ g.registrations h.registrations a.registrations;
          connections = Same-insert q.target_id _ g.connections h.connections a.connections;
        };
      })
    ]

    upsert_existing_registration-Agrees :
        Agrees
          (upsert_existing_registration clock q owner_identity key now g)
          (upsert_existing_registration clock q owner_identity key now h)
    unfolding upsert_existing_registration
    upsert_existing_registration-Agrees = elim (Option-cases (lookup q.target_id g.registrations)) [
      | inl n ↦ rw (n, sym (a.registrations q.target_id) ∙ n) (record { result = refl; after = a })
      | inr (existing, n) ↦ elim (Option-cases (lease_end clock now q.lease_seconds)) [
        | inl e ↦
            rw (n, sym (a.registrations q.target_id) ∙ n, e) (record { result = refl; after = a })
        | inr (end, e) ↦
            rw (n, sym (a.registrations q.target_id) ∙ n, e)
              (record {
                result = refl;
                after = record {
                  policy = a.policy;
                  registrations =
                      Same-insert q.target_id _ g.registrations h.registrations a.registrations;
                  connections = Same-modify q.target_id _ g.connections h.connections a.connections;
                };
              })
      ]
    ]

  pub register-Agrees :
      (q : RegistrationRequest) (owner_identity : String) (now : OffsetDateTime)
      → (g h : TargetProcessRegistry) → IsValid g
      → IsValid h
      → Alike g h
      → Agrees (register clock fs q owner_identity now g) (register clock fs q owner_identity now h)
  unfolding register
  register-Agrees q owner_identity now g h v w a =
      let p = ap (λ policy. validate_request policy q) (sym a.policy) in
      let l = sym (a.registrations q.target_id) in
      elim (RelayResult-cases (validate_request g.policy q)) [
        | inr (inl (e, x)) ↦ rw (x, p ∙ x) (record { result = refl; after = a })
        | inr (inr x) ↦ rw (x, p ∙ x) (record { result = refl; after = a })
        | inl (u, x) ↦ elim (RelayResult-cases (normalize_ipc_path_key fs now q.ipc_path)) [
          | inr (inl (e, y)) ↦ rw (x, p ∙ x, y) (record { result = refl; after = a })
          | inr (inr y) ↦ rw (x, p ∙ x, y) (record { result = refl; after = a })
          | inl (key, y) ↦
              let c = sym (
                any-Same (holds_path q.target_id key) g.registrations h.registrations
                  v.nodup_registrations w.nodup_registrations a.registrations) in
              elim (Bool-cases
                (owned_by_other (lookup q.target_id g.registrations) owner_identity)) [
                  | inl o ↦ rw (x, p ∙ x, y, l, o) (record { result = refl; after = a })
                  | inr o ↦ elim (Bool-cases (any (holds_path q.target_id key) g.registrations)) [
                    | inl k ↦ rw (x, p ∙ x, y, l, o, c, k) (record { result = refl; after = a })
                    | inr k ↦ elim (Bool-cases (contains_key q.target_id g.registrations)) [
                      | inl n ↦
                          rw (x, p ∙ x, y, l, o, c, k, n)
                            (upsert_existing_registration-Agrees q owner_identity key now g h a)
                      | inr n ↦
                          rw (x, p ∙ x, y, l, o, c, k, n)
                            (insert_registration-Agrees q owner_identity key now g h a)
                    ]
                  ]
                ]
        ]
      ]

  pub renew-Agrees :
      (k : String) (now : OffsetDateTime) (g h : TargetProcessRegistry)
      → Alike g h
      → Agrees (renew clock k now g) (renew clock k now h)
  unfolding renew
  renew-Agrees k now g h a =
      let l = sym (a.registrations k) in
      let write =
        λ (f : TargetProcessRegistration → TargetProcessRegistration)
            (m n : HashMap TargetProcessRegistration) (s : Same m n).
          Same-modify k f m n s in
      elim (Option-cases (lookup k g.registrations)) [
        | inl e ↦ rw (e, l ∙ e) (record { result = refl; after = a })
        | inr (r, e) ↦ elim (Option-cases (lease_end clock now r.lease_seconds)) [
          | inl x ↦
              rw (e, l ∙ e, x)
                (record {
                  result = refl;
                  after = record {
                    policy = a.policy;
                    registrations = write _ _ _ a.registrations;
                    connections = a.connections;
                  };
                })
          | inr (end, x) ↦
              rw (e, l ∙ e, x)
                (record {
                  result = refl;
                  after = record {
                    policy = a.policy;
                    registrations = write _ _ _ (write _ _ _ a.registrations);
                    connections = a.connections;
                  };
                })
        ]
      ]

expire_leases_policy :
    (now : OffsetDateTime) (g : TargetProcessRegistry) → (expire_leases now g).1.policy ≡ g.policy
unfolding expire_leases
expire_leases_policy now g = refl

pub expire_leases-Alike :
    (now : OffsetDateTime) (g h : TargetProcessRegistry)
    → IsValid g
    → IsValid h
    → Alike g h
    → ((expire_leases now g).0 ≡ (expire_leases now h).0)
      × Alike (expire_leases now g).1 (expire_leases now h).1
expire_leases-Alike now g h v w a =
    let count = λ (x : TargetProcessRegistry) (u : IsValid x). (expire_leases_lem now x "" u).2 in
    (
      count g v
          ∙ length-keep-Same (λ (_, r). is_due now r) g.registrations h.registrations
              v.nodup_registrations w.nodup_registrations a.registrations
          ∙ sym (count h w),
      record {
        policy = expire_leases_policy now g ∙ a.policy ∙ sym (expire_leases_policy now h);
        registrations = λ k.
            (expire_leases_lem now g k v).0
            ∙ ap (Option.map (expire_registration now)) (a.registrations k)
            ∙ sym (expire_leases_lem now h k w).0;
        connections = λ k.
            (expire_leases_lem now g k v).1
            ∙ rw (a.registrations k, a.connections k) refl
            ∙ sym (expire_leases_lem now h k w).1;
      },
    )

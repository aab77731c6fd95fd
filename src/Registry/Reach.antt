-- ===== src/Registry/Reach.antt =====
-- The registry as a state machine: every operation that src/registry.rs offers is a step, with any
-- arguments and at any time, and the invariant holds after any history.
use rust_supervisor_relay.Base.{ℕ, refl, String, lookup, inl, inr, Option-cases}
use rust_supervisor_relay.Time.{OffsetDateTime, Clock}
use rust_supervisor_relay.Paths.{FileSystem}
use rust_supervisor_relay.Config.{RegistrationPolicy}
use rust_supervisor_relay.Registration.{RegistrationRequest}
use rust_supervisor_relay.Registry.{TargetProcessConnection, TargetProcessRegistry, empty}
use rust_supervisor_relay.Registry.Register.{register, lease_end}
use rust_supervisor_relay.Registry.Lease.{renew, expire_leases}
use rust_supervisor_relay.Registry.Link.{
  connection_mut, begin_binding, mark_connected, mark_reconnecting, mark_unavailable,
  update_sequence,
}
use rust_supervisor_relay.Registry.Invariant.{IsValid, empty-IsValid}
use rust_supervisor_relay.Registry.Preserve.{
  KeepsConnection, with_connection-IsValid, with_registration-IsValid,
}
use rust_supervisor_relay.Registry.Admit.{register-IsValid}
use rust_supervisor_relay.Registry.Expiry.{expire_leases-IsValid}

connection_mut-IsValid :
    (k : String) (f : TargetProcessConnection → TargetProcessConnection)
    → KeepsConnection f
    → (g : TargetProcessRegistry) → IsValid g
    → IsValid (connection_mut k f g).1
unfolding connection_mut
connection_mut-IsValid k f h g v = elim (Option-cases (lookup k g.connections)) [
  | inl e ↦ rw e v
  | inr (c, e) ↦ rw e (with_connection-IsValid g v k f h)
]

pub begin_binding-IsValid :
    (k : String) (now : OffsetDateTime) (g : TargetProcessRegistry)
    → IsValid g
    → IsValid (begin_binding k now g).1
unfolding begin_binding
begin_binding-IsValid k now g v = connection_mut-IsValid k _ (λ c. (refl, refl)) g v

pub mark_connected-IsValid :
    (k : String) (generation : ℕ) (now : OffsetDateTime) (g : TargetProcessRegistry)
    → IsValid g
    → IsValid (mark_connected k generation now g).1
unfolding mark_connected
mark_connected-IsValid k generation now g v = connection_mut-IsValid k _ (λ c. (refl, refl)) g v

pub mark_unavailable-IsValid :
    (k reason : String) (now : OffsetDateTime) (g : TargetProcessRegistry)
    → IsValid g
    → IsValid (mark_unavailable k reason now g)
unfolding mark_unavailable
mark_unavailable-IsValid k reason now g v = connection_mut-IsValid k _ (λ c. (refl, refl)) g v

mark_reconnecting-IsValid :
    (k reason : String) (now : OffsetDateTime) (g : TargetProcessRegistry)
    → IsValid g
    → IsValid (mark_reconnecting k reason now g)
unfolding mark_reconnecting
mark_reconnecting-IsValid k reason now g v = connection_mut-IsValid k _ (λ c. (refl, refl)) g v

update_sequence-IsValid :
    (k : String) (sequence : ℕ) (g : TargetProcessRegistry)
    → IsValid g
    → IsValid (update_sequence k sequence g).1
unfolding update_sequence
update_sequence-IsValid k sequence g v = with_connection-IsValid g v k _ (λ c. (refl, refl))

module _ (clock : Clock) (fs : FileSystem) where
  renew-IsValid :
      (k : String) (now : OffsetDateTime) (g : TargetProcessRegistry)
      → IsValid g
      → IsValid (renew clock k now g).1
  unfolding renew
  renew-IsValid k now g v = elim (Option-cases (lookup k g.registrations)) [
    | inl e ↦ rw e v
    | inr (r, e) ↦
        let v' =
          with_registration-IsValid g v k (λ r. record r { renewed_at = now })
            (λ r. (refl, refl, refl, refl, refl)) in
        elim (Option-cases (lease_end clock now r.lease_seconds)) [
          | inl p ↦ rw (e, p) v'
          | inr (u, p) ↦
              rw (e, p) (with_registration-IsValid _ v' k _ (λ r. (refl, refl, refl, refl, refl)))
        ]
  ]

  -- One call of the registry.
  pub data Step (g : TargetProcessRegistry) : TargetProcessRegistry → Type 0 where
    registers :
        (q : RegistrationRequest) (owner_identity : String) (now : OffsetDateTime)
        → Step g (register clock fs q owner_identity now g).1
    renews : (k : String) (now : OffsetDateTime) → Step g (renew clock k now g).1
    expires : (now : OffsetDateTime) → Step g (expire_leases now g).1
    begins : (k : String) (now : OffsetDateTime) → Step g (begin_binding k now g).1
    connects :
        (k : String) (generation : ℕ) (now : OffsetDateTime)
        → Step g (mark_connected k generation now g).1
    reconnects :
        (k reason : String) (now : OffsetDateTime) → Step g (mark_reconnecting k reason now g)
    fails : (k reason : String) (now : OffsetDateTime) → Step g (mark_unavailable k reason now g)
    advances : (k : String) (sequence : ℕ) → Step g (update_sequence k sequence g).1

  -- A history of calls.
  pub data Reach (g : TargetProcessRegistry) : TargetProcessRegistry → Type 0 where
    here : Reach g g
    next : {h k : TargetProcessRegistry} → Reach g h → Step h k → Reach g k

  pub Reach_trans : {g h k : TargetProcessRegistry} → Reach g h → Reach h k → Reach g k
  Reach_trans p here = p
  Reach_trans p (next q s) = next (Reach_trans p q) s

  pub Step-IsValid : {g h : TargetProcessRegistry} → Step g h → IsValid g → IsValid h
  Step-IsValid {g} (registers q owner_identity now) v =
      register-IsValid clock fs q owner_identity now g v
  Step-IsValid {g} (renews k now) v = renew-IsValid k now g v
  Step-IsValid {g} (expires now) v = expire_leases-IsValid now g v
  Step-IsValid {g} (begins k now) v = begin_binding-IsValid k now g v
  Step-IsValid {g} (connects k generation now) v = mark_connected-IsValid k generation now g v
  Step-IsValid {g} (reconnects k reason now) v = mark_reconnecting-IsValid k reason now g v
  Step-IsValid {g} (fails k reason now) v = mark_unavailable-IsValid k reason now g v
  Step-IsValid {g} (advances k sequence) v = update_sequence-IsValid k sequence g v

  pub Reach-keeps : {g h : TargetProcessRegistry} → Reach g h → IsValid g → IsValid h
  Reach-keeps here v = v
  Reach-keeps (next r s) v = Step-IsValid s (Reach-keeps r v)

  -- From the empty registry every history of calls, with any arguments and at any times, leads to a
  -- valid registry: both maps list the same targets, every registration satisfies the policy and no
  -- two have the same path key.
  pub Reach-IsValid :
      (policy : RegistrationPolicy) {g : TargetProcessRegistry} → Reach (empty policy) g → IsValid g
  Reach-IsValid policy r = Reach-keeps r (empty-IsValid policy)

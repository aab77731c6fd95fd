-- ===== src/Registry/Preserve.antt =====
-- The writes of the registry's operations keep its invariant.
use rust_supervisor_relay.Base.{
  ◌≡◌, ◌∙◌, sym, Option, none, some, String, arith, ◌==◌, HashMap, lookup, modify, lookup-modify,
  modify-NodupKeys, All-modify, Bool-cases, Option-cases, inl, inr,
}
use mathlib.Core.Option
use rust_supervisor_relay.Config.{RegistrationPolicy}
use rust_supervisor_relay.Registry.{
  TargetProcessRegistration, TargetProcessConnection, TargetProcessRegistry,
}
use rust_supervisor_relay.Registry.Lease.{with_registration}
use rust_supervisor_relay.Registry.Link.{with_connection}
use rust_supervisor_relay.Registry.Invariant.{IsAccepted, Linked, IsValid}

-- A write to a connection that leaves its target and its socket alone.
abbrev pub KeepsConnection : (TargetProcessConnection → TargetProcessConnection) → Type 0
KeepsConnection f =
    (c : TargetProcessConnection) → ((f c).target_id ≡ c.target_id) × ((f c).ipc_path ≡ c.ipc_path)

-- A write to a registration that changes only its times and its state.
abbrev pub KeepsRegistration : (TargetProcessRegistration → TargetProcessRegistration) → Type 0
KeepsRegistration f =
    (r : TargetProcessRegistration)
    → ((f r).target_id ≡ r.target_id)
      × ((f r).ipc_path ≡ r.ipc_path)
      × ((f r).ipc_path_key ≡ r.ipc_path_key)
      × ((f r).lease_seconds ≡ r.lease_seconds)
      × ((f r).supported_commands ≡ r.supported_commands)

Linked-map_connection :
    (f : TargetProcessConnection → TargetProcessConnection)
    → KeepsConnection f
    → (r : Option TargetProcessRegistration) (c : Option TargetProcessConnection) → Linked r c
    → Linked r (Option.map f c)
Linked-map_connection f h none none l = tt
Linked-map_connection f h none (some c) l = l
Linked-map_connection f h (some r) none l = l
Linked-map_connection f h (some r) (some c) l = ((h c).0 ∙ l.0, (h c).1 ∙ l.1)

Linked-map_registration :
    (f : TargetProcessRegistration → TargetProcessRegistration)
    → KeepsRegistration f
    → (r : Option TargetProcessRegistration) (c : Option TargetProcessConnection) → Linked r c
    → Linked (Option.map f r) c
Linked-map_registration f h none none l = tt
Linked-map_registration f h none (some c) l = l
Linked-map_registration f h (some r) none l = l
Linked-map_registration f h (some r) (some c) l = (l.0 ∙ sym ((h r).0), l.1 ∙ sym ((h r).1))

IsAccepted-keeps :
    {policy : RegistrationPolicy} (f : TargetProcessRegistration → TargetProcessRegistration)
    → KeepsRegistration f
    → (k : String) (r : TargetProcessRegistration) → IsAccepted policy k r
    → IsAccepted policy k (f r)
IsAccepted-keeps f h k r a =
    let (named, path, _, lease, commands) = h r in
    record { named = named ∙ a.named; acceptable = rw (path, lease, commands) a.acceptable }

-- The registration that a written one comes from.
lookup-modify-some :
    (k j : String) (f : TargetProcessRegistration → TargetProcessRegistration)
    → KeepsRegistration f
    → (m : HashMap TargetProcessRegistration) (r : TargetProcessRegistration)
    → lookup j (modify k f m) ≡ some r
    → (s : TargetProcessRegistration) × (lookup j m ≡ some s) × (s.ipc_path_key ≡ r.ipc_path_key)
lookup-modify-some k j f h m r e = elim (Option-cases (lookup j m)) [
  | inl n ↦ ground (arith, lookup-modify k j f m)
  | inr (s, n) ↦ (s, n, ground (arith, lookup-modify k j f m, h s))
]

module _ (g : TargetProcessRegistry) (v : IsValid g) where
  pub with_connection-IsValid :
      (k : String) (f : TargetProcessConnection → TargetProcessConnection)
      → KeepsConnection f
      → IsValid (with_connection k f g)
  with_connection-IsValid k f h = record {
    nodup_registrations = v.nodup_registrations;
    nodup_connections = modify-NodupKeys k f g.connections v.nodup_connections;
    accepted = v.accepted;
    linked = λ j. rw (lookup-modify k j f g.connections) (elim (Bool-cases (k == j)) [
      | inl e ↦ rw e (Linked-map_connection f h _ _ (v.linked j))
      | inr e ↦ rw e (v.linked j)
    ]);
    distinct = v.distinct;
  }

  pub with_registration-IsValid :
      (k : String) (f : TargetProcessRegistration → TargetProcessRegistration)
      → KeepsRegistration f
      → IsValid (with_registration k f g)
  with_registration-IsValid k f h = record {
    nodup_registrations = modify-NodupKeys k f g.registrations v.nodup_registrations;
    nodup_connections = v.nodup_connections;
    accepted = All-modify _ k f g.registrations (λ j r a. IsAccepted-keeps f h j r a) v.accepted;
    linked = λ j. rw (lookup-modify k j f g.registrations) (elim (Bool-cases (k == j)) [
      | inl e ↦ rw e (Linked-map_registration f h _ _ (v.linked j))
      | inr e ↦ rw e (v.linked j)
    ]);
    distinct = λ i j r s p q e.
        let (r', p', c) = lookup-modify-some k i f h g.registrations r p in
        let (s', q', d) = lookup-modify-some k j f h g.registrations s q in
        v.distinct i j r' s' p' q' (c ∙ e ∙ sym d);
  }

-- ===== src/Registry/Admit.antt =====
-- `register` keeps the registry's invariant, however it ends.
use rust_supervisor_relay.Base.{
  ◌≡◌, refl, ◌∙◌, sym, Bool, true, false, Option, none, some, String, any, arith, eq_iff, eq_refl,
  ◌==◌, HashMap, lookup, NodupKeys, insert, modify, lookup-insert, lookup-modify, insert-NodupKeys,
  modify-NodupKeys, All-insert, All-lookup, lookup→In, In→any, Bool-cases, inl, inr, if◌then◌else◌,
}
use mathlib.Core.Option
use rust_supervisor_relay.Time.{OffsetDateTime, Clock}
use rust_supervisor_relay.Paths.{FileSystem}
use rust_supervisor_relay.Registration.{RegistrationRequest}
use rust_supervisor_relay.Registry.{
  TargetProcessRegistration, TargetProcessConnection, TargetProcessRegistry,
}
use rust_supervisor_relay.Registry.Register.{
  holds_path, registration_of, connection_of, moved, add_target, update_target, register,
}
use rust_supervisor_relay.Registry.Outcome.{
  IsAdmitted, refused, overflowed, inserted, updated, register_cases,
}
use rust_supervisor_relay.Registry.Invariant.{IsAccepted, Linked, IsValid, validate_request_iff}

-- A path that no other target holds belongs at most to the target itself.
pub holds_path-free :
    (k key : String) (m : HashMap TargetProcessRegistration)
    → any (holds_path k key) m ≡ false
    → (j : String) (s : TargetProcessRegistration) → lookup j m ≡ some s
    → s.ipc_path_key ≡ key
    → k ≡ j
holds_path-free k key m free j s e p = elim (Bool-cases (j == k)) [
  | inl q ↦ sym ((eq_iff j k).0 q)
  | inr q ↦ cc (
      sym free
      ∙ In→any (holds_path k key) (j, s) m (lookup→In j s m e)
          (ground (arith, eq_iff s.ipc_path_key key)))
]

module _ (g : TargetProcessRegistry) (v : IsValid g) (k : String) (r : TargetProcessRegistration)
    (connections : HashMap TargetProcessConnection) (nodup : NodupKeys connections)
    (accepted : IsAccepted g.policy k r) (linked : Linked (some r) (lookup k connections))
    (others : (j : String) → (k == j) ≡ false → lookup j connections ≡ lookup j g.connections)
    (free : any (holds_path k r.ipc_path_key) g.registrations ≡ false) where
  written_distinct :
      (i j : String) (a b : TargetProcessRegistration)
      → (if k == i then some r else lookup i g.registrations) ≡ some a
      → (if k == j then some r else lookup j g.registrations) ≡ some b
      → a.ipc_path_key ≡ b.ipc_path_key
      → i ≡ j
  written_distinct i j a b p q e = ground (
    arith,
    eq_iff k i,
    eq_iff k j,
    holds_path-free k r.ipc_path_key g.registrations free i a,
    holds_path-free k r.ipc_path_key g.registrations free j b,
    v.distinct i j a b,
  )

  -- One target is written over, or added.
  write-IsValid :
      IsValid (record g { registrations = insert k r g.registrations; connections = connections })
  write-IsValid = record {
    nodup_registrations = insert-NodupKeys k r g.registrations v.nodup_registrations;
    nodup_connections = nodup;
    accepted = All-insert _ k r g.registrations accepted v.accepted;
    linked = λ j. rw (lookup-insert k j r g.registrations) (elim (Bool-cases (k == j)) [
      | inl e ↦ rw (e, ← ((eq_iff k j).0 e)) linked
      | inr e ↦ rw (e, others j e) (v.linked j)
    ]);
    distinct = λ i j a b p q.
        written_distinct i j a b (sym (lookup-insert k i r g.registrations) ∙ p)
          (sym (lookup-insert k j r g.registrations) ∙ q);
  }

module _ (clock : Clock) (fs : FileSystem) (q : RegistrationRequest) (owner_identity : String)
    (now : OffsetDateTime) (g : TargetProcessRegistry) (v : IsValid g) where
  admitted-IsAccepted :
      (key : String) (registered_at u : OffsetDateTime)
      → IsAdmitted clock fs q owner_identity now g key u
      → IsAccepted g.policy q.target_id (registration_of q owner_identity key registered_at now u)
  admitted-IsAccepted key registered_at u a = record {
    named = refl;
    acceptable = (validate_request_iff g.policy q).0 a.valid;
  }

  inserted-IsValid :
      (key : String) (u : OffsetDateTime)
      → IsAdmitted clock fs q owner_identity now g key u
      → IsValid
          (add_target (registration_of q owner_identity key now now u) (connection_of q now) g)
  inserted-IsValid key u a =
      write-IsValid g v q.target_id (registration_of q owner_identity key now now u)
        (insert q.target_id (connection_of q now) g.connections)
        (insert-NodupKeys q.target_id _ g.connections v.nodup_connections)
        (admitted-IsAccepted key now u a)
        (rw
          (
            lookup-insert q.target_id q.target_id (connection_of q now) g.connections,
            eq_refl q.target_id,
          )
          (refl, refl))
        (λ j e. rw (lookup-insert q.target_id j (connection_of q now) g.connections, e)) a.free

  updated_link :
      (b : Bool) (r : TargetProcessRegistration) (c : Option TargetProcessConnection)
      → r.target_id ≡ q.target_id
      → Linked (some r) c
      → (key : String) (at u : OffsetDateTime)
      → Linked
          (some (registration_of q owner_identity key at now u))
          (Option.map (moved b q.ipc_path now) c)
  updated_link b r none e l key at u = l
  updated_link true r (some c) e l key at u = (l.0 ∙ e, refl)
  updated_link false r (some c) e l key at u = (l.0 ∙ e, refl)

  updated-IsValid :
      (key : String) (u : OffsetDateTime) (existing : TargetProcessRegistration) (b : Bool)
      → IsAdmitted clock fs q owner_identity now g key u
      → lookup q.target_id g.registrations ≡ some existing
      → IsValid (
          update_target
            (registration_of q owner_identity key existing.registered_at now u)
            (moved b q.ipc_path now)
            g)
  updated-IsValid key u existing b a e =
      write-IsValid g v q.target_id
        (registration_of q owner_identity key existing.registered_at now u)
        (modify q.target_id (moved b q.ipc_path now) g.connections)
        (modify-NodupKeys q.target_id _ g.connections v.nodup_connections)
        (admitted-IsAccepted key existing.registered_at u a)
        (rw
          (
            lookup-modify q.target_id q.target_id (moved b q.ipc_path now) g.connections,
            eq_refl q.target_id,
          )
          (updated_link b existing _
            (All-lookup _ q.target_id existing g.registrations e v.accepted).named
            (rw e at (v.linked q.target_id)) key existing.registered_at u))
        (λ j n. rw (lookup-modify q.target_id j (moved b q.ipc_path now) g.connections, n)) a.free

  -- Whatever `register` returns, the registry that it leaves is valid.
  pub register-IsValid : IsValid (register clock fs q owner_identity now g).1
  register-IsValid = elim (register_cases clock fs q owner_identity now g) [
    | refused e p ↦ rw p v
    | overflowed _ p ↦ rw p v
    | inserted key u a f p ↦ rw p (inserted-IsValid key u a)
    | updated key u existing a f o p ↦ rw p (updated-IsValid key u existing _ a f)
  ]

-- ===== src/Registry/Expiry.antt =====
-- What `expire_leases` does to every target, and that it keeps the invariant.
use rust_supervisor_relay.Base.{
  ℕ, ◌+◌, ◌≡◌, refl, ◌∙◌, sym, Bool, false, Option, none, some, String, [], ◌∷◌, length, keep,
  arith, eq_iff, All, HashMap, lookup, NodupKeys, modify, lookup-modify, modify-NodupKeys,
  map_values, lookup-map_values, map_values-NodupKeys, All-map_values, Bool-cases, Option-cases,
  inl, inr, if◌then◌else◌,
}
use mathlib.Core.Option
use rust_supervisor_relay.Time.{OffsetDateTime}
use rust_supervisor_relay.Config.{RegistrationPolicy}
use rust_supervisor_relay.Registry.{
  TargetProcessRegistration, TargetProcessConnection, TargetProcessRegistry,
}
use rust_supervisor_relay.Registry.Lease.{
  is_due, expire_registration, expire_connection, expire_loop, expire_leases,
}
use rust_supervisor_relay.Registry.Invariant.{IsAccepted, Linked, IsValid}

module _ (now : OffsetDateTime) where
  pub expire_loop-registrations :
      (m : HashMap TargetProcessRegistration) (cs : HashMap TargetProcessConnection) (n : ℕ)
      → (expire_loop now m cs n).0 ≡ map_values (expire_registration now) m
  unfolding expire_loop
  expire_loop-registrations [] cs n = refl
  expire_loop-registrations ((k, r) ∷ m) cs n = rw (expire_loop-registrations m) refl

  expire_loop-count :
      (m : HashMap TargetProcessRegistration) (cs : HashMap TargetProcessConnection) (n : ℕ)
      → (expire_loop now m cs n).2 ≡ n + length (keep (λ (_, r). is_due now r) m)
  unfolding expire_loop
  expire_loop-count [] cs n = omega arith
  expire_loop-count ((k, r) ∷ m) cs n = elim (Bool-cases (is_due now r)) [
    | inl e ↦
        rw e (
          omega
            (arith, expire_loop-count m (modify r.target_id (expire_connection now) cs) (n + 1)))
    | inr e ↦ rw e (expire_loop-count m cs n)
  ]

  -- A target whose lease has run out.
  abbrev pub due : Option TargetProcessRegistration → Bool
  due none = false
  due (some r) = is_due now r

  expire_loop-NodupKeys :
      (m : HashMap TargetProcessRegistration) (cs : HashMap TargetProcessConnection) (n : ℕ)
      → NodupKeys cs
      → NodupKeys (expire_loop now m cs n).1
  unfolding expire_loop
  expire_loop-NodupKeys [] cs n u = u
  expire_loop-NodupKeys ((k, r) ∷ m) cs n u = elim (Bool-cases (is_due now r)) [
    | inl e ↦ rw e (
        expire_loop-NodupKeys m _ (n + 1)
          (modify-NodupKeys r.target_id (expire_connection now) cs u))
    | inr e ↦ rw e (expire_loop-NodupKeys m cs n u)
  ]

  expire_loop-connections :
      (policy : RegistrationPolicy) (k : String) (m : HashMap TargetProcessRegistration)
      → (cs : HashMap TargetProcessConnection) (n : ℕ) → NodupKeys m
      → All (λ (j, r). IsAccepted policy j r) m
      → lookup k (expire_loop now m cs n).1 ≡ (
          if due (lookup k m)
          then Option.map (expire_connection now) (lookup k cs)
          else lookup k cs)
  unfolding expire_loop lookup
  expire_loop-connections policy k [] cs n u a = refl
  expire_loop-connections policy k ((j, r) ∷ m) cs n u a = ground (
    arith,
    a.0.named,
    eq_iff j k,
    lookup-modify r.target_id k (expire_connection now) cs,
    expire_loop-connections policy k m (modify r.target_id (expire_connection now) cs) (n + 1) u.1
        a.1,
    expire_loop-connections policy k m cs n u.1 a.1,
  )

  expire_loop_again :
      (m : HashMap TargetProcessRegistration) (cs : HashMap TargetProcessConnection) (n : ℕ)
      → expire_loop now (map_values (expire_registration now) m) cs n
        ≡ (map_values (expire_registration now) m, cs, n)
  unfolding expire_loop
  expire_loop_again [] cs n = refl
  expire_loop_again ((k, r) ∷ m) cs n = ground (arith, expire_loop_again m cs n)

  -- After `expire_leases` a second call at the same time finds nothing to do.
  pub expire_leases_idem :
      (g : TargetProcessRegistry)
      → expire_leases now (expire_leases now g).1 ≡ (0, (expire_leases now g).1)
  unfolding expire_leases
  expire_leases_idem g = rw (expire_loop-registrations g.registrations g.connections 0) (
      rw (expire_loop_again g.registrations (expire_loop now g.registrations g.connections 0).1 0)
        refl)

  -- In a valid registry `expire_leases` marks exactly the active targets whose lease has run out,
  -- in their registration and in their connection, leaves every other target alone and returns the
  -- number of the marked.
  pub expire_leases_lem :
      (g : TargetProcessRegistry) (k : String)
      → IsValid g
      → let (count, g') = expire_leases now g in
        (lookup k g'.registrations
          ≡ Option.map (expire_registration now) (lookup k g.registrations))
        × (lookup k g'.connections ≡ (
            if due (lookup k g.registrations)
            then Option.map (expire_connection now) (lookup k g.connections)
            else lookup k g.connections))
        × (count ≡ length (keep (λ (_, r). is_due now r) g.registrations))
  unfolding expire_leases
  expire_leases_lem g k v = (
    rw (expire_loop-registrations g.registrations g.connections 0)
        (lookup-map_values (expire_registration now) k g.registrations),
    expire_loop-connections g.policy k g.registrations g.connections 0 v.nodup_registrations
        v.accepted,
    expire_loop-count g.registrations g.connections 0 ∙ omega arith,
  )

  IsAccepted-expire :
      (policy : RegistrationPolicy) (k : String) (r : TargetProcessRegistration)
      → IsAccepted policy k r
      → IsAccepted policy k (expire_registration now r)
  IsAccepted-expire policy k r a = elim (Bool-cases (is_due now r)) [
    | inl e ↦ rw e (record { named = a.named; acceptable = a.acceptable })
    | inr e ↦ rw e a
  ]

  Linked-expire :
      (r : Option TargetProcessRegistration) (c : Option TargetProcessConnection)
      → Linked r c
      → Linked
          (Option.map (expire_registration now) r)
          (if due r then Option.map (expire_connection now) c else c)
  Linked-expire none c l = l
  Linked-expire (some r) none l = absurd l
  Linked-expire (some r) (some c) l = elim (Bool-cases (is_due now r)) [
    | inl e ↦ rw e l
    | inr e ↦ rw e l
  ]

  lookup-expire_some :
      (k : String) (m : HashMap TargetProcessRegistration) (r : TargetProcessRegistration)
      → lookup k (map_values (expire_registration now) m) ≡ some r
      → (s : TargetProcessRegistration) × (lookup k m ≡ some s) × (s.ipc_path_key ≡ r.ipc_path_key)
  lookup-expire_some k m r e = elim (Option-cases (lookup k m)) [
    | inl n ↦ ground (arith, lookup-map_values (expire_registration now) k m)
    | inr (s, n) ↦ (s, n, ground (arith, lookup-map_values (expire_registration now) k m))
  ]

  pub expire_leases-IsValid :
      (g : TargetProcessRegistry) → IsValid g → IsValid (expire_leases now g).1
  unfolding expire_leases
  expire_leases-IsValid g v =
      rw (expire_loop-registrations g.registrations g.connections 0) (record {
        nodup_registrations = map_values-NodupKeys _ g.registrations v.nodup_registrations;
        nodup_connections =
            expire_loop-NodupKeys g.registrations g.connections 0 v.nodup_connections;
        accepted = All-map_values _ _ g.registrations (IsAccepted-expire g.policy) v.accepted;
        linked = λ k.
            rw
              (
                lookup-map_values (expire_registration now) k g.registrations,
                expire_loop-connections g.policy k g.registrations g.connections 0
                    v.nodup_registrations v.accepted,
              )
              (Linked-expire _ _ (v.linked k));
        distinct = λ i j r s p q e.
            let (r', p', c) = lookup-expire_some i g.registrations r p in
            let (s', q', d) = lookup-expire_some j g.registrations s q in
            v.distinct i j r' s' p' q' (c ∙ e ∙ sym d);
      })

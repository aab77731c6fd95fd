-- ===== src/Registry/Sockets.antt =====
-- Where the sockets of the registered targets of src/registry.rs are.
use rust_supervisor_relay.Base.{
  ◌≡◌, refl, ◌∙◌, some, String, inl, inr, arith, HashMap, lookup, insert, modify, lookup-insert,
  lookup-modify, map_values, lookup-map_values, Option-cases, Bool-cases, ◌==◌,
}
use rust_supervisor_relay.Time.{OffsetDateTime, Clock}
use rust_supervisor_relay.Paths.{FileSystem}
use rust_supervisor_relay.Config.{RegistrationPolicy}
use rust_supervisor_relay.Registration.{RegistrationRequest}
use rust_supervisor_relay.Registry.{
  TargetProcessConnection, TargetProcessRegistration, TargetProcessRegistry, empty,
}
use rust_supervisor_relay.Registry.Register.{register, lease_end}
use rust_supervisor_relay.Registry.Lease.{renew, expire_leases, expire_registration, is_due}
use rust_supervisor_relay.Registry.Link.{
  connection_mut, begin_binding, mark_connected, mark_reconnecting, mark_unavailable,
  update_sequence,
}
use rust_supervisor_relay.Registry.Invariant.{IsValid}
use rust_supervisor_relay.Registry.Outcome.{refused, overflowed, inserted, updated, register_cases}
use rust_supervisor_relay.Registry.Expiry.{expire_loop-registrations}
use rust_supervisor_relay.Registry.Place.{Locates, normalize_ipc_path_key_iff}
use rust_supervisor_relay.Registry.Reach.{
  Step, registers, renews, expires, begins, connects, reconnects, fails, advances, Reach, here,
  next, Reach-IsValid,
}

module _ (fs : FileSystem) where
  -- The registration's key is where its path was at some time.
  abbrev pub IsLocated : TargetProcessRegistration → Type 0
  IsLocated r = (at : OffsetDateTime) × Locates fs at r.ipc_path r.ipc_path_key

  abbrev AllLocated : HashMap TargetProcessRegistration → Type 0
  AllLocated m = (k : String) (r : TargetProcessRegistration) → lookup k m ≡ some r → IsLocated r

  pub record IsConfined (policy : RegistrationPolicy) (g : TargetProcessRegistry) : Type 0 where
    pub same_policy : g.policy ≡ policy
    pub valid : IsValid g
    pub located :
        (k : String) (r : TargetProcessRegistration)
        → lookup k g.registrations ≡ some r
        → IsLocated r

  abbrev KeepsPath : (TargetProcessRegistration → TargetProcessRegistration) → Type 0
  KeepsPath f =
      (r : TargetProcessRegistration)
      → ((f r).ipc_path ≡ r.ipc_path) × ((f r).ipc_path_key ≡ r.ipc_path_key)

  IsLocated-moved :
      (r s : TargetProcessRegistration)
      → s.ipc_path ≡ r.ipc_path
      → s.ipc_path_key ≡ r.ipc_path_key
      → IsLocated r
      → IsLocated s
  IsLocated-moved r s p q (at, l) = (at, rw (p, q) l)

  AllLocated-modify :
      (j : String) (f : TargetProcessRegistration → TargetProcessRegistration)
      → KeepsPath f
      → (m : HashMap TargetProcessRegistration) → AllLocated m
      → AllLocated (modify j f m)
  AllLocated-modify j f keeps m a k r e = elim (Option-cases (lookup k m)) [
    | inl n ↦ absurd (ground (arith, lookup-modify j k f m))
    | inr (s, n) ↦
        IsLocated-moved s r (ground (arith, lookup-modify j k f m, keeps s))
          (ground (arith, lookup-modify j k f m, keeps s)) (a k s n)
  ]

  AllLocated-map_values :
      (f : TargetProcessRegistration → TargetProcessRegistration)
      → KeepsPath f
      → (m : HashMap TargetProcessRegistration) → AllLocated m
      → AllLocated (map_values f m)
  AllLocated-map_values f keeps m a k r e = elim (Option-cases (lookup k m)) [
    | inl n ↦ absurd (ground (arith, lookup-map_values f k m))
    | inr (s, n) ↦
        IsLocated-moved s r (ground (arith, lookup-map_values f k m, keeps s))
          (ground (arith, lookup-map_values f k m, keeps s)) (a k s n)
  ]

  AllLocated-insert :
      (j : String) (new : TargetProcessRegistration) (m : HashMap TargetProcessRegistration)
      → IsLocated new
      → AllLocated m
      → AllLocated (insert j new m)
  AllLocated-insert j new m l a k r e = elim (Bool-cases (j == k)) [
    | inl q ↦
        IsLocated-moved new r (ground (arith, lookup-insert j k new m))
          (ground (arith, lookup-insert j k new m)) l
    | inr q ↦ a k r (ground (arith, lookup-insert j k new m))
  ]

  expire_registration-KeepsPath : (now : OffsetDateTime) → KeepsPath (expire_registration now)
  expire_registration-KeepsPath now r = elim (Bool-cases (is_due now r)) [
    | inl e ↦ rw e (refl, refl)
    | inr e ↦ rw e (refl, refl)
  ]

  connection_mut-registrations :
      (k : String) (f : TargetProcessConnection → TargetProcessConnection)
      → (g : TargetProcessRegistry) → (connection_mut k f g).1.registrations ≡ g.registrations
  unfolding connection_mut
  connection_mut-registrations k f g = ground arith

  module _ (clock : Clock) where
    register-AllLocated :
        (q : RegistrationRequest) (owner_identity : String) (now : OffsetDateTime)
        → (g : TargetProcessRegistry) → AllLocated g.registrations
        → AllLocated (register clock fs q owner_identity now g).1.registrations
    register-AllLocated q owner_identity now g a =
        let at = λ (key : String). (normalize_ipc_path_key_iff fs now q.ipc_path key).0 in
        elim (register_cases clock fs q owner_identity now g) [
          | refused _ p ↦ rw p a
          | overflowed _ p ↦ rw p a
          | inserted key u c f p ↦
              rw p (AllLocated-insert q.target_id _ g.registrations (now, at key c.normal) a)
          | updated key u existing c f o p ↦
              rw p (AllLocated-insert q.target_id _ g.registrations (now, at key c.normal) a)
        ]

    renew-AllLocated :
        (k : String) (now : OffsetDateTime) (g : TargetProcessRegistry)
        → AllLocated g.registrations
        → AllLocated (renew clock k now g).1.registrations
    unfolding renew
    renew-AllLocated k now g a = elim (Option-cases (lookup k g.registrations)) [
      | inl e ↦ rw e a
      | inr (r, e) ↦
          let b =
            AllLocated-modify k (λ r. record r { renewed_at = now }) (λ r. (refl, refl))
              g.registrations a in
          elim (Option-cases (lease_end clock now r.lease_seconds)) [
            | inl p ↦ rw (e, p) b
            | inr (u, p) ↦ rw (e, p) (AllLocated-modify k _ (λ r. (refl, refl)) _ b)
          ]
    ]

    Step-AllLocated :
        {g h : TargetProcessRegistry}
        → Step clock fs g h
        → AllLocated g.registrations
        → AllLocated h.registrations
    unfolding expire_leases begin_binding mark_connected mark_reconnecting mark_unavailable
        update_sequence
    Step-AllLocated {g} (registers q owner_identity now) a =
        register-AllLocated q owner_identity now g a
    Step-AllLocated {g} (renews k now) a = renew-AllLocated k now g a
    Step-AllLocated {g} (expires now) a =
        rw (expire_loop-registrations now g.registrations g.connections 0)
          (AllLocated-map_values _ (expire_registration-KeepsPath now) g.registrations a)
    Step-AllLocated {g} (begins k now) a = rw (connection_mut-registrations k _ g) a
    Step-AllLocated {g} (connects k generation now) a = rw (connection_mut-registrations k _ g) a
    Step-AllLocated {g} (reconnects k reason now) a = rw (connection_mut-registrations k _ g) a
    Step-AllLocated {g} (fails k reason now) a = rw (connection_mut-registrations k _ g) a
    Step-AllLocated {g} (advances k sequence) a = a

    Reach-AllLocated :
        {g h : TargetProcessRegistry}
        → Reach clock fs g h
        → AllLocated g.registrations
        → AllLocated h.registrations
    Reach-AllLocated here a = a
    Reach-AllLocated (next p s) a = Step-AllLocated s (Reach-AllLocated p a)

    Step-policy : {g h : TargetProcessRegistry} → Step clock fs g h → h.policy ≡ g.policy
    unfolding renew expire_leases begin_binding mark_connected mark_reconnecting mark_unavailable
        update_sequence connection_mut
    Step-policy {g} (registers q owner_identity now) =
        elim (register_cases clock fs q owner_identity now g) [
          | refused _ p ↦ rw p refl
          | overflowed _ p ↦ rw p refl
          | inserted key u c f p ↦ rw p refl
          | updated key u existing c f o p ↦ rw p refl
        ]
    Step-policy (renews k now) = ground arith
    Step-policy (expires now) = refl
    Step-policy (begins k now) = ground arith
    Step-policy (connects k generation now) = ground arith
    Step-policy (reconnects k reason now) = ground arith
    Step-policy (fails k reason now) = ground arith
    Step-policy (advances k sequence) = refl

    Reach-policy : {g h : TargetProcessRegistry} → Reach clock fs g h → h.policy ≡ g.policy
    Reach-policy here = refl
    Reach-policy (next p s) = Step-policy s ∙ Reach-policy p

    -- From the empty registry every history of calls, with any arguments and at any times, while
    -- the file system changes, leads to a valid registry: both maps list the same targets, every
    -- registration satisfies the policy, and no two targets have the same key. Each key is the
    -- place that the file system gave for the target's path, which was then no symlink: the
    -- canonical path of its directory with its name.
    pub Reach-IsConfined :
        (policy : RegistrationPolicy) (g : TargetProcessRegistry)
        → Reach clock fs (empty policy) g
        → IsConfined policy g
    unfolding lookup
    Reach-IsConfined policy g p = record {
      same_policy = Reach-policy p;
      valid = Reach-IsValid clock fs policy p;
      located = Reach-AllLocated p (λ k r e. absurd (ground arith));
    }

-- ===== src/Registry/Refine.antt =====
-- The registry of src/registry.rs does what its table of leases promises.
use rust_supervisor_relay.Base.{
  List, [], ◌∷◌, ◌≡◌, refl, ◌∙◌, sym, ap, true, Option, some, String, ◌==◌, if◌then◌else◌, arith,
  eq_iff, eq_refl, HashMap, lookup, modify, lookup-insert, lookup-modify, lookup-map_values,
  Bool-cases, Option-cases, inl, inr,
}
use mathlib.Core.Option
use rust_supervisor_relay.Time.{OffsetDateTime, Clock}
use rust_supervisor_relay.Paths.{FileSystem}
use rust_supervisor_relay.Registration.{RegistrationRequest}
use rust_supervisor_relay.Registry.{
  active, TargetProcessRegistration, TargetProcessConnection, TargetProcessRegistry, is_active,
}
use rust_supervisor_relay.Registry.Register.{register, lease_end, registration_of}
use rust_supervisor_relay.Registry.Lease.{renew, expire_leases, is_due, expire_registration}
use rust_supervisor_relay.Registry.Link.{
  connection_mut, begin_binding, mark_connected, mark_reconnecting, mark_unavailable,
  update_sequence,
}
use rust_supervisor_relay.Registry.Outcome.{
  IsAdmitted, refused, overflowed, inserted, updated, register_cases,
}
use rust_supervisor_relay.Registry.Admit.{holds_path-free}
use rust_supervisor_relay.Registry.Expiry.{expire_loop-registrations}
use rust_supervisor_relay.Registry.Reach.{
  Step, registers, renews, expires, begins, connects, reconnects, fails, advances, Reach, here,
  next,
}
use rust_supervisor_relay.Registry.Spec.{
  Lease, LeaseTable, put, swept, Ask, to_lease, to_renew, to_sweep, to_mark, Move, stays, refuses,
  grants, has_none, overflows, prolongs, sweeps, Moves, start, then_move,
}

abbrev pub lease_of : TargetProcessRegistration → Lease
lease_of r = record {
  owner = r.owner_identity;
  path = r.ipc_path_key;
  seconds = r.lease_seconds;
  ends = r.expires_at;
  runs = is_active r.registration_state;
}

abbrev pub leasing : HashMap TargetProcessRegistration → LeaseTable
leasing m k = Option.map lease_of (lookup k m)

-- The table that a registry stands for.
abbrev pub leases : TargetProcessRegistry → LeaseTable
leases g = leasing g.registrations

leases-some :
    (g : TargetProcessRegistry) (k : String) (l : Lease)
    → leases g k ≡ some l
    → (r : TargetProcessRegistration) × (lookup k g.registrations ≡ some r) × (lease_of r ≡ l)
leases-some g k l h = elim (Option-cases (lookup k g.registrations)) [
  | inl n ↦ absurd (ground arith)
  | inr (r, n) ↦ (r, n, ground arith)
]

-- A write that leaves a lease alone, and one that prolongs it.
leasing-modify :
    (k : String) (f : TargetProcessRegistration → TargetProcessRegistration)
    → (m : HashMap TargetProcessRegistration)
    → ((r : TargetProcessRegistration) → lease_of (f r) ≡ lease_of r)
    → (j : String) → leasing (modify k f m) j ≡ leasing m j
leasing-modify k f m same j = elim (Option-cases (lookup j m)) [
  | inl n ↦ ground (arith, lookup-modify k j f m)
  | inr (r, n) ↦ elim (Bool-cases (k == j)) [
    | inl e ↦ rw (lookup-modify k j f m, e, n) (ap some (same r))
    | inr e ↦ rw (lookup-modify k j f m, e) refl
  ]
]

leasing-prolonged :
    (k : String) (f : TargetProcessRegistration → TargetProcessRegistration) (ends : OffsetDateTime)
    → (m : HashMap TargetProcessRegistration) (s : TargetProcessRegistration) → lookup k m ≡ some s
    → lease_of (f s) ≡ record (lease_of s) { ends = ends; runs = true }
    → (j : String)
    → leasing (modify k f m) j
      ≡ put k (record (lease_of s) { ends = ends; runs = true }) (leasing m) j
leasing-prolonged k f ends m s n same j = elim (Bool-cases (k == j)) [
  | inl e ↦ rw (lookup-modify k j f m, e, ← ((eq_iff k j).0 e), n) (ap some same)
  | inr e ↦ rw (lookup-modify k j f m, e) refl
]

swept_expired :
    (now : OffsetDateTime) (r : TargetProcessRegistration)
    → lease_of (expire_registration now r) ≡ swept now (lease_of r)
swept_expired now r = elim (Bool-cases (is_due now r)) [ inl e ↦ rw e refl | inr e ↦ rw e refl ]

module _ (clock : Clock) (fs : FileSystem) where
  granted :
      (q : RegistrationRequest) (owner_identity : String) (now : OffsetDateTime)
      → (g : TargetProcessRegistry) (m : HashMap TargetProcessRegistration) (key : String)
        (since u : OffsetDateTime)
      → IsAdmitted clock fs q owner_identity now g key u
      → ((held : TargetProcessRegistration)
          → lookup q.target_id g.registrations ≡ some held
          → held.owner_identity ≡ owner_identity)
      → (let r = registration_of q owner_identity key since now u in
          (j : String)
          → lookup j m ≡ (if q.target_id == j then some r else lookup j g.registrations))
      → Move clock (leases g) (leasing m) (to_lease q.target_id owner_identity q.lease_seconds now)
  granted q owner_identity now g m key since u a o w =
      let r = registration_of q owner_identity key since now u in
      grants q.target_id owner_identity q.lease_seconds now (lease_of r) refl refl a.lease refl
        (λ held e.
          let (s, n, p) = leases-some g q.target_id held e in sym (ap (λ l. l.owner) p) ∙ o s n)
        (λ j other e p.
          let (s, n, t) = leases-some g j other e in
          holds_path-free q.target_id key g.registrations a.free j s n (ap (λ l. l.path) t ∙ p))
        (λ j. let x = w j in ground arith)

  register-Move :
      (q : RegistrationRequest) (owner_identity : String) (now : OffsetDateTime)
      → (g : TargetProcessRegistry)
      → Move clock
          (leases g)
          (leases (register clock fs q owner_identity now g).1)
          (to_lease q.target_id owner_identity q.lease_seconds now)
  register-Move q owner_identity now g = elim (register_cases clock fs q owner_identity now g) [
    | refused _ p ↦ rw p (refuses q.target_id owner_identity q.lease_seconds now (λ j. refl))
    | overflowed _ p ↦ rw p (refuses q.target_id owner_identity q.lease_seconds now (λ j. refl))
    | inserted key u a f p ↦ rw p (
        granted q owner_identity now g _ key now u a (λ held e. absurd (ground arith))
          (λ j. lookup-insert q.target_id j _ g.registrations))
    | updated key u existing a f o p ↦ rw p (
        granted q owner_identity now g _ key existing.registered_at u a (λ held e. ground arith)
          (λ j. lookup-insert q.target_id j _ g.registrations))
  ]

  renew-Move :
      (k : String) (now : OffsetDateTime) (g : TargetProcessRegistry)
      → Move clock (leases g) (leases (renew clock k now g).1) (to_renew k now)
  unfolding renew
  renew-Move k now g = elim (Option-cases (lookup k g.registrations)) [
    | inl n ↦ rw n (has_none k now (rw n refl) (λ j. refl))
    | inr (s, n) ↦ elim (Option-cases (lease_end clock now s.lease_seconds)) [
      | inl x ↦
          rw (n, x)
            (overflows k now (lease_of s) (rw n refl) x
              (leasing-modify k _ g.registrations (λ r. refl)))
      | inr (u, x) ↦
          let renewed = λ (r : TargetProcessRegistration). record r { renewed_at = now } in
          let extended = λ (r : TargetProcessRegistration). record r {
            expires_at = u;
            registration_state = active;
          } in
          let m = modify k renewed g.registrations in
          rw (n, x)
            (prolongs k now (lease_of s) u (rw n refl) x λ j.
              leasing-prolonged k extended u m (renewed s)
                (rw (lookup-modify k k renewed g.registrations, eq_refl k, n) refl) refl j
              ∙ ap
                  (λ (o : Option Lease).
                    if k == j then some (record (lease_of s) { ends = u; runs = true }) else o)
                  (leasing-modify k renewed g.registrations (λ r. refl) j))
    ]
  ]

  connection_mut-Move :
      (k : String) (f : TargetProcessConnection → TargetProcessConnection)
      → (g : TargetProcessRegistry)
      → Move clock (leases g) (leases (connection_mut k f g).1) to_mark
  unfolding connection_mut
  connection_mut-Move k f g = stays (λ j. ground arith)

  expire-Move :
      (now : OffsetDateTime) (g : TargetProcessRegistry)
      → Move clock (leases g) (leases (expire_leases now g).1) (to_sweep now)
  unfolding expire_leases
  expire-Move now g = sweeps now (λ j.
      rw (expire_loop-registrations now g.registrations g.connections 0)
        (elim (Option-cases (lookup j g.registrations)) [
          | inl n ↦ rw (lookup-map_values (expire_registration now) j g.registrations, n) refl
          | inr (r, n) ↦
              rw (lookup-map_values (expire_registration now) j g.registrations, n)
                (ap some (swept_expired now r))
        ]))

  -- What a call asks.
  abbrev pub ask_of : {g h : TargetProcessRegistry} → Step clock fs g h → Ask
  ask_of (registers q owner_identity now) = to_lease q.target_id owner_identity q.lease_seconds now
  ask_of (renews k now) = to_renew k now
  ask_of (expires now) = to_sweep now
  ask_of (begins k now) = to_mark
  ask_of (connects k generation now) = to_mark
  ask_of (reconnects k reason now) = to_mark
  ask_of (fails k reason now) = to_mark
  ask_of (advances k sequence) = to_mark

  abbrev pub asks_of : {g h : TargetProcessRegistry} → Reach clock fs g h → List Ask
  asks_of here = []
  asks_of (next p s) = ask_of s ∷ asks_of p

  -- Each call of the registry is one move of the table of leases that it stands for.
  Step-Move :
      {g h : TargetProcessRegistry}
      → (s : Step clock fs g h) → Move clock (leases g) (leases h) (ask_of s)
  unfolding begin_binding mark_connected mark_reconnecting mark_unavailable update_sequence
  Step-Move {g} (registers q owner_identity now) = register-Move q owner_identity now g
  Step-Move {g} (renews k now) = renew-Move k now g
  Step-Move {g} (expires now) = expire-Move now g
  Step-Move {g} (begins k now) = connection_mut-Move k _ g
  Step-Move {g} (connects k generation now) = connection_mut-Move k _ g
  Step-Move {g} (reconnects k reason now) = connection_mut-Move k _ g
  Step-Move {g} (fails k reason now) = connection_mut-Move k _ g
  Step-Move {g} (advances k sequence) = stays (λ j. refl)

  -- Every history of calls refines a history of moves of the lease table, each the answer to what
  -- the call asks. A registration either leaves the table as it is or grants a lease to its owner,
  -- on a path that no other target has, up to the seconds asked for after its time. A renewal
  -- prolongs the target's lease up to the lease's seconds after its time, unless there is none or the
  -- end is out of range. An expiry ends exactly the running leases that end by its time. No other
  -- call changes a lease.
  pub Reach-Moves :
      {g h : TargetProcessRegistry}
      → (p : Reach clock fs g h) → Moves clock (leases g) (asks_of p) (leases h)
  Reach-Moves here = start
  Reach-Moves (next p s) = then_move (Reach-Moves p) (Step-Move s)

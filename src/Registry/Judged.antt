-- ===== src/Registry/Judged.antt =====
-- That `register` of src/registry.rs ends as Verdict says.
use rust_supervisor_relay.Base.{
  ◌≡◌, ◌≢◌, refl, Bool, true, false, some, String, any, lookup, arith, eq_iff, ◌==◌, Option-cases,
  Bool-cases, inl, inr, if◌then◌else◌, HashMap, any→In, In→lookup, lookup-insert, lookup-modify,
  modify,
}
use rust_supervisor_relay.Error.{RelayResult-cases, RelayError, ok, err, panic}
use rust_supervisor_relay.Time.{OffsetDateTime, Clock}
use rust_supervisor_relay.Paths.{FileSystem}
use rust_supervisor_relay.Registration.{RegistrationRequest}
use rust_supervisor_relay.Registry.{
  TargetProcessRegistration, TargetProcessConnection, TargetProcessRegistry,
}
use rust_supervisor_relay.Registry.Validate.{normalize_ipc_path_key, validate_request}
use rust_supervisor_relay.Registry.Register.{
  register, holds_path, lease_end, moved, registration_of, update_target,
}
use rust_supervisor_relay.Registry.Invariant.{IsValid, validate_request_iff}
use rust_supervisor_relay.Registry.Outcome.{
  validate_request-ne-panic, normalize_ipc_path_key-ne-panic, IsAdmitted, refused, overflowed,
  inserted, updated, register_cases,
}
use rust_supervisor_relay.Registry.Admit.{holds_path-free}
use rust_supervisor_relay.Registry.Place.{normalize_ipc_path_key_iff}
use rust_supervisor_relay.Registry.Verdict.{
  IsAdmissible, wanted, IsWritten, Verdict, turned_away, out_of_range, taken_first, taken_again,
  taken_elsewhere,
}

module _ (fs : FileSystem) (q : RegistrationRequest) (owner_identity : String)
    (now : OffsetDateTime) (g : TargetProcessRegistry) (clock : Clock) where
  admissible-free :
      (place : String)
      → IsValid g
      → IsAdmissible fs q owner_identity now g place
      → any (holds_path q.target_id place) g.registrations ≡ false
  admissible-free place v a =
      elim (Bool-cases (any (holds_path q.target_id place) g.registrations)) [
        | inr e ↦ e
        | inl e ↦
            let ((j, r), m, h) = any→In (holds_path q.target_id place) g.registrations e in
            let same =
              a.free j r (In→lookup j r g.registrations v.nodup_registrations m)
                (ground (arith, eq_iff r.ipc_path_key place)) in
            ground (arith, eq_iff j q.target_id)
      ]

  -- What is admissible is not turned away.
  admissible-ne-err :
      (place : String) (e : RelayError)
      → IsValid g
      → IsAdmissible fs q owner_identity now g place
      → register clock fs q owner_identity now g ≢ (err e, g)
  unfolding register
  admissible-ne-err place e v a h =
      let valid = (validate_request_iff g.policy q).1 a.acceptable in
      let normal = (normalize_ipc_path_key_iff fs now q.ipc_path place).1 a.located in
      let free = admissible-free place v a in
      elim (Option-cases (lookup q.target_id g.registrations)) [
        | inl f ↦ elim (Option-cases (lease_end clock now q.lease_seconds)) [
          | inl p ↦ ground arith
          | inr (u, p) ↦ ground arith
        ]
        | inr (r, f) ↦
            let same = a.owned r f in
            elim (Option-cases (lease_end clock now q.lease_seconds)) [
              | inl p ↦ ground (arith, eq_iff r.owner_identity owner_identity)
              | inr (u, p) ↦ ground (arith, eq_iff r.owner_identity owner_identity)
            ]
      ]

  -- What ends in a panic was admissible.
  panic-IsAdmissible :
      register clock fs q owner_identity now g ≡ (panic, g)
      → (place : String) × IsAdmissible fs q owner_identity now g place
  unfolding register
  panic-IsAdmissible h = elim (RelayResult-cases (validate_request g.policy q)) [
    | inr (inl (e, x)) ↦ absurd (ground arith)
    | inr (inr x) ↦ absurd (validate_request-ne-panic g.policy q x)
    | inl (_, x) ↦ elim (RelayResult-cases (normalize_ipc_path_key fs now q.ipc_path)) [
      | inr (inl (e, n)) ↦ absurd (ground arith)
      | inr (inr n) ↦ absurd (normalize_ipc_path_key-ne-panic fs now q.ipc_path n)
      | inl (key, n) ↦ (
        key,
        record {
          acceptable = (validate_request_iff g.policy q).0 x;
          located = (normalize_ipc_path_key_iff fs now q.ipc_path key).0 n;
          owned = λ r f. elim (Bool-cases (r.owner_identity == owner_identity)) [
            | inl o ↦ (eq_iff _ _).0 o
            | inr o ↦ absurd (ground arith)
          ];
          free =
              holds_path-free q.target_id key g.registrations
                (elim (Bool-cases (any (holds_path q.target_id key) g.registrations)) [
                  | inl t ↦ absurd (ground arith)
                  | inr t ↦ t
                ]);
        },
      )
    ]
  ]

  admitted-IsAdmissible :
      (place : String) (until : OffsetDateTime)
      → IsAdmitted clock fs q owner_identity now g place until
      → ((r : TargetProcessRegistration)
          → lookup q.target_id g.registrations ≡ some r
          → r.owner_identity ≡ owner_identity)
      → IsAdmissible fs q owner_identity now g place
  admitted-IsAdmissible place until a owned = record {
    acceptable = (validate_request_iff g.policy q).0 a.valid;
    located = (normalize_ipc_path_key_iff fs now q.ipc_path place).0 a.normal;
    owned = owned;
    free = holds_path-free q.target_id place g.registrations a.free;
  }

  lookup-modify_found :
      (f : TargetProcessConnection → TargetProcessConnection) (c : TargetProcessConnection)
      → (k j : String) (m : HashMap TargetProcessConnection) → lookup k m ≡ some c
      → lookup j (modify k f m) ≡ (if k == j then some (f c) else lookup j m)
  lookup-modify_found f c k j m d = elim (Bool-cases (k == j)) [
    | inl e ↦ rw (lookup-modify k j f m, e, ← ((eq_iff k j).0 e), d) refl
    | inr e ↦ rw (lookup-modify k j f m, e) refl
  ]

  updated-IsWritten :
      (key : String) (u : OffsetDateTime) (r : TargetProcessRegistration)
      (c : TargetProcessConnection) (b : Bool)
      → lookup q.target_id g.connections ≡ some c
      → let new = registration_of q owner_identity key r.registered_at now u in
        IsWritten fs q owner_identity now g
          (wanted fs q owner_identity now g key r.registered_at u)
          (moved b q.ipc_path now c)
          (ok new, update_target new (moved b q.ipc_path now) g)
  updated-IsWritten key u r c b d = record {
    result = refl;
    policy = refl;
    registrations = λ j. lookup-insert q.target_id j _ g.registrations;
    connections = λ j. lookup-modify_found (moved b q.ipc_path now) c q.target_id j g.connections d;
  }

  -- On a valid registry, for any request, owner and time. A registration is turned away exactly
  -- where it is not admissible, and the registry stays as it is. An admissible one panics, with
  -- the registry as it is, where the end of its lease is out of the clock's range. Otherwise it
  -- is returned and written, with the first registration's time where the target has one; the
  -- connection of a new target starts anew, that of a known target gets the path, and is
  -- reconnecting if the path is at another place; and no other target changes.
  pub register_lem :
      IsValid g → Verdict fs q owner_identity now g clock (register clock fs q owner_identity now g)
  register_lem v = elim (register_cases clock fs q owner_identity now g) [
    | refused e p ↦ turned_away e (λ place a. admissible-ne-err place e v a p) p
    | overflowed x p ↦ let (place, a) = panic-IsAdmissible p in out_of_range place a x p
    | inserted key u a f p ↦
        taken_first key u (admitted-IsAdmissible key u a (λ r e. absurd (ground arith))) a.lease f (
          rw p (record {
            result = refl;
            policy = refl;
            registrations = λ j. lookup-insert q.target_id j _ g.registrations;
            connections = λ j. lookup-insert q.target_id j _ g.connections;
          }))
    | updated key u r a f o p ↦ elim (Option-cases (lookup q.target_id g.connections)) [
      | inl n ↦ absurd (rw (f, n) at (v.linked q.target_id))
      | inr (c, d) ↦
          let admissible = admitted-IsAdmissible key u a (λ s e. ground arith) in
          elim (Bool-cases (r.ipc_path_key == key)) [
            | inl e ↦
                taken_again key u r c admissible a.lease f d ((eq_iff r.ipc_path_key key).0 e)
                  (rw (p, e) (updated-IsWritten key u r c false d))
            | inr e ↦
                taken_elsewhere key u r c admissible a.lease f d
                  (λ same. ground (arith, eq_iff r.ipc_path_key key))
                  (rw (p, e) (updated-IsWritten key u r c true d))
          ]
    ]
  ]

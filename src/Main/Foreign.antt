-- ===== src/Main/Foreign.antt =====
-- What the registration socket of src/main.rs lets a local user do to the target of another.
use rust_supervisor_relay.Base.{
  ◌≡◌, ◌≢◌, refl, sym, ◌∙◌, ◌⊎◌, inl, inr, some, String, List, [], ◌∷◌, arith, eq_iff, lookup,
  lookup-insert, lookup-modify, All, Option-cases, Sum-cases, ℕ, ◌<◌, ◌^◌, HashMap, insert, modify,
  ◌==◌, Bool-cases,
}
use rust_supervisor_relay.Error.{ok, RelayResult-cases}
use rust_supervisor_relay.Time.{OffsetDateTime, Clock}
use rust_supervisor_relay.Paths.{FileSystem}
use rust_supervisor_relay.Registration.{
  RegistrationRequest, Connection, AcceptedRegistration, accept_registration,
  read_registration_request, owner_identity_from_stream,
}
use rust_supervisor_relay.Registration.Peers.{IsUid, owner_identity_from_stream_injective}
use rust_supervisor_relay.Registry.{TargetProcessRegistration, TargetProcessRegistry}
use rust_supervisor_relay.Registry.Register.{register}
use rust_supervisor_relay.Registry.Outcome.{refused, overflowed, inserted, updated, register_cases}
use rust_supervisor_relay.Main.Registrations.{
  Turn, RegistrationAck, take_turn, left, ack, write_registration_ack, run_registration_loop,
}

-- The target's registration and its connection are as they were.
pub record Untouched (k : String) (g h : TargetProcessRegistry) : Type 0 where
  pub registration : lookup k h.registrations ≡ lookup k g.registrations
  pub connection : lookup k h.connections ≡ lookup k g.connections

Untouched-refl : (k : String) (g : TargetProcessRegistry) → Untouched k g g
Untouched-refl k g = record { registration = refl; connection = refl }

module _ {V : Type 0} (j k : String) (other : j ≢ k) where
  lookup-insert_other : (v : V) (m : HashMap V) → lookup k (insert j v m) ≡ lookup k m
  lookup-insert_other v m = elim (Bool-cases (j == k)) [
    | inl e ↦ absurd (other ((eq_iff j k).0 e))
    | inr e ↦ rw (lookup-insert j k v m, e) refl
  ]

  lookup-modify_other : (f : V → V) (m : HashMap V) → lookup k (modify j f m) ≡ lookup k m
  lookup-modify_other f m = elim (Bool-cases (j == k)) [
    | inl e ↦ absurd (other ((eq_iff j k).0 e))
    | inr e ↦ rw (lookup-modify j k f m, e) refl
  ]

module _ (clock : Clock) (fs : FileSystem) (k : String) (r : TargetProcessRegistration) where
  -- A registration of another target, or by another owner.
  register-Untouched :
      (q : RegistrationRequest) (owner_identity : String) (now : OffsetDateTime)
      → (g : TargetProcessRegistry) → lookup k g.registrations ≡ some r
      → (q.target_id ≡ k → r.owner_identity ≢ owner_identity)
      → Untouched k g (register clock fs q owner_identity now g).1
  register-Untouched q owner_identity now g e foreign =
      elim (register_cases clock fs q owner_identity now g) [
        | refused _ p ↦ rw p (Untouched-refl k g)
        | overflowed _ p ↦ rw p (Untouched-refl k g)
        | inserted key u a f p ↦
            let other : q.target_id ≢ k = λ h. ground arith in
            rw p (record {
              registration = lookup-insert_other q.target_id k other _ g.registrations;
              connection = lookup-insert_other q.target_id k other _ g.connections;
            })
        | updated key u existing a f o p ↦
            let other : q.target_id ≢ k = λ h. foreign h (ground arith) in
            rw p (record {
              registration = lookup-insert_other q.target_id k other _ g.registrations;
              connection = lookup-modify_other q.target_id k other _ g.connections;
            })
      ]

module _ (clock : Clock) (fs : FileSystem) (from_str : String → String ⊎ RegistrationRequest) where
  -- A turn that does not name the target, or whose peer is another user or not known.
  pub record IsForeign (k : String) (uid : ℕ) (turn : Turn) : Type 0 where
    pub user :
        (c : Connection) (q : RegistrationRequest)
        → turn.incoming ≡ inr c
        → read_registration_request from_str c ≡ ok q
        → q.target_id ≡ k
        → IsUid c.peer_uid × (c.peer_uid ≢ some uid)

  accepted :
      (incoming : String ⊎ Connection) (a : AcceptedRegistration)
      → accept_registration from_str incoming ≡ ok a
      → (c : Connection) × (incoming ≡ inr c)
        × (read_registration_request from_str c ≡ ok a.request)
        × (a.owner_identity ≡ owner_identity_from_stream c.peer_uid)
  unfolding accept_registration
  accepted (inl error) a h = absurd (ground arith)
  accepted (inr c) a h = elim (RelayResult-cases (read_registration_request from_str c)) [
    | inl (q, e) ↦ (c, refl, ground arith, ground arith)
    | inr (inl (x, e)) ↦ absurd (ground arith)
    | inr (inr e) ↦ absurd (ground arith)
  ]

  module _ (k : String) (r : TargetProcessRegistration) (uid : ℕ) (fits : uid < 2 ^ 32)
      (owned : r.owner_identity ≡ owner_identity_from_stream (some uid)) where
    take_turn-Untouched :
        (turn : Turn) (acks : List RegistrationAck) (g : TargetProcessRegistry)
        → lookup k g.registrations ≡ some r
        → IsForeign k uid turn
        → Untouched k g (left clock fs from_str (take_turn clock fs from_str turn acks g))
    unfolding take_turn
    take_turn-Untouched turn acks g e foreign =
        elim (RelayResult-cases (accept_registration from_str turn.incoming)) [
          | inr (inl (_, h)) ↦ rw (take_turn, h) (Untouched-refl k g)
          | inr (inr h) ↦ rw (take_turn, h) (Untouched-refl k g)
          | inl (a, h) ↦
              let (result, g') = register clock fs a.request a.owner_identity turn.now g in
              let (c, i, q, o) = accepted turn.incoming a h in
              let p =
                register-Untouched clock fs k r a.request a.owner_identity turn.now g e
                  λ named same.
                    let (valid, other) = foreign.user c a.request i q named in
                    other (
                      owner_identity_from_stream_injective c.peer_uid (some uid) valid fits
                        (sym o ∙ sym same ∙ owned)) in
              elim (Option-cases (ack result)) [
                | inl n ↦ rw (take_turn, h, n) p
                | inr (answer, n) ↦ elim (RelayResult-cases (write_registration_ack turn answer)) [
                  | inl (_, w) ↦ rw (take_turn, h, n, w) p
                  | inr (inl (_, w)) ↦ rw (take_turn, h, n, w) p
                  | inr (inr w) ↦ rw (take_turn, h, n, w) p
                ]
              ]
        ]

    -- Whatever comes to the registration socket, user ids being of 32 bits: where a local user has
    -- registered a target, and each connection that names the target comes from a peer whose user
    -- id is another or is not known, the target's registration and its connection stay as they are.
    pub run_registration_loop-Untouched :
        (turns : List Turn) (acks : List RegistrationAck) (g : TargetProcessRegistry)
        → lookup k g.registrations ≡ some r
        → All (IsForeign k uid) turns
        → Untouched k g (run_registration_loop clock fs from_str turns acks g).registry
    unfolding run_registration_loop
    run_registration_loop-Untouched [] acks g e foreign = Untouched-refl k g
    run_registration_loop-Untouched (turn ∷ turns) acks g e (first, rest) =
        let p = take_turn-Untouched turn acks g e first in
        elim (Sum-cases (take_turn clock fs from_str turn acks g)) [
          | inl (_, h) ↦ rw (run_registration_loop, h) (rw h at p)
          | inr ((acks', g'), h) ↦
              let t : Untouched k g g' = rw h at p in
              let s = run_registration_loop-Untouched turns acks' g' (t.registration ∙ e) rest in
              rw (run_registration_loop, h)
                (record {
                  registration = s.registration ∙ t.registration;
                  connection = s.connection ∙ t.connection;
                })
        ]

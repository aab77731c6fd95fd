-- ===== src/Main/Registrations.antt =====
-- `run_registration_loop` and `write_registration_ack` of src/main.rs. What the socket yields is an
-- explicit list: one entry for each connection, with the time at which it is handled and what writing
-- the answer gives.
use rust_supervisor_relay.Base.{
  ◌≡◌, refl, ◌⊎◌, inl, inr, Bool, true, false, Option, none, some, String, ◌<>◌, List, [], ◌∷◌,
  ◌++◌, arith, Option-cases, Sum-cases,
}
use rust_supervisor_relay.Error.{
  RelayError, RelayResult, ok, err, panic, new, map_err, RelayResult-cases, ◌>>=◌,
}
use rust_supervisor_relay.Time.{OffsetDateTime, Clock}
use rust_supervisor_relay.Paths.{FileSystem}
use rust_supervisor_relay.Registration.{RegistrationRequest, Connection, accept_registration}
use rust_supervisor_relay.Registry.{TargetProcessRegistration, TargetProcessRegistry}
use rust_supervisor_relay.Registry.Register.{register}
use rust_supervisor_relay.Registry.Invariant.{IsValid}
use rust_supervisor_relay.Registry.Reach.{Reach, here, next, registers, Reach_trans, Reach-keeps}

-- The answer to a registration, before it is encoded as JSON.
pub data RegistrationAck : Type 0 where
  registered_ack : String → RegistrationAck
  -- The code, the message and `retryable`.
  rejected_ack : String → String → Bool → RegistrationAck

-- One turn of the loop: what `accept` gives, the time, the encoder of the answer and the stream that
-- takes it, each with the text of its error.
pub record Turn : Type 0 where
  pub incoming : String ⊎ Connection
  pub now : OffsetDateTime
  pub to_vec : RegistrationAck → String ⊎ String
  pub write_all : String → String ⊎ Unit {0}

abbrev pub ack : RelayResult TargetProcessRegistration → Option RegistrationAck
ack (ok r) = some (registered_ack r.target_id)
ack (err e) = some (rejected_ack e.code e.message e.retryable)
ack panic = none

abbrev ack_encode_failed : String → RelayError
ack_encode_failed error =
    new "registration_ack_encode_failed" "registration_ack" none
      ("registration ack could not be encoded: " <> error) false

abbrev ack_write_failed : String → RelayError
ack_write_failed error =
    new "registration_ack_write_failed" "registration_ack" none
      ("registration ack could not be written: " <> error) true

-- `write_registration_ack`, from the answer on.
unfoldable pub write_registration_ack : Turn → RegistrationAck → RelayResult (Unit {0})
write_registration_ack turn answer = do
  line ← map_err ack_encode_failed (turn.to_vec answer)
  map_err ack_write_failed (turn.write_all (line <> "\n"))

-- What the loop leaves: why it ended, where it did, the answers and the registry.
pub record Outcome : Type 0 where
  pub ended : Option RelayError
  pub crashed : Bool
  pub acks : List RegistrationAck
  pub registry : TargetProcessRegistry

module _ (clock : Clock) (fs : FileSystem) (from_str : String → String ⊎ RegistrationRequest) where
  -- One turn: it ends the loop, or the loop goes on behind an answer that was written.
  unfoldable pub take_turn :
      Turn
      → List RegistrationAck
      → TargetProcessRegistry
      → Outcome ⊎ (List RegistrationAck × TargetProcessRegistry)
  unfolding write_registration_ack
  take_turn turn acks registry = elim (accept_registration from_str turn.incoming) [
    | err e ↦ inl (record { ended = some e; crashed = false; acks = acks; registry = registry })
    | panic ↦ inl (record { ended = none; crashed = true; acks = acks; registry = registry })
    | ok accepted ↦
        let (result, registry') =
          register clock fs accepted.request accepted.owner_identity turn.now registry in
        elim (ack result) [
          | none ↦ inl (record { ended = none; crashed = true; acks = acks; registry = registry' })
          | some answer ↦ elim (write_registration_ack turn answer) [
            | err e ↦
                inl (record { ended = some e; crashed = false; acks = acks; registry = registry' })
            | panic ↦
                inl (record { ended = none; crashed = true; acks = acks; registry = registry' })
            | ok _ ↦ inr (acks ++ (answer ∷ []), registry')
          ]
        ]
  ]

  unfoldable pub run_registration_loop :
      List Turn → List RegistrationAck → TargetProcessRegistry → Outcome
  unfolding take_turn
  run_registration_loop [] acks registry = record {
    ended = none;
    crashed = false;
    acks = acks;
    registry = registry;
  }
  run_registration_loop (turn ∷ turns) acks registry = elim (take_turn turn acks registry) [
    | inl outcome ↦ outcome
    | inr (acks', registry') ↦ run_registration_loop turns acks' registry'
  ]

  abbrev pub left : Outcome ⊎ (List RegistrationAck × TargetProcessRegistry) → TargetProcessRegistry
  left (inl outcome) = outcome.registry
  left (inr (acks, registry)) = registry

  take_turn-Reach :
      (turn : Turn) (acks : List RegistrationAck) (g : TargetProcessRegistry)
      → Reach clock fs g (left (take_turn turn acks g))
  unfolding take_turn
  take_turn-Reach turn acks g =
      elim (RelayResult-cases (accept_registration from_str turn.incoming)) [
        | inr (inl (e, h)) ↦ rw (take_turn, h) here
        | inr (inr h) ↦ rw (take_turn, h) here
        | inl (a, h) ↦
            let (result, g') = register clock fs a.request a.owner_identity turn.now g in
            let p = next here (registers a.request a.owner_identity turn.now) in
            elim (Option-cases (ack result)) [
              | inl n ↦ rw (take_turn, h, n) p
              | inr (answer, n) ↦ elim (RelayResult-cases (write_registration_ack turn answer)) [
                | inl (_, w) ↦ rw (take_turn, h, n, w) p
                | inr (inl (e, w)) ↦ rw (take_turn, h, n, w) p
                | inr (inr w) ↦ rw (take_turn, h, n, w) p
              ]
            ]
      ]

  -- The loop reaches the registry through the registry's own calls.
  pub run_registration_loop-Reach :
      (turns : List Turn) (acks : List RegistrationAck) (g : TargetProcessRegistry)
      → Reach clock fs g (run_registration_loop turns acks g).registry
  unfolding run_registration_loop
  run_registration_loop-Reach [] acks g = here
  run_registration_loop-Reach (turn ∷ turns) acks g =
      let p = take_turn-Reach turn acks g in
      elim (Sum-cases (take_turn turn acks g)) [
        | inl (o, h) ↦ rw (run_registration_loop, h) (rw h at p)
        | inr ((acks', g'), h) ↦
            rw (run_registration_loop, h)
              (Reach_trans clock fs (rw h at p) (run_registration_loop-Reach turns acks' g'))
      ]

  -- Whatever connects to the socket and however the loop ends, a valid registry stays valid.
  pub run_registration_loop-IsValid :
      (turns : List Turn) (acks : List RegistrationAck) (g : TargetProcessRegistry)
      → IsValid g
      → IsValid (run_registration_loop turns acks g).registry
  run_registration_loop-IsValid turns acks g v =
      Reach-keeps clock fs (run_registration_loop-Reach turns acks g) v

  -- Where a connection's registration cannot be accepted, read or decoded, the connections behind
  -- it do not matter: none of them is answered or registered, whatever came before.
  pub run_registration_loop_ends :
      (before after : List Turn) (turn : Turn) (acks : List RegistrationAck)
      → (g : TargetProcessRegistry) (e : RelayError)
      → accept_registration from_str turn.incoming ≡ err e
      → run_registration_loop (before ++ (turn ∷ after)) acks g
        ≡ run_registration_loop (before ++ (turn ∷ [])) acks g
  unfolding run_registration_loop
  run_registration_loop_ends [] after turn acks g e h = ground arith
  run_registration_loop_ends (t ∷ before) after turn acks g e h =
      elim (Sum-cases (take_turn t acks g)) [
        | inl (o, q) ↦ rw (run_registration_loop, q) refl
        | inr ((acks', g'), q) ↦
            rw (run_registration_loop, q)
              (run_registration_loop_ends before after turn acks' g' e h)
      ]

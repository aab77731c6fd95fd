-- ===== src/Registry/Verdict.antt =====
-- Which registrations `register` of src/registry.rs takes, and what it then writes.
use rust_supervisor_relay.Base.{◌≡◌, ◌≢◌, none, some, String, lookup, ◌==◌, if◌then◌else◌}
use rust_supervisor_relay.Base.Int.{as_i64}
use rust_supervisor_relay.Error.{RelayError, RelayResult, ok, err, panic}
use rust_supervisor_relay.Time.{OffsetDateTime, Clock}
use rust_supervisor_relay.Paths.{FileSystem}
use rust_supervisor_relay.Registration.{RegistrationRequest}
use rust_supervisor_relay.Registry.{
  active, registered, reconnecting, TargetProcessRegistration, TargetProcessConnection,
  TargetProcessRegistry,
}
use rust_supervisor_relay.Registry.Invariant.{IsAcceptable}
use rust_supervisor_relay.Registry.Place.{Locates}

module _ (fs : FileSystem) (q : RegistrationRequest) (owner_identity : String)
    (now : OffsetDateTime) (g : TargetProcessRegistry) where
  -- The request satisfies the policy, its path is at a place, the target has no other owner and the
  -- place no other target.
  pub record IsAdmissible (place : String) : Type 0 where
    pub acceptable :
        IsAcceptable g.policy q.target_id q.ipc_path q.lease_seconds q.supported_commands
    pub located : Locates fs now q.ipc_path place
    pub owned :
        (r : TargetProcessRegistration)
        → lookup q.target_id g.registrations ≡ some r
        → r.owner_identity ≡ owner_identity
    pub free :
        (j : String) (r : TargetProcessRegistration)
        → lookup j g.registrations ≡ some r
        → r.ipc_path_key ≡ place
        → q.target_id ≡ j

  -- The registration that is asked for.
  abbrev pub wanted : String → OffsetDateTime → OffsetDateTime → TargetProcessRegistration
  wanted place since until = record {
    target_id = q.target_id;
    display_name = q.display_name;
    ipc_path = q.ipc_path;
    ipc_path_key = place;
    owner_identity = owner_identity;
    lease_seconds = q.lease_seconds;
    supported_commands = q.supported_commands;
    registered_at = since;
    renewed_at = now;
    expires_at = until;
    registration_state = active;
    last_rejection = none;
  }

  -- Its target's registration and connection are these, and nothing else is changed.
  pub record IsWritten (r : TargetProcessRegistration) (c : TargetProcessConnection)
      (out : RelayResult TargetProcessRegistration × TargetProcessRegistry) : Type 0 where
    pub result : out.0 ≡ ok r
    pub policy : out.1.policy ≡ g.policy
    pub registrations :
        (j : String)
        → lookup j out.1.registrations
          ≡ (if q.target_id == j then some r else lookup j g.registrations)
    pub connections :
        (j : String)
        → lookup j out.1.connections ≡ (if q.target_id == j then some c else lookup j g.connections)

  module _ (clock : Clock) where
    -- The ways in which a registration ends.
    pub data Verdict (out : RelayResult TargetProcessRegistration × TargetProcessRegistry)
        : Type 0 where
      turned_away :
          (e : RelayError)
          → ((place : String) → ¬ IsAdmissible place)
          → out ≡ (err e, g)
          → Verdict out
      out_of_range :
          (place : String)
          → IsAdmissible place
          → clock.add_seconds now (as_i64 q.lease_seconds) ≡ none
          → out ≡ (panic, g)
          → Verdict out
      taken_first :
          (place : String) (until : OffsetDateTime)
          → IsAdmissible place
          → clock.add_seconds now (as_i64 q.lease_seconds) ≡ some until
          → lookup q.target_id g.registrations ≡ none
          → IsWritten
              (wanted place now until)
              (record {
                target_id = q.target_id;
                ipc_path = q.ipc_path;
                state = registered;
                last_error = none;
                last_state_generation = none;
                last_sequence = none;
                connected_at = none;
                updated_at = now;
              })
              out
          → Verdict out
      taken_again :
          (place : String) (until : OffsetDateTime) (r : TargetProcessRegistration)
          (c : TargetProcessConnection)
          → IsAdmissible place
          → clock.add_seconds now (as_i64 q.lease_seconds) ≡ some until
          → lookup q.target_id g.registrations ≡ some r
          → lookup q.target_id g.connections ≡ some c
          → r.ipc_path_key ≡ place
          → IsWritten
              (wanted place r.registered_at until)
              (record c { ipc_path = q.ipc_path; updated_at = now })
              out
          → Verdict out
      taken_elsewhere :
          (place : String) (until : OffsetDateTime) (r : TargetProcessRegistration)
          (c : TargetProcessConnection)
          → IsAdmissible place
          → clock.add_seconds now (as_i64 q.lease_seconds) ≡ some until
          → lookup q.target_id g.registrations ≡ some r
          → lookup q.target_id g.connections ≡ some c
          → r.ipc_path_key ≢ place
          → IsWritten
              (wanted place r.registered_at until)
              (record c {
                ipc_path = q.ipc_path;
                updated_at = now;
                state = reconnecting;
                last_error = some "ipc_path_changed";
                connected_at = none;
              })
              out
          → Verdict out

-- ===== src/Registry/Register.antt =====
-- `register` and `upsert_existing_registration` of src/registry.rs.
use rust_supervisor_relay.Base.{
  ℕ, Bool, true, false, not, ◌&&◌, Option, none, some, String, List, [], ◌∷◌, any, ◌==◌,
  if◌then◌else◌, HashMap, lookup, contains_key, insert,
}
use rust_supervisor_relay.Base
use rust_supervisor_relay.Base.Int.{as_i64}
use rust_supervisor_relay.Error.{RelayError, new, for_target, reject_if, ok_or, or_panic}
use rust_supervisor_relay.Effect.{M, pure, lift, gets, modify, ◌>>=◌, ◌>>◌}
use rust_supervisor_relay.Time.{OffsetDateTime, Clock}
use rust_supervisor_relay.Paths.{FileSystem}
use rust_supervisor_relay.Registration.{RegistrationRequest}
use rust_supervisor_relay.Registry.{
  active, registered, reconnecting, TargetProcessRegistration, TargetProcessConnection,
  TargetProcessRegistry,
}
use rust_supervisor_relay.Registry.Validate.{validate_request, normalize_ipc_path_key}

-- Another identity holds the target id.
abbrev pub owned_by_other : Option TargetProcessRegistration → String → Bool
owned_by_other none owner_identity = false
owned_by_other (some existing) owner_identity = not (existing.owner_identity == owner_identity)

-- Another target holds the path.
abbrev pub holds_path : String → String → String × TargetProcessRegistration → Bool
holds_path target_id ipc_path_key (other, r) =
    not (other == target_id) && r.ipc_path_key == ipc_path_key

abbrev pub owner_mismatch : String → RelayError
owner_mismatch target_id =
    for_target "target_id_owner_mismatch" "registration" target_id
      "target id is owned by another supervisor identity" false

abbrev pub path_conflict : RelayError
path_conflict =
    new "ipc_path_conflict" "registration" none "ipc path is already used by another target" false

-- The record that both branches of `register` build.
abbrev pub registration_of :
    RegistrationRequest
    → String
    → String
    → OffsetDateTime
    → OffsetDateTime
    → OffsetDateTime
    → TargetProcessRegistration
registration_of q owner_identity ipc_path_key registered_at now expires_at = record {
  target_id = q.target_id;
  display_name = q.display_name;
  ipc_path = q.ipc_path;
  ipc_path_key = ipc_path_key;
  owner_identity = owner_identity;
  lease_seconds = q.lease_seconds;
  supported_commands = q.supported_commands;
  registered_at = registered_at;
  renewed_at = now;
  expires_at = expires_at;
  registration_state = active;
  last_rejection = none;
}

abbrev pub connection_of : RegistrationRequest → OffsetDateTime → TargetProcessConnection
connection_of q now = record {
  target_id = q.target_id;
  ipc_path = q.ipc_path;
  state = registered;
  last_error = none;
  last_state_generation = none;
  last_sequence = none;
  connected_at = none;
  updated_at = now;
}

-- What an upsert writes into the connection record.
abbrev pub moved :
    Bool → String → OffsetDateTime → TargetProcessConnection → TargetProcessConnection
moved path_changed ipc_path now c =
    if path_changed
    then record c {
      ipc_path = ipc_path;
      updated_at = now;
      state = reconnecting;
      last_error = some "ipc_path_changed";
      connected_at = none;
    }
    else record c { ipc_path = ipc_path; updated_at = now }

-- The writes of a first registration and of an upsert.
abbrev pub add_target :
    TargetProcessRegistration
    → TargetProcessConnection
    → TargetProcessRegistry
    → TargetProcessRegistry
add_target r c registry = record registry {
  connections = insert r.target_id c registry.connections;
  registrations = insert r.target_id r registry.registrations;
}

abbrev pub update_target :
    TargetProcessRegistration
    → (TargetProcessConnection → TargetProcessConnection)
    → TargetProcessRegistry
    → TargetProcessRegistry
update_target r f registry = record registry {
  connections = Base.modify r.target_id f registry.connections;
  registrations = insert r.target_id r registry.registrations;
}

module _ (clock : Clock) where
  -- `now + Duration::seconds(lease_seconds as i64)`
  abbrev pub lease_end : OffsetDateTime → ℕ → Option OffsetDateTime
  lease_end now lease_seconds = clock.add_seconds now (as_i64 lease_seconds)

  unfoldable pub upsert_existing_registration :
      RegistrationRequest
      → String
      → String
      → OffsetDateTime
      → M TargetProcessRegistry TargetProcessRegistration
  upsert_existing_registration q owner_identity ipc_path_key now = do
    found ← gets (λ registry. lookup q.target_id registry.registrations)
    existing ← lift (
        ok_or found (
          for_target "target_not_registered" "registration" q.target_id "target is not registered"
            true))
    let path_changed = not (existing.ipc_path_key == ipc_path_key)
    expires_at ← lift (or_panic (lease_end now q.lease_seconds))
    let r = registration_of q owner_identity ipc_path_key existing.registered_at now expires_at
    modify (update_target r (moved path_changed q.ipc_path now))
    pure r

  unfoldable pub insert_registration :
      RegistrationRequest
      → String
      → String
      → OffsetDateTime
      → M TargetProcessRegistry TargetProcessRegistration
  insert_registration q owner_identity ipc_path_key now = do
    expires_at ← lift (or_panic (lease_end now q.lease_seconds))
    let r = registration_of q owner_identity ipc_path_key now now expires_at
    modify (add_target r (connection_of q now))
    pure r

  unfoldable pub register :
      FileSystem
      → RegistrationRequest
      → String
      → OffsetDateTime
      → M TargetProcessRegistry TargetProcessRegistration
  unfolding upsert_existing_registration insert_registration
  register fs q owner_identity now = do
    policy ← gets (λ registry. registry.policy)
    lift (validate_request policy q)
    ipc_path_key ← lift (normalize_ipc_path_key fs now q.ipc_path)
    registrations ← gets (λ registry. registry.registrations)
    lift (
        reject_if (owned_by_other (lookup q.target_id registrations) owner_identity)
          (owner_mismatch q.target_id))
    lift (reject_if (any (holds_path q.target_id ipc_path_key) registrations) path_conflict)
    if contains_key q.target_id registrations
        then upsert_existing_registration q owner_identity ipc_path_key now
        else insert_registration q owner_identity ipc_path_key now

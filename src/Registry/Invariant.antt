-- ===== src/Registry/Invariant.antt =====
-- The invariant of the registry: its two maps list the same targets, every registration satisfies
-- the policy, and no two targets have the same path key.
use rust_supervisor_relay.Base.{
  refl, [], ◌∷◌, ℕ, ◌≤◌, ◌≡◌, ◌↔◌, true, false, Option, none, some, String, List, any, arith, All,
  is_empty, trim, lookup, NodupKeys,
}
use rust_supervisor_relay.Error.{ok}
use rust_supervisor_relay.Config.{RegistrationPolicy, ipc_path_is_allowed}
use rust_supervisor_relay.Registration.{SupportedCommand, RegistrationRequest}
use rust_supervisor_relay.Registry.{
  TargetProcessRegistration, TargetProcessConnection, TargetProcessRegistry, empty,
}
use rust_supervisor_relay.Registry.Validate.{validate_request, invalid_command}

-- A command has a name that is not blank and a time limit.
abbrev pub IsCommand : SupportedCommand → Type 0
IsCommand c = (is_empty (trim c.name) ≡ false) × (1 ≤ c.timeout_seconds)

invalid_command_iff : (c : SupportedCommand) → (invalid_command c ≡ false) ↔ IsCommand c
invalid_command_iff c = (λ h. (ground arith, ground arith), λ (n, t). ground arith)

any-invalid_command_iff :
    (commands : List SupportedCommand)
    → (any invalid_command commands ≡ false) ↔ All IsCommand commands
any-invalid_command_iff [] = (λ h. tt, λ h. refl)
any-invalid_command_iff (c ∷ commands) =
    let (there, back) = any-invalid_command_iff commands in
    let (valid, test) = invalid_command_iff c in
    (
      λ h. (valid (ground arith), there (ground arith)),
      λ (v, vs). let x = test v in let y = back vs in ground arith,
    )

-- What the policy asks of a target.
pub record IsAcceptable (policy : RegistrationPolicy) (target_id ipc_path : String)
    (lease_seconds : ℕ) (commands : List SupportedCommand) : Type 0 where
  pub identified : is_empty (trim target_id) ≡ false
  pub allowed : ipc_path_is_allowed policy ipc_path ≡ true
  pub lease_pos : 1 ≤ lease_seconds
  pub lease_le : lease_seconds ≤ policy.max_lease_seconds
  pub commands_valid : All IsCommand commands

-- A request is valid exactly when its target id is not blank, its path is under an allowed prefix,
-- its lease lies between one second and the maximum and all its commands are well formed.
pub validate_request_iff :
    (policy : RegistrationPolicy) (q : RegistrationRequest)
    → (validate_request policy q ≡ ok tt)
      ↔ IsAcceptable policy q.target_id q.ipc_path q.lease_seconds q.supported_commands
unfolding validate_request ipc_path_is_allowed
validate_request_iff policy q = (
  λ h. record {
    identified = ground arith;
    allowed = ground arith;
    lease_pos = ground arith;
    lease_le = ground arith;
    commands_valid = (any-invalid_command_iff q.supported_commands).0 (ground arith);
  },
  λ a.
      let commands = (any-invalid_command_iff q.supported_commands).1 a.commands_valid in
      ground (arith, a.identified, a.allowed, a.lease_pos, a.lease_le, commands),
)

-- A registration stands under its own id and satisfies the policy.
pub record IsAccepted (policy : RegistrationPolicy) (k : String) (r : TargetProcessRegistration)
    : Type 0 where
  pub named : r.target_id ≡ k
  pub acceptable : IsAcceptable policy k r.ipc_path r.lease_seconds r.supported_commands

-- A target has both records or neither, and they name the same target and socket.
abbrev pub Linked : Option TargetProcessRegistration → Option TargetProcessConnection → Type 0
Linked none none = Unit
Linked (some r) (some c) = (c.target_id ≡ r.target_id) × (c.ipc_path ≡ r.ipc_path)
Linked _ _ = ⊥

pub record IsValid (g : TargetProcessRegistry) : Type 0 where
  pub nodup_registrations : NodupKeys g.registrations
  pub nodup_connections : NodupKeys g.connections
  pub accepted : All (λ (k, r). IsAccepted g.policy k r) g.registrations
  pub linked : (k : String) → Linked (lookup k g.registrations) (lookup k g.connections)
  pub distinct :
      (j k : String) (r s : TargetProcessRegistration)
      → lookup j g.registrations ≡ some r
      → lookup k g.registrations ≡ some s
      → r.ipc_path_key ≡ s.ipc_path_key
      → j ≡ k

pub empty-IsValid : (policy : RegistrationPolicy) → IsValid (empty policy)
unfolding lookup
empty-IsValid policy = record {
  nodup_registrations = tt;
  nodup_connections = tt;
  accepted = tt;
  linked = λ k. tt;
  distinct = λ j k r s e. cc;
}

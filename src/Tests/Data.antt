-- ===== src/Tests/Data.antt =====
-- A small world for the tests: a clock that never overflows, a file system without links, two
-- targets, a JSON type and a target's side that always answers.
use rust_supervisor_relay.Base.{
  ℕ, suc, ◌+◌, ◌-◌, ◌*◌, ◌≡◌, inl, inr, true, false, none, some, String, List, [], ◌∷◌, arith, ◌==◌,
  ltb, if◌then◌else◌,
}
use rust_supervisor_relay.Base.Int.{pos, negsuc}
use rust_supervisor_relay.Error.{RelayError, ok, err, new}
use rust_supervisor_relay.Time.{Clock, IsLawful}
use rust_supervisor_relay.Paths.{Component, FileSystem}
use rust_supervisor_relay.Config.{
  v4, Parsers, TrustedProxyConfig, RegistrationPolicy, DashboardRelayConfig,
}
use rust_supervisor_relay.Auth.{RemoteIdentity, mtls}
use rust_supervisor_relay.Command.{restart_child, ClientCommand, ControlCommandResult}
use rust_supervisor_relay.Registration.{
  SupportedCommand, RegistrationRequest, supported_command, registration_request,
}
use rust_supervisor_relay.Registry.{
  TargetProcessRegistration, TargetProcessConnection, TargetProcessRegistry, registered, active,
}
use rust_supervisor_relay.Ipc.{DashboardState, TargetIpcPort}
use rust_supervisor_relay.Session.{ConnectionStateForSession, ControlState, DashboardSession}
use rust_supervisor_relay.Session.Context.{Context}

abbrev pub clock : Clock
clock = record {
  add_seconds = λ t d. elim d [
    | pos n ↦ some (t + n * 1_000_000_000)
    | negsuc n ↦ if ltb t (suc n * 1_000_000_000) then none else some (t - suc n * 1_000_000_000)
  ];
  unix_nanos = λ t. pos t;
}

clock_back :
    (t u n : ℕ)
    → (if ltb t (suc n * 1_000_000_000) then none else some (t - suc n * 1_000_000_000)) ≡ some u
    → u + suc n * 1_000_000_000 ≡ t
clock_back t u n h = ground arith

pub clock-IsLawful : IsLawful clock
clock-IsLawful = record {
  add_seconds_exact = λ t u n h. ground arith;
  add_seconds_back = λ t u n h. clock_back t u n h;
}

abbrev path_text : List Component → String
path_text _ = "/run/targets"

abbrev pub fs : FileSystem
fs = record { is_symlink = λ _ _. false; canonicalize = λ _ path. inr (path_text path) }

abbrev pub policy : RegistrationPolicy
policy = record {
  listen_path = "/run/relay.sock";
  permissions = "0600";
  allowed_ipc_path_prefixes = "/run/targets" ∷ [];
  default_lease_seconds = 30;
  max_lease_seconds = 60;
}

abbrev pub parsers : Parsers
parsers = record {
  socket_addr = λ _. inr tt;
  ip_addr = λ s. if s == "10.0.0.1" then inr (v4 1) else inl "not an address";
  url_scheme = λ _. inr "wss";
}

abbrev pub proxy : TrustedProxyConfig
proxy = record {
  enabled = true;
  allowed_remote_addrs = "10.0.0.1" ∷ [];
  identity_header = "X-Identity";
}

abbrev pub config : DashboardRelayConfig
config = record {
  listen = record { bind = "0.0.0.0:8443"; public_url = "wss://relay" };
  tls = record { certificate_path = "/c.pem"; private_key_path = "/k.pem"; client_ca_path = "" };
  trusted_proxy = proxy;
  registration = policy;
}

abbrev restart : SupportedCommand
restart = supported_command "restart_child" true 5

abbrev pub request : RegistrationRequest
request = registration_request "alpha" "Alpha" "/run/targets/alpha.sock" 30 (restart ∷ [])

-- The registration of `request` at time 0.
abbrev pub alpha : TargetProcessRegistration
alpha = record {
  target_id = "alpha";
  display_name = "Alpha";
  ipc_path = "/run/targets/alpha.sock";
  ipc_path_key = "/run/targets/alpha.sock";
  owner_identity = "unix_uid:501";
  lease_seconds = 30;
  supported_commands = restart ∷ [];
  registered_at = 0;
  renewed_at = 0;
  expires_at = 30_000_000_000;
  registration_state = active;
  last_rejection = none;
}

abbrev pub alpha_link : TargetProcessConnection
alpha_link = record {
  target_id = "alpha";
  ipc_path = "/run/targets/alpha.sock";
  state = registered;
  last_error = none;
  last_state_generation = none;
  last_sequence = none;
  connected_at = none;
  updated_at = 0;
}

abbrev pub registry : TargetProcessRegistry
registry = record {
  policy = policy;
  registrations = ("alpha", alpha) ∷ [];
  connections = ("alpha", alpha_link) ∷ [];
}

abbrev pub identity : RemoteIdentity
identity = record {
  client_identity = "id";
  subject = "CN=ops";
  issuer = "CN=ca";
  serial_number = "1";
  principal = "CN=ops";
  source = mtls;
  not_before = 0;
  not_after = 100;
}

abbrev pub session : DashboardSession String
session = record {
  session_id = "s";
  remote_identity = some identity;
  client_store_id = some "store";
  connection_state = ConnectionStateForSession.established;
  control_state = ControlState.established;
  bound_targets = [];
  last_sequences = [];
  outbox = [];
  created_at = 0;
  last_seen_at = 0;
}

abbrev pub alpha_bound : DashboardSession String
alpha_bound = record session { bound_targets = "alpha" ∷ []; last_sequences = ("alpha", 4) ∷ [] }

abbrev pub command : ClientCommand
command = record {
  command_id = "c1";
  correlation_id = none;
  target_id = "alpha";
  command = restart_child;
  target = record { child_path = some "/web" };
  reason = "stuck";
  confirmed = false;
  requested_by = none;
}

abbrev pub reported : DashboardState String
reported = record { target_id = "alpha"; state_generation = 7; generated_at = 1; payload = "{}" }

abbrev pub answer : ControlCommandResult
answer = record {
  command_id = "c1";
  correlation_id = none;
  target_id = "alpha";
  accepted = true;
  status = "completed";
  requested_by = "CN=ops";
  completed_at = 1;
}

abbrev pub broken : RelayError
broken = new "ipc_connect_failed" "ipc_connect" none "no such file" true

-- A targets' side that answers every call.
abbrev pub port : TargetIpcPort String (Unit {0})
port = record {
  connect_state = λ _ _ w. (ok reported, w);
  subscribe_event_log = λ _ _ w. (ok tt, w);
  forward_command = λ _ _ _ w. (ok answer, w);
}

abbrev pub refusing : TargetIpcPort String (Unit {0})
refusing = record port { connect_state = λ _ _ w. (err broken, w) }

abbrev pub unsubscribable : TargetIpcPort String (Unit {0})
unsubscribable = record port { subscribe_event_log = λ _ _ w. (err broken, w) }

abbrev pub context : Context String (Unit {0})
context = record {
  session = session;
  registry = registry;
  audit = record { events = [] };
  world = tt;
}

abbrev pub bound_context : Context String (Unit {0})
bound_context = record context { session = alpha_bound }

abbrev pub new_v4 : ℕ → String
new_v4 _ = "uuid"

-- ===== src/Command/Laws.antt =====
-- The wire names are a round trip, and a prepared command has passed every check.
use rust_supervisor_relay.Base.{
  ◌≡◌, refl, ◌↔◌, true, false, none, String, arith, eq_iff, is_empty, trim,
}
use rust_supervisor_relay.Error.{ok}
use rust_supervisor_relay.Time.{OffsetDateTime}
use rust_supervisor_relay.Auth.{RemoteIdentity}
use rust_supervisor_relay.Command.{
  ControlCommandName, restart_child, pause_child, resume_child, quarantine_child, remove_child,
  add_child, shutdown_tree, ClientCommand, PreparedCommand, from_wire, wire_name,
  requires_confirmation, prepare_client_command,
}

from_wire-wire_name : (c : ControlCommandName) → from_wire (wire_name c) ≡ ok c
unfolding from_wire wire_name
from_wire-wire_name restart_child = refl
from_wire-wire_name pause_child = refl
from_wire-wire_name resume_child = refl
from_wire-wire_name quarantine_child = refl
from_wire-wire_name remove_child = refl
from_wire-wire_name add_child = refl
from_wire-wire_name shutdown_tree = refl

from_wire-eq_ok : (s : String) (c : ControlCommandName) → from_wire s ≡ ok c → s ≡ wire_name c
unfolding from_wire wire_name
from_wire-eq_ok s c h = ground (
  arith,
  eq_iff s "restart_child",
  eq_iff s "pause_child",
  eq_iff s "resume_child",
  eq_iff s "quarantine_child",
  eq_iff s "remove_child",
  eq_iff s "add_child",
  eq_iff s "shutdown_tree",
)

-- A text parses to a command exactly when it is that command's wire name, so no alias is accepted.
pub from_wire_iff : (s : String) (c : ControlCommandName) → (from_wire s ≡ ok c) ↔ (s ≡ wire_name c)
from_wire_iff s c = (from_wire-eq_ok s c, λ e. rw e (from_wire-wire_name c))

-- What a client's command must satisfy to be forwarded.
pub record IsAllowed (c : ClientCommand) : Type 0 where
  pub identified : is_empty (trim c.command_id) ≡ false
  pub not_overridden : c.requested_by ≡ none
  pub reasoned : is_empty (trim c.reason) ≡ false
  pub confirmed : requires_confirmation c.command ≡ true → c.confirmed ≡ true

-- The command that is forwarded for a client's command.
abbrev pub prepared : ClientCommand → RemoteIdentity → OffsetDateTime → PreparedCommand
prepared c identity now = record {
  command_id = c.command_id;
  correlation_id = c.correlation_id;
  target_id = c.target_id;
  command = c.command;
  target = c.target;
  reason = c.reason;
  requested_by = identity.principal;
  confirmed = c.confirmed;
  requested_at = now;
}

-- A client's command is prepared exactly when it has an id and a reason, names no requester and is
-- confirmed if it is dangerous; what is prepared is the client's command with the relay's identity.
pub prepare_client_command_iff :
    (c : ClientCommand) (identity : RemoteIdentity) (now : OffsetDateTime) (p : PreparedCommand)
    → (prepare_client_command c identity now ≡ ok p) ↔ (IsAllowed c × (p ≡ prepared c identity now))
unfolding prepare_client_command
prepare_client_command_iff c identity now p = (
  λ h. (
    record {
      identified = ground arith;
      not_overridden = ground arith;
      reasoned = ground arith;
      confirmed = λ d. ground arith;
    },
    ground arith,
  ),
  λ (a, e). ground (arith, a.identified, a.not_overridden, a.reasoned, a.confirmed, e),
)

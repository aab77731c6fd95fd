-- ===== src/Audit.antt =====
-- src/audit.rs: the in-memory audit trail.
use rust_supervisor_relay.Base.{ℕ, Option, String, List, [], ◌∷◌, ◌++◌, length}
use rust_supervisor_relay.Time.{OffsetDateTime}
use rust_supervisor_relay.Auth.{RemoteIdentity}
use rust_supervisor_relay.Command.{
  ControlCommandName, restart_child, pause_child, resume_child, quarantine_child, remove_child,
  add_child, shutdown_tree, PreparedCommand,
}

pub data AuditResult : Type 0 where
  accepted rejected completed : AuditResult

pub record AuditEvent : Type 0 where
  pub audit_id : String
  pub identity_principal : String
  pub target_id : String
  pub command_id : String
  pub command : String
  pub target : Option String
  pub reason : String
  pub result : AuditResult
  pub detail : String
  pub occurred_at : OffsetDateTime

pub record AuditRecorder : Type 0 where
  pub events : List AuditEvent

-- `format!("{:?}")` of a command name.
unfoldable pub debug_name : ControlCommandName → String
debug_name restart_child = "RestartChild"
debug_name pause_child = "PauseChild"
debug_name resume_child = "ResumeChild"
debug_name quarantine_child = "QuarantineChild"
debug_name remove_child = "RemoveChild"
debug_name add_child = "AddChild"
debug_name shutdown_tree = "ShutdownTree"

-- The argument gives the results of the recorder's successive calls of `Uuid::new_v4`.
module _ (new_v4 : ℕ → String) where
  -- The event that `record` writes behind the events so far.
  abbrev pub audit_event :
      RemoteIdentity
      → PreparedCommand
      → AuditResult
      → String
      → OffsetDateTime
      → List AuditEvent
      → AuditEvent
  audit_event identity c result detail now events = record {
    audit_id = new_v4 (length events);
    identity_principal = identity.principal;
    target_id = c.target_id;
    command_id = c.command_id;
    command = debug_name c.command;
    target = c.target.child_path;
    reason = c.reason;
    result = result;
    detail = detail;
    occurred_at = now;
  }

  -- `record`
  unfoldable pub record_event :
      RemoteIdentity
      → PreparedCommand
      → AuditResult
      → String
      → OffsetDateTime
      → AuditRecorder
      → AuditRecorder
  record_event identity c result detail now audit = record audit {
    events = audit.events ++ (audit_event identity c result detail now audit.events ∷ []);
  }

  unfoldable pub record_accepted :
      RemoteIdentity → PreparedCommand → OffsetDateTime → AuditRecorder → AuditRecorder
  unfolding record_event
  record_accepted identity c now = record_event identity c accepted "accepted" now

  unfoldable pub record_rejected :
      RemoteIdentity → PreparedCommand → String → OffsetDateTime → AuditRecorder → AuditRecorder
  unfolding record_event
  record_rejected identity c detail now = record_event identity c rejected detail now

  unfoldable pub record_completed :
      RemoteIdentity → PreparedCommand → String → OffsetDateTime → AuditRecorder → AuditRecorder
  unfolding record_event
  record_completed identity c detail now = record_event identity c completed detail now

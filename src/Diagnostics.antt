-- ===== src/Diagnostics.antt =====
-- src/diagnostics.rs: the fields of a diagnostic, which no other file of the relay uses.
use rust_supervisor_relay.Base.{Option, String}
use rust_supervisor_relay.Time.{OffsetDateTime}

pub record DiagnosticEvent : Type 0 where
  pub stage : String
  pub target_id : Option String
  pub code : String
  pub message : String
  pub occurred_at : OffsetDateTime

-- `DiagnosticEvent::new`
abbrev pub diagnostic : String → Option String → String → String → OffsetDateTime → DiagnosticEvent
diagnostic stage target_id code message occurred_at = record {
  stage = stage;
  target_id = target_id;
  code = code;
  message = message;
  occurred_at = occurred_at;
}

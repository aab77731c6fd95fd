-- ===== src/Session/Trail.antt =====
-- What a command leaves in the audit trail (src/session.rs and src/audit.rs).
use rust_supervisor_relay.Base.{List, [], ◌∷◌, ◌++◌, length, ℕ, ◌≡◌, inl, inr, String, arith}
use rust_supervisor_relay.Error.{RelayResult, RelayError, ok, err, panic, RelayResult-cases}
use rust_supervisor_relay.Time.{OffsetDateTime}
use rust_supervisor_relay.Auth.{RemoteIdentity}
use rust_supervisor_relay.Command.{ClientCommand, PreparedCommand, ControlCommandResult}
use rust_supervisor_relay.Command.Laws.{prepared}
use rust_supervisor_relay.Registry.{TargetProcessRegistration}
use rust_supervisor_relay.Audit.{
  AuditEvent, AuditResult, accepted, rejected, completed, debug_name, record_accepted,
  record_rejected, record_completed,
}
use rust_supervisor_relay.Ipc.{TargetIpcPort}
use rust_supervisor_relay.Session.Context.{Context}
use rust_supervisor_relay.Session.{push, command_result}
use rust_supervisor_relay.Session.Control.{
  refresh_target_state_after_command, refresh_or_report, finish_command, forward_prepared,
  handle_command,
}
use rust_supervisor_relay.Session.Gate.{IsAuthorized, handle_command_cases}

module _ {Value World : Type 0} (port : TargetIpcPort Value World) (new_v4 : ℕ → String) where
  refresh_audit :
      (k : String) (now : OffsetDateTime) (c : Context Value World)
      → (refresh_target_state_after_command port new_v4 k now c).1.audit ≡ c.audit
  unfolding refresh_target_state_after_command
  refresh_audit k now c = ground arith

  refresh_or_report_audit :
      (k : String) (now : OffsetDateTime) (c : Context Value World)
      → (refresh_or_report port new_v4 k now c).1.audit ≡ c.audit
  unfolding refresh_or_report
  refresh_or_report_audit k now c = ground (arith, refresh_audit k now c)

  finish_command_audit :
      (identity : RemoteIdentity) (p : PreparedCommand) (answer : ControlCommandResult)
      → (now : OffsetDateTime) (c : Context Value World)
      → (finish_command port new_v4 identity p answer now c).1.audit
        ≡ record_completed new_v4 identity p answer.status now c.audit
  unfolding finish_command
  finish_command_audit identity p answer now c =
      let completed = record c {
        audit = record_completed new_v4 identity p answer.status now c.audit;
        session = push (command_result answer.target_id answer) c.session;
      } in
      ground (arith, refresh_or_report_audit answer.target_id now completed)

  -- The entry of an event behind the others.
  abbrev entry :
      RemoteIdentity
      → ClientCommand
      → AuditResult
      → String
      → OffsetDateTime
      → List AuditEvent
      → List AuditEvent
  entry identity c result detail now events =
      events
      ++ (record {
        audit_id = new_v4 (length events);
        identity_principal = identity.principal;
        target_id = c.target_id;
        command_id = c.command_id;
        command = debug_name c.command;
        target = c.target.child_path;
        reason = c.reason;
        result = result;
        detail = detail;
        occurred_at = now;
      }
          ∷ [])

  -- The trail with the acceptance of the command.
  abbrev begun : RemoteIdentity → ClientCommand → OffsetDateTime → List AuditEvent → List AuditEvent
  begun identity c now events = entry identity c accepted "accepted" now events

  pub data LeavesTrail (c : ClientCommand) (now : OffsetDateTime) (ctx : Context Value World)
      (out : RelayResult ControlCommandResult × Context Value World) : Type 0 where
    refused : (e : RelayError) → out ≡ (err e, ctx) → LeavesTrail c now ctx out
    crashed :
        (identity : RemoteIdentity) (r : TargetProcessRegistration)
        → IsAuthorized ctx c now identity r
        → (port.forward_command r (prepared c identity now) now ctx.world).0 ≡ panic
        → out.0 ≡ panic
        → out.1.audit.events ≡ begun identity c now ctx.audit.events
        → LeavesTrail c now ctx out
    failed :
        (identity : RemoteIdentity) (r : TargetProcessRegistration) (e : RelayError)
        → IsAuthorized ctx c now identity r
        → (port.forward_command r (prepared c identity now) now ctx.world).0 ≡ err e
        → out.0 ≡ err e
        → out.1.audit.events
          ≡ entry identity c rejected e.message now (begun identity c now ctx.audit.events)
        → LeavesTrail c now ctx out
    answered :
        (identity : RemoteIdentity) (r : TargetProcessRegistration) (answer : ControlCommandResult)
        → IsAuthorized ctx c now identity r
        → (port.forward_command r (prepared c identity now) now ctx.world).0 ≡ ok answer
        → out.1.audit.events
          ≡ entry identity c completed answer.status now (begun identity c now ctx.audit.events)
        → LeavesTrail c now ctx out

  -- A command leaves one of four trails. Refused before the target is called, it changes nothing.
  -- Otherwise it was authorized, and behind the entries so far stands a new one, `accepted`; alone,
  -- where the call of the target panics; with one more, `rejected`, with the message of the error of
  -- the call, which is the result; or with one more, `completed`, with the status that the target
  -- answers. Each entry has the next id that is drawn, the operator's principal, the command's id,
  -- name, target, child and reason, and the time of the call.
  pub handle_command_trail :
      (c : ClientCommand) (now : OffsetDateTime) (ctx : Context Value World)
      → LeavesTrail c now ctx (handle_command port new_v4 c now ctx)
  unfolding forward_prepared record_accepted record_rejected record_completed
  handle_command_trail c now ctx = elim (handle_command_cases port new_v4 c now ctx) [
    | inl (e, q) ↦ refused e q
    | inr (identity, r, a, q) ↦
        rw q
          (elim (RelayResult-cases
            (port.forward_command r (prepared c identity now) now ctx.world).0) [
              | inl (answer, x) ↦
                  let ctx' = record ctx {
                    audit = record_accepted new_v4 identity (prepared c identity now) now ctx.audit;
                    world = (port.forward_command r (prepared c identity now) now ctx.world).1;
                  } in
                  answered identity r answer a x (
                    ground (
                      arith,
                      finish_command_audit identity (prepared c identity now) answer now ctx',
                    ))
              | inr (inl (e, x)) ↦ failed identity r e a x (ground arith) (ground arith)
              | inr (inr x) ↦ crashed identity r a x (ground arith) (ground arith)
            ])
  ]

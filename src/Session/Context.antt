-- ===== src/Session/Context.antt =====
-- What a session works on: itself, the shared registry, the audit trail and the targets' side.
use rust_supervisor_relay.Error.{ok, err, panic}
use rust_supervisor_relay.Effect.{M}
use rust_supervisor_relay.Registry.{TargetProcessRegistry}
use rust_supervisor_relay.Audit.{AuditRecorder}
use rust_supervisor_relay.Session.{DashboardSession}
use rust_supervisor_relay.Base.{Bool, true, false}

pub record Context (Value World : Type 0) : Type 0 where
  pub session : DashboardSession Value
  pub registry : TargetProcessRegistry
  pub audit : AuditRecorder
  pub world : World

module _ {Value World A : Type 0} where
  abbrev pub on_session : M (DashboardSession Value) A → M (Context Value World) A
  on_session m c = let (r, s) = m c.session in (r, record c { session = s })

  abbrev pub on_registry : M TargetProcessRegistry A → M (Context Value World) A
  on_registry m c = let (r, g) = m c.registry in (r, record c { registry = g })

  abbrev pub on_world : M World A → M (Context Value World) A
  on_world m c = let (r, w) = m c.world in (r, record c { world = w })

  -- Whether a step succeeds; its error is dropped.
  abbrev pub succeeds : M (Context Value World) A → M (Context Value World) Bool
  succeeds m c =
      let (r, c') = m c in
      elim r [ ok _ ↦ (ok true, c') | err _ ↦ (ok false, c') | panic ↦ (panic, c') ]

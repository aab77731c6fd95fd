-- ===== src/Session/Settled.antt =====
-- `bind_target` of src/session.rs with a target's side that always answers.
use rust_supervisor_relay.Base.{◌≡◌, refl, inl, inr, true, some, String, arith, lookup, Bool-cases}
use rust_supervisor_relay.Error.{ok}
use rust_supervisor_relay.Time.{OffsetDateTime}
use rust_supervisor_relay.Registry.{TargetProcessRegistration, ensure_target_active}
use rust_supervisor_relay.Registry.Link.{to_connecting, to_connected}
use rust_supervisor_relay.Registry.Invariant.{IsValid}
use rust_supervisor_relay.Registry.Preserve.{with_connection-IsValid}
use rust_supervisor_relay.Ipc.{DashboardState, TargetIpcPort}
use rust_supervisor_relay.Session.{contains, bind, push, in_control, ensure_control_established}
use rust_supervisor_relay.Session.Context.{Context}
use rust_supervisor_relay.Session.Bind.{bind_target, connect_and_subscribe}
use rust_supervisor_relay.Session.Gate.{IsLive, ensure_target_active_cases, bind_target_live}
use rust_supervisor_relay.Session.Binding.{Linked-some, subscribed, begun}

-- Every target reports its state and lets itself be subscribed to.
pub record IsAnswering {Value World : Type 0} (port : TargetIpcPort Value World) : Type 0 where
  pub reports :
      (r : TargetProcessRegistration) (now : OffsetDateTime) (w : World)
      → (reported : DashboardState Value) × (w' : World) × (port.connect_state r now w
          ≡ (ok reported, w'))
  pub subscribes :
      (r : TargetProcessRegistration) (now : OffsetDateTime) (w : World)
      → (w' : World) × (port.subscribe_event_log r now w ≡ (ok tt, w'))

-- A context in which targets can be bound.
pub record IsBindable {Value World : Type 0} (c : Context Value World) : Type 0 where
  pub valid : IsValid c.registry
  pub controlled : in_control c.session ≡ true

-- What a binding that succeeds leaves of a context.
pub record IsBound {Value World : Type 0} (k : String) (c c' : Context Value World) : Type 0 where
  pub bindable : IsBindable c'
  pub kept : c'.registry.registrations ≡ c.registry.registrations
  pub targets : c'.session.bound_targets ≡ bind c.session.bound_targets k

module _ {Value World : Type 0} (port : TargetIpcPort Value World) (answers : IsAnswering port)
    (k : String) (now : OffsetDateTime) where
  connect_and_subscribe-IsBound :
      (c : Context Value World) (r : TargetProcessRegistration)
      → IsBindable c
      → lookup k c.registry.registrations ≡ some r
      → let (result, c') = connect_and_subscribe port k r now c in (result ≡ ok tt) × IsBound k c c'
  unfolding push
  connect_and_subscribe-IsBound c r b e =
      let l = b.valid.linked k in
      let (d, q) = Linked-some r _ (rw e at l) in
      let (reported, w, h) = answers.reports r now c.world in
      let (w', h') = answers.subscribes r now w in
      rw (subscribed port k r now c d q reported w w' h h') (
        refl,
        record {
          bindable = record {
            valid =
                with_connection-IsValid (begun port k r now c d q)
                  (with_connection-IsValid c.registry b.valid k (to_connecting now)
                    (λ c. (refl, refl)))
                  k (to_connected reported.state_generation now) (λ c. (refl, refl));
            controlled = b.controlled;
          };
          kept = refl;
          targets = refl;
        },
      )

  bind_target_again :
      (c : Context Value World) (r : TargetProcessRegistration)
      → in_control c.session ≡ true
      → IsLive c.registry k now r
      → contains c.session.bound_targets k ≡ true
      → bind_target port k now c ≡ (ok tt, c)
  unfolding bind_target ensure_control_established ensure_target_active
  bind_target_again c r i l b = ground (arith, i, l.0, l.1, b)

  -- An active target is bound, whether it was bound before or not.
  pub bind_target-IsBound :
      (c : Context Value World)
      → IsBindable c
      → ensure_target_active k now c.registry ≡ ok tt
      → let (result, c') = bind_target port k now c in (result ≡ ok tt) × IsBound k c c'
  unfolding bind
  bind_target-IsBound c b a = elim (ensure_target_active_cases k now c.registry) [
    | inr (e, q) ↦ absurd (ground arith)
    | inl (r, l, q, p) ↦ elim (Bool-cases (contains c.session.bound_targets k)) [
      | inr n ↦
          rw (bind_target_live port k now c r b.controlled l n)
            (connect_and_subscribe-IsBound c r b l.0)
      | inl n ↦
          rw (bind_target_again c r b.controlled l n)
            (refl, record { bindable = b; kept = refl; targets = rw (bind, n) refl })
    ]
  ]

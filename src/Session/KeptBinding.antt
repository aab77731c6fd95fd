-- ===== src/Session/KeptBinding.antt =====
-- `bind_target` of src/session.rs keeps the guarantee of a session: a target is among the bound ones
-- only once it is known.
use rust_supervisor_relay.Base.{inl, inr, String, Bool-cases}
use rust_supervisor_relay.Effect.{M, modify, inspect_err}
use rust_supervisor_relay.Effect.Keeps.{
  Keeps, Keeps-inspect_err, Keeps-and, Keeps-modify, Keeps->>=,
}
use rust_supervisor_relay.Time.{OffsetDateTime, Clock}
use rust_supervisor_relay.Paths.{FileSystem}
use rust_supervisor_relay.Auth.{RemoteIdentity}
use rust_supervisor_relay.Registry.{TargetProcessRegistration, TargetProcessRegistry}
use rust_supervisor_relay.Registry.Link.{begin_binding, mark_connected}
use rust_supervisor_relay.Registry.Reach.{Step, begins, connects, fails}
use rust_supervisor_relay.Ipc.{DashboardState, TargetIpcPort}
use rust_supervisor_relay.Session.{contains, push}
use rust_supervisor_relay.Session.Context.{Context, on_registry, on_world}
use rust_supervisor_relay.Session.Bind.{give_up, bound, connect_and_subscribe, bind_target}
use rust_supervisor_relay.Session.Gate.{bind_target_cases}
use rust_supervisor_relay.Session.Guarantee.{
  IsKnown, Step-IsKnown, IsServing, bind-All, IsServing-give_up,
}
use rust_supervisor_relay.Session.Kept.{Keeps-on_world, Keeps-on_registry}

module _ {Value World : Type 0} (clock : Clock) (fs : FileSystem) (g : TargetProcessRegistry)
    (identity : RemoteIdentity) (k : String) (now : OffsetDateTime) where
  abbrev Knowing : Context Value World → Type 0
  Knowing c = IsServing clock fs g identity c × IsKnown c.registry k

  Knowing-on_registry :
      {A : Type 0} (m : M TargetProcessRegistry A)
      → ((h : TargetProcessRegistry) → Step clock fs h (m h).1)
      → Keeps Knowing (on_registry m)
  Knowing-on_registry m s =
      Keeps-and (Keeps-on_registry clock fs g identity m s)
        (record { holds = λ c h. Step-IsKnown clock fs (s c.registry) k h })

  Knowing-reach :
      {A : Type 0} (m : M World A) → Keeps Knowing (inspect_err (on_world m) (give_up k now))
  Knowing-reach m =
      Keeps-inspect_err Knowing
        (Keeps-and (Keeps-on_world clock fs g identity m) (record { holds = λ c h. h }))
        λ e c v. (
          IsServing-give_up clock fs g identity k now e c v.0,
          Step-IsKnown clock fs (fails k e.message now) k v.1,
        )

  Knowing-bound :
      (payload : Value)
      → Keeps Knowing (modify (λ c. record c { session = bound k payload now c.session }))
  unfolding push
  Knowing-bound payload =
      Keeps-modify Knowing (λ c. record c { session = bound k payload now c.session })
        λ c v. (
          record {
            history = v.0.history;
            named = v.0.named;
            trail = v.0.trail;
            known = bind-All (IsKnown c.registry) k c.session.bound_targets v.1 v.0.known;
          },
          v.1,
        )

  module _ (port : TargetIpcPort Value World) where
    connect_and_subscribe-Keeps :
        (r : TargetProcessRegistration) → Keeps Knowing (connect_and_subscribe port k r now)
    unfolding connect_and_subscribe
    connect_and_subscribe-Keeps r =
        Keeps->>= Knowing (Knowing-on_registry (begin_binding k now) (λ h. begins k now))
          λ (u : Unit {0}).
            Keeps->>= Knowing (Knowing-reach (port.connect_state r now))
              λ (reported : DashboardState Value).
                Keeps->>= Knowing
                  (Knowing-on_registry (mark_connected k reported.state_generation now)
                    (λ h. connects k reported.state_generation now))
                  λ (u : Unit {0}).
                    Keeps->>= Knowing (Knowing-reach (port.subscribe_event_log r now))
                      λ (u : Unit {0}). Knowing-bound reported.payload

    pub bind_target-Keeps : Keeps (IsServing clock fs g identity) (bind_target port k now)
    bind_target-Keeps = record {
      holds = λ c v. elim (bind_target_cases port k now c) [
        | inl (e, q) ↦ rw q v
        | inr (i, (r, l, q)) ↦ elim (Bool-cases (contains c.session.bound_targets k)) [
          | inl b ↦ rw (q, b) v
          | inr b ↦ rw (q, b) ((connect_and_subscribe-Keeps r).holds c (v, (r, l.0))).0
        ]
      ];
    }

-- ===== src/Session/Bound.antt =====
-- `bind_target` of src/session.rs from end to end, on a valid registry.
use rust_supervisor_relay.Base.{◌≡◌, refl, true, false, some, String, [], ◌∷◌, ◌++◌, lookup}
use rust_supervisor_relay.Error.{RelayError, ok, err}
use rust_supervisor_relay.Time.{OffsetDateTime}
use rust_supervisor_relay.Registry.{
  TargetProcessRegistration, TargetProcessConnection, TargetProcessRegistry, connected, unavailable,
  connection_state,
}
use rust_supervisor_relay.Registry.Link.{to_connecting, to_connected, to_unavailable}
use rust_supervisor_relay.Registry.Invariant.{IsValid}
use rust_supervisor_relay.Ipc.{DashboardState, TargetIpcPort}
use rust_supervisor_relay.Session.{state, contains, push, in_control}
use rust_supervisor_relay.Session.Context.{Context}
use rust_supervisor_relay.Session.Bind.{bind_target}
use rust_supervisor_relay.Session.Gate.{IsLive, bind_target_live}
use rust_supervisor_relay.Session.Binding.{
  Linked-some, contains-bind, lookup-with_connection, connect_failed, subscribe_failed, subscribed,
  begun, opened, begun_link, opened_link,
}

-- The target is live and not bound, and the session is in control.
pub record IsReady {Value World : Type 0} (c : Context Value World) (k : String)
    (now : OffsetDateTime) (r : TargetProcessRegistration) : Type 0 where
  pub valid : IsValid c.registry
  pub controlled : in_control c.session ≡ true
  pub live : IsLive c.registry k now r
  pub unbound : contains c.session.bound_targets k ≡ false

connection_state_of :
    (k : String) (g : TargetProcessRegistry) (d : TargetProcessConnection)
    → lookup k g.connections ≡ some d
    → connection_state k g ≡ some d.state
unfolding connection_state
connection_state_of k g d e = rw e refl

module _ {Value World : Type 0} where
  ready_connection :
      (k : String) (now : OffsetDateTime) (r : TargetProcessRegistration) (c : Context Value World)
      → IsReady c k now r
      → (d : TargetProcessConnection) × (lookup k c.registry.connections ≡ some d)
  ready_connection k now r c a = let l = a.valid.linked k in Linked-some r _ (rw (a.live.0) at l)

module _ {Value World : Type 0} (port : TargetIpcPort Value World) where
  -- On a valid registry, for a session in control and a live target that it is not bound to: where
  -- the target answers both calls, binding succeeds. The target is then bound, its state is queued
  -- behind the messages of the session and its connection is connected.
  pub bind_target_subscribed :
      (k : String) (r : TargetProcessRegistration) (now : OffsetDateTime)
      → (c : Context Value World) → (reported : DashboardState Value) (w w' : World)
      → IsReady c k now r
      → port.connect_state r now c.world ≡ (ok reported, w)
      → port.subscribe_event_log r now w ≡ (ok tt, w')
      → let (result, c') = bind_target port k now c in
        (result ≡ ok tt)
        × (contains c'.session.bound_targets k ≡ true)
        × (c'.session.outbox ≡ c.session.outbox ++ (state k reported.payload ∷ []))
        × (connection_state k c'.registry ≡ some connected)
  unfolding push
  bind_target_subscribed k r now c reported w w' a h h' =
      let (d, e) = ready_connection k now r c a in
      rw
        (
          bind_target_live port k now c r a.controlled a.live a.unbound,
          subscribed port k r now c d e reported w w' h h',
        )
        (
          refl,
          contains-bind c.session.bound_targets k,
          refl,
          connection_state_of k _ _ (opened_link port k r now c d e reported.state_generation),
        )

  -- On a valid registry, for a session in control and a live target that it is not bound to: where
  -- the target does not report its state, binding fails with the error of the call. The session is
  -- as it was and the connection is unavailable.
  pub bind_target_refused :
      (k : String) (r : TargetProcessRegistration) (now : OffsetDateTime)
      → (c : Context Value World) → (failure : RelayError) (w : World) → IsReady c k now r
      → port.connect_state r now c.world ≡ (err failure, w)
      → let (result, c') = bind_target port k now c in
        (result ≡ err failure)
        × (c'.session ≡ c.session)
        × (connection_state k c'.registry ≡ some unavailable)
  bind_target_refused k r now c failure w a h =
      let (d, e) = ready_connection k now r c a in
      rw
        (
          bind_target_live port k now c r a.controlled a.live a.unbound,
          connect_failed port k r now c d e failure w h,
        )
        (
          refl,
          refl,
          connection_state_of k _ _ (
              lookup-with_connection k (to_unavailable failure.message now)
                (begun port k r now c d e) (to_connecting now d) (begun_link port k r now c d e)),
        )

  -- On a valid registry, for a session in control and a live target that it is not bound to: where
  -- the target reports its state and refuses the subscription, binding fails with the error of that
  -- call. The session is as it was and the connection is unavailable.
  pub bind_target_unsubscribed :
      (k : String) (r : TargetProcessRegistration) (now : OffsetDateTime)
      → (c : Context Value World)
      → (reported : DashboardState Value) (failure : RelayError) (w w' : World) → IsReady c k now r
      → port.connect_state r now c.world ≡ (ok reported, w)
      → port.subscribe_event_log r now w ≡ (err failure, w')
      → let (result, c') = bind_target port k now c in
        (result ≡ err failure)
        × (c'.session ≡ c.session)
        × (connection_state k c'.registry ≡ some unavailable)
  bind_target_unsubscribed k r now c reported failure w w' a h h' =
      let (d, e) = ready_connection k now r c a in
      rw
        (
          bind_target_live port k now c r a.controlled a.live a.unbound,
          subscribe_failed port k r now c d e reported failure w w' h h',
        )
        (
          refl,
          refl,
          connection_state_of k _ _ (
              lookup-with_connection k (to_unavailable failure.message now)
                (opened port k r now c d e reported.state_generation)
                (to_connected reported.state_generation now (to_connecting now d))
                (opened_link port k r now c d e reported.state_generation)),
        )

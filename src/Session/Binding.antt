-- ===== src/Session/Binding.antt =====
-- What binding a target leaves behind, when it succeeds and when the target's side fails.
use rust_supervisor_relay.Base.{
  ℕ, ◌≡◌, refl, ap, inl, inr, true, Option, none, some, String, List, [], ◌∷◌, ◌++◌, any, arith,
  eq_refl, ◌==◌, lookup, lookup-modify, Bool-cases, In→any, In-append_right,
}
use rust_supervisor_relay.Error.{RelayError, ok, err}
use rust_supervisor_relay.Time.{OffsetDateTime}
use rust_supervisor_relay.Registry.{
  TargetProcessRegistration, TargetProcessConnection, TargetProcessRegistry,
}
use rust_supervisor_relay.Registry.Link.{
  with_connection, to_connecting, to_connected, to_unavailable, connection_mut, begin_binding,
  mark_connected, mark_unavailable,
}
use rust_supervisor_relay.Registry.Invariant.{Linked}
use rust_supervisor_relay.Ipc.{DashboardState, TargetIpcPort}
use rust_supervisor_relay.Session.{contains, bind}
use rust_supervisor_relay.Session.Context.{Context}
use rust_supervisor_relay.Session.Bind.{bound, connect_and_subscribe}

pub contains-bind : (targets : List String) (k : String) → contains (bind targets k) k ≡ true
unfolding contains bind
contains-bind targets k = elim (Bool-cases (any (λ b. b == k) targets)) [
  | inl e ↦ rw (e, bind) e
  | inr e ↦
      rw (e, bind)
        (In→any (λ b. b == k) k (targets ++ (k ∷ [])) (In-append_right k targets _ (inl refl))
          (eq_refl k))
]

-- The connection of a registered target.
pub Linked-some :
    (r : TargetProcessRegistration) (c : Option TargetProcessConnection)
    → Linked (some r) c
    → (d : TargetProcessConnection) × (c ≡ some d)
Linked-some r none l = absurd l
Linked-some r (some d) l = (d, refl)

connection_mut-some :
    (k : String) (f : TargetProcessConnection → TargetProcessConnection)
    → (g : TargetProcessRegistry) (d : TargetProcessConnection) → lookup k g.connections ≡ some d
    → connection_mut k f g ≡ (ok tt, with_connection k f g)
unfolding connection_mut
connection_mut-some k f g d e = rw e refl

pub lookup-with_connection :
    (k : String) (f : TargetProcessConnection → TargetProcessConnection)
    → (g : TargetProcessRegistry) (d : TargetProcessConnection) → lookup k g.connections ≡ some d
    → lookup k (with_connection k f g).connections ≡ some (f d)
lookup-with_connection k f g d e = rw (lookup-modify k k f g.connections, eq_refl k, e) refl

pub mark_connected_lem :
    (k : String) (generation : ℕ) (now : OffsetDateTime) (g : TargetProcessRegistry)
    → (d : TargetProcessConnection) → lookup k g.connections ≡ some d
    → mark_connected k generation now g ≡ (ok tt, with_connection k (to_connected generation now) g)
unfolding mark_connected
mark_connected_lem k generation now g d e =
    connection_mut-some k (to_connected generation now) g d e

pub mark_unavailable_lem :
    (k reason : String) (now : OffsetDateTime) (g : TargetProcessRegistry)
    → (d : TargetProcessConnection) → lookup k g.connections ≡ some d
    → mark_unavailable k reason now g ≡ with_connection k (to_unavailable reason now) g
unfolding mark_unavailable
mark_unavailable_lem k reason now g d e =
    ap (λ p. p.1) (connection_mut-some k (to_unavailable reason now) g d e)

begin_binding_lem :
    (k : String) (now : OffsetDateTime) (g : TargetProcessRegistry) (d : TargetProcessConnection)
    → lookup k g.connections ≡ some d
    → begin_binding k now g ≡ (ok tt, with_connection k (to_connecting now) g)
unfolding begin_binding
begin_binding_lem k now g d e = connection_mut-some k (to_connecting now) g d e

module _ {Value World : Type 0} (port : TargetIpcPort Value World) (k : String)
    (r : TargetProcessRegistration) (now : OffsetDateTime) (c : Context Value World)
    (d : TargetProcessConnection) (linked : lookup k c.registry.connections ≡ some d) where
  abbrev pub begun : TargetProcessRegistry
  begun = with_connection k (to_connecting now) c.registry

  abbrev pub opened : ℕ → TargetProcessRegistry
  opened generation = with_connection k (to_connected generation now) begun

  pub begun_link : lookup k begun.connections ≡ some (to_connecting now d)
  begun_link = lookup-with_connection k (to_connecting now) c.registry d linked

  pub opened_link :
      (generation : ℕ)
      → lookup k (opened generation).connections
        ≡ some (to_connected generation now (to_connecting now d))
  opened_link generation = lookup-with_connection k (to_connected generation now) begun _ begun_link

  pub connect_failed :
      (e : RelayError) (w : World)
      → port.connect_state r now c.world ≡ (err e, w)
      → connect_and_subscribe port k r now c ≡ (
        err e,
        record c { registry = with_connection k (to_unavailable e.message now) begun; world = w },
      )
  unfolding connect_and_subscribe
  connect_failed e w h = ground (
    arith,
    begin_binding_lem k now c.registry d linked,
    h,
    mark_unavailable_lem k e.message now begun (to_connecting now d) begun_link,
  )

  pub subscribe_failed :
      (reported : DashboardState Value) (e : RelayError) (w w' : World)
      → port.connect_state r now c.world ≡ (ok reported, w)
      → port.subscribe_event_log r now w ≡ (err e, w')
      → connect_and_subscribe port k r now c ≡ (
        err e,
        record c {
          registry =
              with_connection k (to_unavailable e.message now) (opened reported.state_generation);
          world = w';
        },
      )
  unfolding connect_and_subscribe
  subscribe_failed reported e w w' h h' =
      let generation = reported.state_generation in
      ground (
        arith,
        begin_binding_lem k now c.registry d linked,
        mark_connected_lem k generation now begun (to_connecting now d) begun_link,
        mark_unavailable_lem k e.message now (opened generation)
            (to_connected generation now (to_connecting now d)) (opened_link generation),
      )

  pub subscribed :
      (reported : DashboardState Value) (w w' : World)
      → port.connect_state r now c.world ≡ (ok reported, w)
      → port.subscribe_event_log r now w ≡ (ok tt, w')
      → connect_and_subscribe port k r now c ≡ (
        ok tt,
        record c {
          session = bound k reported.payload now c.session;
          registry = opened reported.state_generation;
          world = w';
        },
      )
  unfolding connect_and_subscribe
  subscribed reported w w' h h' = ground (
    arith,
    begin_binding_lem k now c.registry d linked,
    mark_connected_lem k reported.state_generation now begun (to_connecting now d) begun_link,
  )

-- ===== src/Relay/Silence.antt =====
-- What a session hears of a target through src/relay.rs.
use rust_supervisor_relay.Base.{ℕ, ◌≡◌, refl, true, some, String, [], ◌∷◌, ◌++◌, lookup, leb}
use rust_supervisor_relay.Error.{ok}
use rust_supervisor_relay.Time.{OffsetDateTime}
use rust_supervisor_relay.Registry.{
  TargetProcessRegistry, TargetProcessConnection, unavailable, connection_state,
}
use rust_supervisor_relay.Registry.Link.{to_unavailable}
use rust_supervisor_relay.Session.{ServerMessage, error, DashboardSession, contains, push}
use rust_supervisor_relay.Session.Stream.{not_monotonic, accept_event, accept_connection_state}
use rust_supervisor_relay.Session.Binding.{mark_unavailable_lem, lookup-with_connection}
use rust_supervisor_relay.Relay.{fan_out_event, reconnect_timeout}

module _ {Value : Type 0} where
  -- For a session that is bound to the target, an event whose sequence does not exceed the last one
  -- delivered is answered with an error, and the session, its outbox included, is as it was.
  pub fan_out_event_stale :
      (k : String) (s : DashboardSession Value) (now : OffsetDateTime)
      → (sequence previous : ℕ) (event_type severity : String) → contains s.bound_targets k ≡ true
      → lookup k s.last_sequences ≡ some previous
      → leb sequence previous ≡ true
      → fan_out_event k sequence event_type severity now s ≡ (ok (error (not_monotonic k) ∷ []), s)
  unfolding fan_out_event accept_event
  fan_out_event_stale k s now sequence previous event_type severity b e l = rw (b, e, l) refl

  -- A reconnect timeout of a target that has a connection, for a session bound to it, marks the
  -- connection as unavailable, and the session returns and queues that state.
  pub reconnect_timeout_lem :
      (k : String) (s : DashboardSession Value) (g : TargetProcessRegistry) (now : OffsetDateTime)
      → (d : TargetProcessConnection) → lookup k g.connections ≡ some d
      → contains s.bound_targets k ≡ true
      → let (result, (s', g')) = reconnect_timeout k now (s, g) in
        (connection_state k g' ≡ some unavailable)
        × (result ≡ ok (ServerMessage.connection_state k unavailable ∷ []))
        × (s'.outbox ≡ s.outbox ++ (ServerMessage.connection_state k unavailable ∷ []))
  unfolding reconnect_timeout connection_state accept_connection_state push
  reconnect_timeout_lem k s g now d e b = (
    rw
        (
          mark_unavailable_lem k "reconnect timeout after 10 seconds" now g d e,
          lookup-with_connection k (to_unavailable "reconnect timeout after 10 seconds" now) g d e,
        )
        refl,
    rw b refl,
    rw b refl,
  )

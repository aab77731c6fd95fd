-- ===== src/Session/Opening.antt =====
-- How a session opens (src/session.rs): the hello of the client and `establish`.
use rust_supervisor_relay.Base.{
  ◌≡◌, refl, inl, inr, ◌↔◌, ◌⊎◌, Bool-cases, true, false, some, String, [], ◌∷◌, length-map, arith,
  is_empty, trim, is_some,
}
use rust_supervisor_relay.Error.{RelayError, ok, err}
use rust_supervisor_relay.Time.{OffsetDateTime}
use rust_supervisor_relay.Auth.{RemoteIdentity}
use rust_supervisor_relay.Registry.{
  TargetProcessRegistry, active_targets, active_registration_count,
}
use rust_supervisor_relay.Session.{
  TransportSecurity, wss, ws, ClientHello, ConnectionStateForSession, ControlState, server_hello,
  target_list, remote, DashboardSession, push, is_handshaking, in_control, visible_target_count,
}
use rust_supervisor_relay.Session.Handshake.{
  greet, accept_client_hello, publish_target_list, blank_store, late_hello, insecure, establish,
}

module _ {Value : Type 0} where
  -- A hello is accepted exactly when its store id is not blank and the session is handshaking.
  pub accept_client_hello_iff :
      (hello : ClientHello) (now : OffsetDateTime) (s : DashboardSession Value)
      → ((accept_client_hello hello now s).0 ≡ ok tt) ↔ (
          (is_empty (trim hello.client_store_id) ≡ false)
          × (is_handshaking s.connection_state ≡ true))
  unfolding accept_client_hello
  accept_client_hello_iff hello now s = (λ h. (ground arith, ground arith), λ (a, b). ground arith)

  accept_client_hello_ok :
      (hello : ClientHello) (now : OffsetDateTime) (s : DashboardSession Value)
      → is_empty (trim hello.client_store_id) ≡ false
      → is_handshaking s.connection_state ≡ true
      → (accept_client_hello hello now s).1 ≡ record s {
        client_store_id = some hello.client_store_id;
        connection_state = ConnectionStateForSession.established;
        control_state = ControlState.established;
        last_seen_at = now;
      }
  unfolding accept_client_hello
  accept_client_hello_ok hello now s a b = ground arith

  accept_client_hello_late :
      (hello : ClientHello) (now : OffsetDateTime) (s : DashboardSession Value)
      → is_handshaking s.connection_state ≡ false
      → (e : RelayError) × (accept_client_hello hello now s ≡ (err e, s))
  unfolding accept_client_hello
  accept_client_hello_late hello now s b =
      elim (Bool-cases (is_empty (trim hello.client_store_id))) [
        | inl i ↦ (blank_store, rw i refl)
        | inr i ↦ (late_hello, rw (i, b) refl)
      ]

  -- After an accepted hello an authenticated session is in control, and every further hello is
  -- refused and changes nothing.
  pub accept_client_hello_once :
      (first second : ClientHello) (now later : OffsetDateTime) (s : DashboardSession Value)
      → (accept_client_hello first now s).0 ≡ ok tt
      → let s' = (accept_client_hello first now s).1 in
        (in_control s' ≡ is_some s.remote_identity)
        × ((e : RelayError) × (accept_client_hello second later s' ≡ (err e, s')))
  accept_client_hello_once first second now later s h =
      let (a, b) = (accept_client_hello_iff first now s).0 h in
      rw (accept_client_hello_ok first now s a b)
        (refl, accept_client_hello_late second later _ refl)

  -- `establish` succeeds over `wss` only. Then the session is in control and its outbox holds the
  -- hello of the server and the active targets, as many as the registry counts.
  pub establish_lem :
      (no_conditions : Value) (session_id : String) (identity : RemoteIdentity)
      → (g : TargetProcessRegistry) (security : TransportSecurity) (now : OffsetDateTime)
      → ((security ≡ ws)
          × ((e : RelayError) × (establish no_conditions session_id identity g security now
                ≡ err e)))
        ⊎ ((security ≡ wss)
            × ((s : DashboardSession Value) × (establish no_conditions session_id identity g
                    security now
                  ≡ ok s)
                × (in_control s ≡ true)
                × (s.outbox
                    ≡ server_hello session_id identity.client_identity remote no_conditions 0
                      ∷ target_list (active_targets now g)
                      ∷ [])
                × (visible_target_count s ≡ active_registration_count now g)))
  unfolding establish greet accept_client_hello publish_target_list push visible_target_count
      active_registration_count active_targets is_empty trim
  establish_lem no_conditions session_id identity g ws now = inl (refl, (insecure, refl))
  establish_lem no_conditions session_id identity g wss now =
      inr (refl, (_, refl, refl, refl, length-map _ _))

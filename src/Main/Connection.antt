-- ===== src/Main/Connection.antt =====
-- A TCP connection of src/main.rs up to its session: `RequestHeaderCapture` and
-- `handle_wss_connection`. What the TLS and the web socket handshakes give is a value.
use rust_supervisor_relay.Base.{
  ℕ, ◌⊎◌, Bool, true, false, Option, none, some, String, ◌<>◌, List, [], ◌∷◌, HashMap, insert,
  if◌then◌else◌,
}
use rust_supervisor_relay.Error.{RelayError, RelayResult, err, new, map_err}
use rust_supervisor_relay.Effect.{M, lift, ◌>>=◌}
use rust_supervisor_relay.Time.{OffsetDateTime, Clock}
use rust_supervisor_relay.Config.{IpAddr, Parsers, TrustedProxyConfig}
use rust_supervisor_relay.Auth.{
  RemoteIdentity, Crypto, identity_from_mtls_der, identity_from_trusted_proxy,
}
use rust_supervisor_relay.Ipc.{TargetIpcPort}
use rust_supervisor_relay.Session.{ClientMessage}
use rust_supervisor_relay.Main.WebSocket.{Runtime}
use rust_supervisor_relay.Main.Dashboard.{Task, on_context, now_utc, run_dashboard_session}

-- The headers of a request in their order; a value that is not text is missing.
abbrev pub HeaderMap : Type 0
HeaderMap = List (String × Option String)

-- `RequestHeaderCapture::on_request`
unfoldable pub on_request : HeaderMap → HashMap String → HashMap String
on_request [] headers = headers
on_request ((name, some value) ∷ request) headers = on_request request (insert name value headers)
on_request ((name, none) ∷ request) headers = on_request request headers

-- What the system gives for one connection: the address, the peer's certificates or the error of the
-- TLS handshake, and the request's headers or the error of the upgrade.
pub record Arrival : Type 0 where
  pub remote_addr : IpAddr
  pub accepted : String ⊎ Option (List (List ℕ))
  pub upgraded : String ⊎ HeaderMap

-- `certificates.first()`
abbrev pub first_certificate : Option (List (List ℕ)) → Option (List ℕ)
first_certificate none = none
first_certificate (some []) = none
first_certificate (some (certificate ∷ _)) = some certificate

abbrev tls_accept_failed : String → RelayError
tls_accept_failed error =
    new "tls_accept_failed" "tls" none ("tls connection could not be accepted: " <> error) true

abbrev websocket_upgrade_failed : String → RelayError
websocket_upgrade_failed error =
    new "websocket_upgrade_failed" "wss" none ("websocket upgrade failed: " <> error) true

abbrev pub missing_client_certificate : RelayError
missing_client_certificate =
    new "missing_client_certificate" "auth" none "client certificate must be present for mTLS mode"
      false

-- Who is at the other end: the `if` on the mode, with the certificate's `ok_or_else`.
unfoldable pub remote_identity :
    Clock
    → Parsers
    → Crypto
    → TrustedProxyConfig
    → IpAddr
    → HashMap String
    → Option (List ℕ)
    → OffsetDateTime
    → RelayResult RemoteIdentity
remote_identity clock parsers crypto proxy remote_addr headers peer_certificate now =
    if proxy.enabled
    then identity_from_trusted_proxy clock parsers proxy remote_addr headers now
    else elim peer_certificate [
      | none ↦ err missing_client_certificate
      | some certificate ↦ identity_from_mtls_der clock crypto certificate now
    ]

module _ {Value World : Type 0} (clock : Clock) (parsers : Parsers) (crypto : Crypto)
    (runtime : Runtime Value World) (port : TargetIpcPort Value World)
    (decode : String → RelayResult ClientMessage) (new_v4 : ℕ → String) (no_conditions : Value)
    (session_id : String) where
  -- The part behind the two handshakes.
  unfoldable pub serve_request :
      ℕ → TrustedProxyConfig → IpAddr → Option (List ℕ) → HeaderMap → M (Task Value World) Bool
  unfolding remote_identity on_request
  serve_request fuel proxy remote_addr peer_certificate request = do
    now ← on_context (now_utc runtime)
    identity ← lift (
        remote_identity clock parsers crypto proxy remote_addr (on_request request [])
          peer_certificate now)
    run_dashboard_session runtime port decode new_v4 no_conditions session_id fuel identity

  -- `handle_wss_connection`
  unfoldable pub handle_wss_connection :
      ℕ → TrustedProxyConfig → Arrival → M (Task Value World) Bool
  unfolding serve_request
  handle_wss_connection fuel proxy arrival = do
    certificates ← lift (map_err tls_accept_failed arrival.accepted)
    request ← lift (map_err websocket_upgrade_failed arrival.upgraded)
    serve_request fuel proxy arrival.remote_addr (first_certificate certificates) request

-- ===== src/Main/Admission.antt =====
-- Who gets a session: the laws of `handle_wss_connection` and of the capture of headers in
-- src/main.rs.
use rust_supervisor_relay.Base.{
  ℕ, ◌≡◌, ◌≢◌, refl, ◌⊎◌, inl, inr, Bool, false, Option, none, some, String, List, [], ◌∷◌, HashMap,
  insert, lookup, lookup-insert, if◌then◌else◌, ◌==◌, arith, Bool-cases, Sum-cases, Option-cases,
}
use rust_supervisor_relay.Error.{RelayResult, RelayResult-cases, ok}
use rust_supervisor_relay.Time.{OffsetDateTime, Clock}
use rust_supervisor_relay.Paths.{FileSystem}
use rust_supervisor_relay.Registry.Invariant.{IsValid}
use rust_supervisor_relay.Registry.Reach.{Reach, here, Reach-keeps}
use rust_supervisor_relay.Main.Served.{IsFair, run_dashboard_session-IsServing}
use rust_supervisor_relay.Config.{Parsers, TrustedProxyConfig}
use rust_supervisor_relay.Auth.{RemoteIdentity, Crypto}
use rust_supervisor_relay.Auth.Laws.{IsProxyIdentity, identity_from_trusted_proxy-IsProxyIdentity}
use rust_supervisor_relay.Auth.Certified.{IsCertified, identity_from_mtls_der-IsCertified}
use rust_supervisor_relay.Ipc.{TargetIpcPort}
use rust_supervisor_relay.Session.{ClientMessage}
use rust_supervisor_relay.Main.WebSocket.{Runtime}
use rust_supervisor_relay.Main.Dashboard.{Task, now_utc, run_dashboard_session}
use rust_supervisor_relay.Main.Connection.{
  HeaderMap, on_request, Arrival, first_certificate, remote_identity, serve_request,
  handle_wss_connection,
}

-- The last text among the values of a header.
unfoldable pub last_text : String → HeaderMap → Option String → Option String
last_text name [] found = found
last_text name ((other, some value) ∷ request) found =
    last_text name request (if other == name then some value else found)
last_text name ((other, none) ∷ request) found = last_text name request found

-- Where a request has several headers of a name, the last value that is text is captured, and a
-- name is captured only if it has one.
pub lookup-on_request :
    (name : String) (request : HeaderMap) (headers : HashMap String)
    → lookup name (on_request request headers) ≡ last_text name request (lookup name headers)
unfolding on_request last_text
lookup-on_request name [] headers = refl
lookup-on_request name ((other, some value) ∷ request) headers =
    rw
      (
        last_text,
        lookup-on_request name request (insert other value headers),
        lookup-insert other name value headers,
      )
      refl
lookup-on_request name ((other, none) ∷ request) headers = lookup-on_request name request headers

-- Who the peer of an arrival is: by the proxy's header if that mode is on, by the certificate that
-- the peer showed first if it is off.
pub data IsRemote (parsers : Parsers) (crypto : Crypto) (proxy : TrustedProxyConfig)
    (arrival : Arrival) (identity : RemoteIdentity) : Type 0 where
  by_header :
      (request : HeaderMap)
      → arrival.upgraded ≡ inr request
      → IsProxyIdentity parsers proxy arrival.remote_addr (on_request request []) identity
      → IsRemote parsers crypto proxy arrival identity
  by_certificate :
      (certificates : Option (List (List ℕ))) (der : List ℕ)
      → proxy.enabled ≡ false
      → arrival.accepted ≡ inr certificates
      → first_certificate certificates ≡ some der
      → IsCertified crypto der identity
      → IsRemote parsers crypto proxy arrival identity

-- A connection that gets no session: it fails, and no more has happened than a reading of the clock.
pub record IsRefused {Value World : Type 0} (runtime : Runtime Value World) (t : Task Value World)
    (r : RelayResult Bool × Task Value World) : Type 0 where
  pub failed : (b : Bool) → r.0 ≢ ok b
  pub unchanged : (r.1 ≡ t) ⊎ (r.1 ≡ record t { context = (now_utc runtime t.context).1 })

remote_identity-IsRemote :
    (clock : Clock) (parsers : Parsers) (crypto : Crypto) (proxy : TrustedProxyConfig)
    → (arrival : Arrival) (certificates : Option (List (List ℕ))) (request : HeaderMap)
    → (now : OffsetDateTime) (identity : RemoteIdentity) → arrival.accepted ≡ inr certificates
    → arrival.upgraded ≡ inr request
    → remote_identity clock parsers crypto proxy arrival.remote_addr
        (on_request request [])
        (first_certificate certificates)
        now
      ≡ ok identity
    → IsRemote parsers crypto proxy arrival identity
unfolding remote_identity
remote_identity-IsRemote clock parsers crypto proxy arrival certificates request now identity a u
      h =
    elim (Bool-cases proxy.enabled) [
      | inl e ↦ by_header request u (
          identity_from_trusted_proxy-IsProxyIdentity clock parsers proxy arrival.remote_addr
            (on_request request []) now identity (ground arith))
      | inr e ↦ elim (Option-cases (first_certificate certificates)) [
        | inl n ↦ absurd (ground arith)
        | inr (der, n) ↦
            by_certificate certificates der e a n
              (identity_from_mtls_der-IsCertified clock crypto der now identity (ground arith))
      ]
    ]

module _ {Value World : Type 0} (clock : Clock) (parsers : Parsers) (crypto : Crypto)
    (runtime : Runtime Value World) (port : TargetIpcPort Value World)
    (decode : String → RelayResult ClientMessage) (new_v4 : ℕ → String) (no_conditions : Value)
    (session_id : String) where
  -- A connection either fails with the registry and all else as it was, but for a reading of the
  -- clock, or it is served as the session of an operator whose identity comes, in the proxy mode,
  -- from the header of a listed proxy, and in the other mode from the first certificate of the peer.
  pub handle_wss_connection-IsRemote :
      (fuel : ℕ) (proxy : TrustedProxyConfig) (arrival : Arrival) (t : Task Value World)
      → let r =
          handle_wss_connection clock parsers crypto runtime port decode new_v4 no_conditions
            session_id fuel proxy arrival t in
        let arrived = (now_utc runtime t.context).1 in
        IsRefused runtime t r
        ⊎ ((identity : RemoteIdentity) × IsRemote parsers crypto proxy arrival identity
            × (r
                ≡ run_dashboard_session runtime port decode new_v4 no_conditions session_id fuel
                    identity
                    (record t { context = arrived })))
  unfolding handle_wss_connection serve_request
  handle_wss_connection-IsRemote fuel proxy arrival t = elim (Sum-cases arrival.accepted) [
    | inl (error, a) ↦ inl (rw a (record { failed = λ b q. ground arith; unchanged = inl refl }))
    | inr (certificates, a) ↦ elim (Sum-cases arrival.upgraded) [
      | inl (error, u) ↦
          inl (rw (a, u) (record { failed = λ b q. ground arith; unchanged = inl refl }))
      | inr (request, u) ↦
          let (now, w) = runtime.now_utc t.context.world in
          elim (RelayResult-cases (
            remote_identity clock parsers crypto proxy arrival.remote_addr (on_request request [])
              (first_certificate certificates) now)) [
                | inr (inl (e, x)) ↦
                    inl
                      (rw (a, u, x) (record { failed = λ b q. ground arith; unchanged = inr refl }))
                | inr (inr x) ↦
                    inl
                      (rw (a, u, x) (record { failed = λ b q. ground arith; unchanged = inr refl }))
                | inl (identity, x) ↦ inr (
                  identity,
                  remote_identity-IsRemote clock parsers crypto proxy arrival certificates request
                      now identity a u x,
                  rw (a, u, x) refl,
                )
              ]
    ]
  ]

  -- If the other tasks reach the registry through its own calls, so does a connection, from the TLS
  -- handshake to its end: it is a history of such calls, and a valid registry stays valid.
  pub handle_wss_connection-Reach :
      (fs : FileSystem)
      → IsFair clock fs runtime
      → (fuel : ℕ) (proxy : TrustedProxyConfig) → (arrival : Arrival) (t : Task Value World)
      → let after =
          (handle_wss_connection clock parsers crypto runtime port decode new_v4 no_conditions
            session_id fuel proxy arrival t).1.context.registry in
        Reach clock fs t.context.registry after × (IsValid t.context.registry → IsValid after)
  handle_wss_connection-Reach fs fair fuel proxy arrival t =
      elim (handle_wss_connection-IsRemote fuel proxy arrival t) [
        | inl r ↦ elim r.unchanged [ inl e ↦ rw e (here, λ v. v) | inr e ↦ rw e (here, λ v. v) ]
        | inr (identity, _, e) ↦
            let p =
              (run_dashboard_session-IsServing clock fs runtime fair port decode new_v4
                no_conditions session_id identity fuel
                (record t { context = (now_utc runtime t.context).1 })).history in
            rw e (p, λ v. Reach-keeps clock fs p v)
      ]

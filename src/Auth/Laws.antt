-- ===== src/Auth/Laws.antt =====
-- Where a remote identity can come from.
use rust_supervisor_relay.Base.{
  ℕ, ◌≡◌, ◌≢◌, inl, inr, true, false, none, some, String, List, [], arith, HashMap, is_empty, trim,
  to_ascii_lowercase, Bool-cases, In,
}
use rust_supervisor_relay.Base.Int.{negsuc}
use rust_supervisor_relay.Error.{ok, err, new}
use rust_supervisor_relay.Time.{OffsetDateTime, Clock, IsLawful}
use rust_supervisor_relay.Config.{IpAddr, Parsers, TrustedProxyConfig, is_allowed_remote_addr}
use rust_supervisor_relay.Config.Valid.{is_allowed_remote_addr_iff}
use rust_supervisor_relay.Auth.{
  RemoteIdentity, trusted_proxy, mtls, Certificate, Crypto, one_day, fingerprint_identity,
  from_verified_mtls_subject, from_trusted_proxy_subject, identity_from_mtls_der, find_header,
  identity_from_trusted_proxy,
}

-- What an identity that was taken from the proxy's header rests on.
pub record IsProxyIdentity (parsers : Parsers) (config : TrustedProxyConfig) (remote_addr : IpAddr)
    (headers : HashMap String) (identity : RemoteIdentity) : Type 0 where
  pub enabled : config.enabled ≡ true
  pub listed :
      (addr : String) × In addr config.allowed_remote_addrs
      × (parsers.ip_addr addr ≡ inr remote_addr)
  pub header :
      find_header (to_ascii_lowercase config.identity_header) headers ≡ some identity.subject
  pub named : is_empty (trim identity.subject) ≡ false
  pub principal : identity.principal ≡ identity.subject
  pub source : identity.source ≡ trusted_proxy

module _ (clock : Clock) (parsers : Parsers) where
  -- An identity from a proxy's header is given only if the mode is on, the connection comes from a
  -- listed address and the configured header names a subject that is not blank, which is the
  -- identity's subject and principal.
  pub identity_from_trusted_proxy-IsProxyIdentity :
      (config : TrustedProxyConfig) (remote_addr : IpAddr) (headers : HashMap String)
      → (now : OffsetDateTime) (identity : RemoteIdentity)
      → identity_from_trusted_proxy clock parsers config remote_addr headers now ≡ ok identity
      → IsProxyIdentity parsers config remote_addr headers identity
  unfolding identity_from_trusted_proxy from_trusted_proxy_subject
  identity_from_trusted_proxy-IsProxyIdentity config remote_addr headers now identity h = record {
    enabled = ground arith;
    listed = ((is_allowed_remote_addr_iff parsers config remote_addr).0 (ground arith)).1;
    header = ground arith;
    named = ground arith;
    principal = ground arith;
    source = ground arith;
  }

  -- With the proxy mode on, a header from an address that is not in the list is refused, whatever
  -- it says.
  pub identity_from_trusted_proxy_untrusted :
      (config : TrustedProxyConfig) (remote_addr : IpAddr) (headers : HashMap String)
      → (now : OffsetDateTime) → config.enabled ≡ true
      → ((addr : String)
          → In addr config.allowed_remote_addrs
          → parsers.ip_addr addr ≢ inr remote_addr)
      → identity_from_trusted_proxy clock parsers config remote_addr headers now
        ≡ err (
            new "untrusted_proxy" "auth" none
              "identity header came from an untrusted remote address" false)
  unfolding identity_from_trusted_proxy
  identity_from_trusted_proxy_untrusted config remote_addr headers now on unlisted =
      elim (Bool-cases (is_allowed_remote_addr parsers config remote_addr)) [
        | inl e ↦
            let (_, (addr, m, q)) = (is_allowed_remote_addr_iff parsers config remote_addr).0 e in
            absurd (unlisted addr m q)
        | inr e ↦ ground arith
      ]

module _ (clock : Clock) (crypto : Crypto) (lawful : IsLawful clock) where
  -- The window that `identity_from_mtls_der` passes on always holds the present, so every certificate
  -- that is present and parses to a subject that is not blank gives its identity, keyed by the
  -- fingerprint of its bytes, as long as the window is in the clock's range.
  pub identity_from_mtls_der_lem :
      (der : List ℕ) (now : OffsetDateTime) (certificate : Certificate) (u v : OffsetDateTime)
      → der ≢ []
      → crypto.parse_x509 der ≡ inr certificate
      → is_empty (trim certificate.subject) ≡ false
      → clock.add_seconds now (negsuc 0) ≡ some u
      → clock.add_seconds now one_day ≡ some v
      → identity_from_mtls_der clock crypto der now
        ≡ ok (record {
          client_identity = fingerprint_identity crypto der;
          subject = certificate.subject;
          issuer = certificate.issuer;
          serial_number = certificate.raw_serial;
          principal = certificate.subject;
          source = mtls;
          not_before = u;
          not_after = v;
        })
  unfolding identity_from_mtls_der from_verified_mtls_subject
  identity_from_mtls_der_lem der now certificate u v present parsed named before after =
      ground
        (arith, lawful.add_seconds_back now u 0 before, lawful.add_seconds_exact now v 86400 after)

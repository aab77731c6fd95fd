-- ===== src/Auth.antt =====
-- src/auth.rs: identities from client certificates and from a trusted proxy's header. The clock,
-- SHA-256 and the X.509 parser are parameters.
pub mod Laws
pub mod Certified
mod Hex
unfoldable pub use Hex.*
use rust_supervisor_relay.Base.{
  ℕ, ◌⊎◌, inl, inr, Bool, true, false, not, ◌||◌, Option, none, some, String, ◌<>◌, List, [], ◌∷◌,
  ◌++◌, is_nil, ltb, ◌==◌, if◌then◌else◌, trim, is_empty, to_ascii_lowercase, codes_eq, HashMap,
}
use rust_supervisor_relay.Base.Int.{ℤ, pos, negsuc}
use rust_supervisor_relay.Error.{RelayResult, ok, err, new, ◌>>=◌, ◌>>◌, reject_if, ok_or, or_panic}
use rust_supervisor_relay.Time.{OffsetDateTime, Clock}
use rust_supervisor_relay.Config.{IpAddr, Parsers, TrustedProxyConfig, is_allowed_remote_addr}

pub data IdentitySource : Type 0 where
  mtls trusted_proxy : IdentitySource

pub record RemoteIdentity : Type 0 where
  pub client_identity : String
  pub subject : String
  pub issuer : String
  pub serial_number : String
  pub principal : String
  pub source : IdentitySource
  pub not_before : OffsetDateTime
  pub not_after : OffsetDateTime

-- What the relay reads of a parsed certificate.
pub record Certificate : Type 0 where
  pub subject : String
  pub issuer : String
  pub raw_serial : String

-- The libraries that the module calls.
pub record Crypto : Type 0 where
  -- SHA-256, on bytes.
  pub sha256 : List ℕ → List ℕ
  -- `x509_parser::parse_x509_certificate`; on the left the text of an error.
  pub parse_x509 : List ℕ → String ⊎ Certificate

abbrev pub one_day : ℤ
one_day = pos 86400

module _ (crypto : Crypto) where
  unfoldable pub fingerprint_identity : List ℕ → String
  fingerprint_identity certificate_der =
      "mtls_cert_fingerprint:" <> lowercase_hex (crypto.sha256 certificate_der)

  unfoldable pub fingerprint_identity_from_parts : List ℕ → List ℕ → List ℕ → String
  fingerprint_identity_from_parts subject issuer serial =
      "mtls_cert_fingerprint:"
      <> lowercase_hex (crypto.sha256 (subject ++ (0 ∷ (issuer ++ (0 ∷ serial)))))

  -- `RemoteIdentity::from_verified_mtls_subject`
  unfoldable pub from_verified_mtls_subject :
      String
      → String
      → String
      → OffsetDateTime
      → OffsetDateTime
      → OffsetDateTime
      → RelayResult RemoteIdentity
  from_verified_mtls_subject subject issuer serial_number not_before not_after now = do
    reject_if (is_empty (trim subject)) (
        new "empty_certificate_subject" "auth" none "client certificate subject must not be empty"
          false)
    reject_if (ltb now not_before || ltb not_after now) (
        new "certificate_expired" "auth" none "client certificate is outside its validity window"
          false)
    ok (record {
      client_identity =
          fingerprint_identity_from_parts (as_bytes subject) (as_bytes issuer)
            (as_bytes serial_number);
      subject = subject;
      issuer = issuer;
      serial_number = serial_number;
      principal = subject;
      source = mtls;
      not_before = not_before;
      not_after = not_after;
    })

-- `RemoteIdentity::from_trusted_proxy_subject`
unfoldable pub from_trusted_proxy_subject :
    Clock → String → OffsetDateTime → RelayResult RemoteIdentity
from_trusted_proxy_subject clock subject now = do
  reject_if (is_empty (trim subject)) (
      new "empty_proxy_subject" "auth" none "trusted proxy identity header must not be empty" false)
  not_after ← or_panic (clock.add_seconds now one_day)
  ok (record {
    client_identity = "trusted_proxy:" <> subject;
    subject = subject;
    issuer = "trusted-proxy";
    serial_number = "trusted-proxy-header";
    principal = subject;
    source = trusted_proxy;
    not_before = now;
    not_after = not_after;
  })

-- `AuthContext::identity_from_mtls_der`
unfoldable pub identity_from_mtls_der :
    Clock → Crypto → List ℕ → OffsetDateTime → RelayResult RemoteIdentity
identity_from_mtls_der clock crypto der now = do
  reject_if (is_nil der) (
      new "missing_client_certificate" "auth" none
        "client certificate must be present for mTLS mode" false)
  elim (crypto.parse_x509 der) [
    | inl error ↦ err (
        new "certificate_parse_failed" "auth" none
          ("client certificate could not be parsed: " <> error) false)
    | inr certificate ↦ do
      not_before ← or_panic (clock.add_seconds now (negsuc 0))
      not_after ← or_panic (clock.add_seconds now one_day)
      identity ←
          from_verified_mtls_subject crypto certificate.subject certificate.issuer
            certificate.raw_serial not_before not_after now
      ok (record identity { client_identity = fingerprint_identity crypto der })
  ]

-- `headers.iter().find`, on the lower-case forms of the names.
unfoldable pub find_header : List ℕ → HashMap String → Option String
find_header key [] = none
find_header key ((name, value) ∷ headers) =
    if codes_eq (to_ascii_lowercase name) key then some (trim value) else find_header key headers

-- `AuthContext::identity_from_trusted_proxy`
unfoldable pub identity_from_trusted_proxy :
    Clock
    → Parsers
    → TrustedProxyConfig
    → IpAddr
    → HashMap String
    → OffsetDateTime
    → RelayResult RemoteIdentity
identity_from_trusted_proxy clock parsers config remote_addr headers now = do
  reject_if (not config.enabled)
      (new "trusted_proxy_disabled" "auth" none "trusted proxy mode is disabled" false)
  reject_if (not (is_allowed_remote_addr parsers config remote_addr)) (
      new "untrusted_proxy" "auth" none "identity header came from an untrusted remote address"
        false)
  subject ←
      ok_or (find_header (to_ascii_lowercase config.identity_header) headers)
        (new "missing_proxy_identity" "auth" none "trusted proxy identity header is missing" false)
  from_trusted_proxy_subject clock subject now

-- ===== src/Auth/Certified.antt =====
-- What an identity rests on that was taken from a client's certificate.
use rust_supervisor_relay.Base.{
  ℕ, ◌≡◌, ◌≢◌, inl, inr, false, List, [], arith, is_empty, trim, Sum-cases,
}
use rust_supervisor_relay.Error.{ok}
use rust_supervisor_relay.Time.{OffsetDateTime, Clock}
use rust_supervisor_relay.Auth.{
  RemoteIdentity, mtls, Certificate, Crypto, fingerprint_identity, from_verified_mtls_subject,
  identity_from_mtls_der,
}

pub record IsCertified (crypto : Crypto) (der : List ℕ) (identity : RemoteIdentity) : Type 0 where
  pub certificate : Certificate
  pub present : der ≢ []
  pub parsed : crypto.parse_x509 der ≡ inr certificate
  pub named : is_empty (trim identity.subject) ≡ false
  pub subject : identity.subject ≡ certificate.subject
  pub principal : identity.principal ≡ certificate.subject
  pub keyed : identity.client_identity ≡ fingerprint_identity crypto der
  pub source : identity.source ≡ mtls

pub identity_from_mtls_der-IsCertified :
    (clock : Clock) (crypto : Crypto) (der : List ℕ) (now : OffsetDateTime)
    → (identity : RemoteIdentity) → identity_from_mtls_der clock crypto der now ≡ ok identity
    → IsCertified crypto der identity
unfolding identity_from_mtls_der from_verified_mtls_subject
identity_from_mtls_der-IsCertified clock crypto der now identity h =
    elim (Sum-cases (crypto.parse_x509 der)) [
      | inl (error, p) ↦ absurd (ground arith)
      | inr (certificate, p) ↦ record {
        certificate = certificate;
        present = λ n. ground arith;
        parsed = p;
        named = ground arith;
        subject = ground arith;
        principal = ground arith;
        keyed = ground arith;
        source = ground arith;
      }
    ]

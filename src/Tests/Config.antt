-- ===== src/Tests/Config.antt =====
-- Runs of the configuration and the identities.
use rust_supervisor_relay.Base.{
  ℕ, ◌≤◌, ◌≡◌, refl, ◌≢◌, inl, inr, Bool, true, false, Option, none, some, String, ◌<>◌, List, [],
  ◌∷◌, ◌++◌, arith, In, any, eq_iff, is_empty, trim,
}
use rust_supervisor_relay.Error.{ok}
use rust_supervisor_relay.Paths.{
  Component, root_dir, normal, parent_dir, components, split, body, is_absolute,
}
use rust_supervisor_relay.Config.{
  IpAddr, v4, Parsers, RegistrationPolicy, TrustedProxyConfig, validate_policy, ipc_path_is_allowed,
  validate, is_allowed_remote_addr,
}
use rust_supervisor_relay.Config.Laws.{
  IsSafePolicy, validate_policy_iff, ipc_path_is_allowed_iff, ipc_path_is_allowed_dot_dot,
}
use rust_supervisor_relay.Config.Valid.{IsSecure, validate_iff}
use rust_supervisor_relay.Auth.{
  RemoteIdentity, Certificate, Crypto, mtls, trusted_proxy, identity_from_trusted_proxy,
  identity_from_mtls_der, fingerprint_identity, one_day,
}
use rust_supervisor_relay.Auth.Laws.{IsProxyIdentity, identity_from_trusted_proxy-IsProxyIdentity}
use rust_supervisor_relay.Tests.Data.{clock, policy, parsers, proxy, config}

policy-IsSafePolicy : IsSafePolicy policy
unfolding validate_policy is_absolute
policy-IsSafePolicy = (validate_policy_iff policy).0 refl

config-IsSecure : IsSecure parsers config
unfolding validate rust_supervisor_relay.Config.validate_listen
    rust_supervisor_relay.Config.validate_proxy is_empty trim
    rust_supervisor_relay.Config.validate_tls validate_policy is_absolute
config-IsSecure = (validate_iff parsers config).0 refl

allowed_example :
    (is_absolute "/run/targets/alpha.sock" ≡ true)
    × ((prefix : String) × In prefix policy.allowed_ipc_path_prefixes
        × ((rest : List Component) × (components "/run/targets/alpha.sock"
              ≡ components prefix ++ rest)))
unfolding ipc_path_is_allowed is_absolute rust_supervisor_relay.Paths.starts_with
allowed_example = (ipc_path_is_allowed_iff policy "/run/targets/alpha.sock").0 refl

climbing_example :
    (ipc_path_is_allowed policy "/run/targets/../evil.sock" ≡ true)
    × (components "/run/targets/../evil.sock"
        ≡ components "/run/targets" ++ parent_dir ∷ body (split "evil.sock"))
climbing_example =
    ipc_path_is_allowed_dot_dot policy "/run/targets" "evil.sock" policy-IsSafePolicy (inl refl)

abbrev dashboard : RemoteIdentity
dashboard = record {
  client_identity = "trusted_proxy:CN=ops";
  subject = "CN=ops";
  issuer = "trusted-proxy";
  serial_number = "trusted-proxy-header";
  principal = "CN=ops";
  source = trusted_proxy;
  not_before = 0;
  not_after = 86_400_000_000_000;
}

dashboard_run :
    identity_from_trusted_proxy clock parsers proxy (v4 1) (("x-identity", "CN=ops") ∷ []) 0
    ≡ ok dashboard
unfolding identity_from_trusted_proxy is_allowed_remote_addr rust_supervisor_relay.Config.ip_eq
    rust_supervisor_relay.Auth.find_header rust_supervisor_relay.Base.codes_eq
    rust_supervisor_relay.Base.to_ascii_lowercase
    rust_supervisor_relay.Auth.from_trusted_proxy_subject is_empty trim
dashboard_run = refl

dashboard-IsProxyIdentity :
    IsProxyIdentity parsers proxy (v4 1) (("x-identity", "CN=ops") ∷ []) dashboard
dashboard-IsProxyIdentity =
    identity_from_trusted_proxy-IsProxyIdentity clock parsers proxy (v4 1)
      (("x-identity", "CN=ops") ∷ []) 0 dashboard dashboard_run

abbrev certificate : Certificate
certificate = record { subject = "CN=ops"; issuer = "CN=ca"; raw_serial = "1" }

abbrev crypto : Crypto
crypto = record { sha256 = λ bytes. bytes; parse_x509 = λ _. inr certificate }

abbrev der : List ℕ
der = 48 ∷ []

present : der ≢ []
present h = ground arith

-- ===== src/Config.antt =====
-- src/config.rs: the relay configuration and its validation. The parsers of addresses, URLs and
-- YAML, and the file system's reads, are parameters.
pub mod Laws
pub mod Valid
use rust_supervisor_relay.Base.{
  ℕ, ◌⊎◌, inl, inr, Bool, true, false, not, ◌&&◌, ◌||◌, none, String, ◌<>◌, List, [], ◌∷◌, ltb, eqb,
  is_nil, any, trim, is_empty, ◌==◌, if◌then◌else◌,
}
use rust_supervisor_relay.Error.{RelayResult, ok, err, new, ◌>>=◌, ◌>>◌, reject_if}
use rust_supervisor_relay.Paths.{is_absolute, starts_with}

-- `std::net::IpAddr`, by the number that it holds.
pub data IpAddr : Type 0 where
  v4 v6 : ℕ → IpAddr

unfoldable pub ip_eq : IpAddr → IpAddr → Bool
ip_eq (v4 a) (v4 b) = eqb a b
ip_eq (v6 a) (v6 b) = eqb a b
ip_eq _ _ = false

-- The parsers; on the left the text of an error.
pub record Parsers : Type 0 where
  -- `parse::<SocketAddr>`, of which only the success is used.
  pub socket_addr : String → String ⊎ Unit {0}
  -- `parse::<IpAddr>`
  pub ip_addr : String → String ⊎ IpAddr
  -- `Url::parse` and `scheme`
  pub url_scheme : String → String ⊎ String

pub record ListenConfig : Type 0 where
  pub bind : String
  pub public_url : String

pub record TlsConfig : Type 0 where
  pub certificate_path : String
  pub private_key_path : String
  pub client_ca_path : String

pub record TrustedProxyConfig : Type 0 where
  pub enabled : Bool
  pub allowed_remote_addrs : List String
  pub identity_header : String

pub record RegistrationPolicy : Type 0 where
  pub listen_path : String
  pub permissions : String
  pub allowed_ipc_path_prefixes : List String
  pub default_lease_seconds : ℕ
  pub max_lease_seconds : ℕ

pub record DashboardRelayConfig : Type 0 where
  pub listen : ListenConfig
  pub tls : TlsConfig
  pub trusted_proxy : TrustedProxyConfig
  pub registration : RegistrationPolicy

-- `TlsConfig::validate`
unfoldable pub validate_tls : TlsConfig → Bool → RelayResult (Unit {0})
unfolding is_empty
validate_tls c trusted_proxy_enabled = do
  reject_if (is_empty c.certificate_path || is_empty c.private_key_path) (
      new "missing_tls_identity" "config" none
        "tls.certificate_path and tls.private_key_path must be configured" false)
  reject_if (not trusted_proxy_enabled && is_empty c.client_ca_path) (
      new "missing_client_ca" "config" none
        "tls.client_ca_path must be configured when trusted proxy mode is disabled" false)

-- `RegistrationPolicy::validate_policy`
unfoldable pub validate_policy : RegistrationPolicy → RelayResult (Unit {0})
validate_policy p = do
  reject_if (not (is_absolute p.listen_path)) (
      new "relative_registration_path" "config" none "registration.listen_path must be absolute"
        false)
  reject_if (is_nil p.allowed_ipc_path_prefixes) (
      new "empty_allowed_ipc_path_prefixes" "config" none
        "registration.allowed_ipc_path_prefixes must not be empty" false)
  reject_if (any (λ path. not (is_absolute path)) p.allowed_ipc_path_prefixes) (
      new "relative_allowed_ipc_path_prefix" "config" none
        "each allowed IPC path prefix must be absolute" false)
  reject_if
      (eqb p.default_lease_seconds 0
        || eqb p.max_lease_seconds 0
        || ltb p.max_lease_seconds p.default_lease_seconds)
      (new "invalid_registration_lease_policy" "config" none
        "registration lease values must be positive and default must not exceed max" false)

-- `RegistrationPolicy::ipc_path_is_allowed`
unfoldable pub ipc_path_is_allowed : RegistrationPolicy → String → Bool
ipc_path_is_allowed p ipc_path =
    is_absolute ipc_path && any (λ prefix. starts_with ipc_path prefix) p.allowed_ipc_path_prefixes

module _ (parsers : Parsers) where
  -- `ListenConfig::validate`
  unfoldable pub validate_listen : ListenConfig → RelayResult (Unit {0})
  validate_listen c = elim (parsers.socket_addr c.bind) [
    | inl error ↦ err (
        new "invalid_bind_address" "config" none ("listen.bind must be socket address: " <> error)
          false)
    | inr _ ↦ elim (parsers.url_scheme c.public_url) [
      | inl error ↦ err (
          new "invalid_public_url" "config" none
            ("listen.public_url could not be parsed: " <> error) false)
      | inr scheme ↦
          reject_if (not (scheme == "wss"))
            (new "invalid_public_url" "config" none "listen.public_url must use wss://" false)
    ]
  ]

  -- The loop over `allowed_remote_addrs`.
  unfoldable pub validate_addrs : List String → RelayResult (Unit {0})
  validate_addrs [] = ok tt
  validate_addrs (addr ∷ addrs) = elim (parsers.ip_addr addr) [
    | inl error ↦ err (
        new "invalid_trusted_proxy_addr" "config" none
          ("trusted proxy address could not be parsed: " <> error) false)
    | inr _ ↦ validate_addrs addrs
  ]

  -- `TrustedProxyConfig::validate`
  unfoldable pub validate_proxy : TrustedProxyConfig → RelayResult (Unit {0})
  unfolding validate_addrs
  validate_proxy c = if not c.enabled then ok tt else do
    reject_if (is_nil c.allowed_remote_addrs) (
        new "empty_trusted_proxy_addrs" "config" none
          "trusted_proxy.allowed_remote_addrs must not be empty when trusted proxy mode is enabled"
          false)
    validate_addrs c.allowed_remote_addrs
    reject_if (is_empty (trim c.identity_header)) (
        new "empty_identity_header" "config" none "trusted_proxy.identity_header must not be empty"
          false)

  -- The allowed addresses that parse, compared one by one.
  abbrev pub names_addr : IpAddr → String → Bool
  names_addr remote_addr addr = elim (parsers.ip_addr addr) [
    | inl _ ↦ false
    | inr allowed ↦ ip_eq allowed remote_addr
  ]

  -- `TrustedProxyConfig::is_allowed_remote_addr`
  unfoldable pub is_allowed_remote_addr : TrustedProxyConfig → IpAddr → Bool
  is_allowed_remote_addr c remote_addr =
      c.enabled && any (names_addr remote_addr) c.allowed_remote_addrs

  -- `DashboardRelayConfig::validate`
  unfoldable pub validate : DashboardRelayConfig → RelayResult (Unit {0})
  validate c = do
    validate_listen c.listen
    validate_proxy c.trusted_proxy
    validate_tls c.tls (c.trusted_proxy.enabled)
    validate_policy c.registration

-- `DashboardRelayConfig::from_yaml_str`; the argument is serde_yaml's parser for the structure.
unfoldable pub from_yaml_str :
    (String → String ⊎ DashboardRelayConfig) → String → RelayResult DashboardRelayConfig
from_yaml_str from_str yaml = elim (from_str yaml) [
  | inl error ↦ err (
      new "invalid_config_yaml" "config_parse" none
        ("relay config yaml could not be parsed: " <> error) false)
  | inr config ↦ ok config
]

-- `DashboardRelayConfig::load_from_path`; `read_to_string` is the file system's.
unfoldable pub load_from_path :
    (String → String ⊎ DashboardRelayConfig)
    → (String → String ⊎ String)
    → String
    → RelayResult DashboardRelayConfig
unfolding from_yaml_str
load_from_path from_str read_to_string path = elim (read_to_string path) [
  | inl error ↦ err (
      new "config_read_failed" "config_parse" none ("relay config could not be read: " <> error)
        false)
  | inr yaml ↦ from_yaml_str from_str yaml
]

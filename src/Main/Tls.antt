-- ===== src/Main/Tls.antt =====
-- The TLS set-up of src/main.rs: `build_server_config`, `load_certs` and `load_private_key`. Files,
-- the PEM parser and rustls are parameters.
use rust_supervisor_relay.Base.{
  ◌⊎◌, inl, inr, Bool, false, Option, none, some, String, ◌<>◌, List, [], ◌∷◌, if◌then◌else◌,
}
use rust_supervisor_relay.Error.{RelayError, RelayResult, ok, new, ok_or, map_err, ◌>>=◌}
use rust_supervisor_relay.Config.{TlsConfig}

-- What the module calls: files with their PEM contents, and the builders of rustls. On the left of a
-- result stands the text of an error.
pub record Rustls (File Cert Key RootCertStore Verifier ServerConfig : Type 0) : Type 0 where
  pub open_file : String → String ⊎ File
  -- The items that `rustls_pemfile::certs` yields.
  pub certs : File → List (String ⊎ Cert)
  pub private_key : File → String ⊎ Option Key
  pub empty : RootCertStore
  pub add : Cert → RootCertStore → String ⊎ RootCertStore
  pub build : RootCertStore → String ⊎ Verifier
  -- `with_single_cert`, behind `with_no_client_auth` or `with_client_cert_verifier`.
  pub with_single_cert : Option Verifier → List Cert → Key → String ⊎ ServerConfig

abbrev tls_error : String → String → String → RelayError
tls_error code what error = new code "tls" none (what <> error) false

abbrev missing_private_key : RelayError
missing_private_key =
    new "missing_private_key" "tls" none "private key file does not contain a supported key" false

-- `collect::<Result<Vec<_>, _>>()`: the first error, or every item.
unfoldable pub collect : {A : Type 0} → List (String ⊎ A) → String ⊎ List A
collect [] = inr []
collect (inl error ∷ items) = inl error
collect (inr a ∷ items) = elim (collect items) [ inl error ↦ inl error | inr xs ↦ inr (a ∷ xs) ]

module _ {File Cert Key RootCertStore Verifier ServerConfig : Type 0}
    (rustls : Rustls File Cert Key RootCertStore Verifier ServerConfig) where
  unfoldable pub load_certs : String → RelayResult (List Cert)
  unfolding collect
  load_certs path = do
    file ←
        map_err (tls_error "cert_read_failed" "certificate file could not be opened: ")
          (rustls.open_file path)
    map_err (tls_error "cert_parse_failed" "certificate file could not be parsed: ")
        (collect (rustls.certs file))

  unfoldable pub load_private_key : String → RelayResult Key
  load_private_key path = do
    file ←
        map_err (tls_error "key_read_failed" "private key file could not be opened: ")
          (rustls.open_file path)
    key ←
        map_err (tls_error "key_parse_failed" "private key file could not be parsed: ")
          (rustls.private_key file)
    ok_or key missing_private_key

  -- The loop over the certificates of the client CA.
  unfoldable pub add_roots : List Cert → RootCertStore → RelayResult RootCertStore
  add_roots [] roots = ok roots
  add_roots (cert ∷ certs) roots = do
    roots' ←
        map_err (tls_error "client_ca_load_failed" "client ca certificate could not be added: ")
          (rustls.add cert roots)
    add_roots certs roots'

  abbrev with_certs : Option Verifier → List Cert → Key → RelayResult ServerConfig
  with_certs verifier certs private_key =
      map_err (tls_error "tls_config_failed" "tls server config could not be built: ")
        (rustls.with_single_cert verifier certs private_key)

  -- The verifier of the mTLS mode.
  unfoldable pub client_verifier : String → RelayResult Verifier
  unfolding load_certs add_roots
  client_verifier client_ca_path = do
    authorities ← load_certs client_ca_path
    roots ← add_roots authorities rustls.empty
    map_err
        (tls_error "client_ca_verifier_failed" "client certificate verifier could not be built: ")
        (rustls.build roots)

  unfoldable pub build_server_config : TlsConfig → Bool → RelayResult ServerConfig
  unfolding load_certs load_private_key client_verifier
  build_server_config tls trusted_proxy_enabled = do
    certs ← load_certs tls.certificate_path
    private_key ← load_private_key tls.private_key_path
    if trusted_proxy_enabled
        then with_certs none certs private_key
        else client_verifier tls.client_ca_path >>= λ verifier.
            with_certs (some verifier) certs private_key

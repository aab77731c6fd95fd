-- ===== src/Main/Secured.antt =====
-- Which TLS set-ups src/main.rs builds.
use rust_supervisor_relay.Base.{
  ◌≡◌, ◌↔◌, ◌⊎◌, refl, inl, inr, Bool, true, false, Option, none, some, String, List, [], ◌∷◌, map,
  arith, subst, Sum-cases, Bool-cases,
}
use rust_supervisor_relay.Error.{RelayResult-cases, ok}
use rust_supervisor_relay.Config.{TlsConfig}
use rust_supervisor_relay.Main.Tls.{
  Rustls, collect, load_certs, load_private_key, add_roots, client_verifier, build_server_config,
}

collect_iff :
    {A : Type 0} (items : List (String ⊎ A)) (xs : List A)
    → (collect items ≡ inr xs) ↔ (items ≡ map inr xs)
unfolding collect
collect_iff [] [] = (λ h. refl, λ h. refl)
collect_iff [] (x ∷ xs) = (λ h. absurd (ground arith), λ h. absurd (ground arith))
collect_iff (inl error ∷ items) [] = (λ h. absurd (ground arith), λ h. absurd (ground arith))
collect_iff (inl error ∷ items) (x ∷ xs) = (λ h. absurd (ground arith), λ h. absurd (ground arith))
collect_iff (inr a ∷ items) [] = (λ h. absurd (ground arith), λ h. absurd (ground arith))
collect_iff (inr a ∷ items) (x ∷ xs) =
    let (there, back) = collect_iff items xs in
    (
      λ h. elim (Sum-cases (collect items)) [
        | inl (error, e) ↦ absurd (ground arith)
        | inr (ys, e) ↦ let q = there (ground arith) in ground arith
      ],
      λ h. let q = back (ground arith) in ground arith,
    )

module _ {File Cert Key RootCertStore Verifier ServerConfig : Type 0}
    (rustls : Rustls File Cert Key RootCertStore Verifier ServerConfig) where
  -- Every item of the file is a certificate, and these are they.
  abbrev pub HasCerts : String → List Cert → Type 0
  HasCerts path certs =
      (file : File) × (rustls.open_file path ≡ inr file) × (rustls.certs file ≡ map inr certs)

  abbrev pub HasKey : String → Key → Type 0
  HasKey path key =
      (file : File) × (rustls.open_file path ≡ inr file)
      × (rustls.private_key file ≡ inr (some key))

  -- The store with each certificate added in turn.
  pub data Added : List Cert → RootCertStore → RootCertStore → Type 0 where
    done : {roots : RootCertStore} → Added [] roots roots
    more :
        {cert : Cert} {certs : List Cert} {roots roots' filled : RootCertStore}
        → rustls.add cert roots ≡ inr roots'
        → Added certs roots' filled
        → Added (cert ∷ certs) roots filled

  -- A verifier that trusts the certificates of the client CA's file.
  abbrev pub Trusts : String → Verifier → Type 0
  Trusts path verifier =
      (authorities : List Cert) × (roots : RootCertStore) × HasCerts path authorities
      × Added authorities rustls.empty roots
      × (rustls.build roots ≡ inr verifier)

  load_certs_iff :
      (path : String) (certs : List Cert)
      → (load_certs rustls path ≡ ok certs) ↔ HasCerts path certs
  unfolding load_certs
  load_certs_iff path certs = (
    λ h. elim (Sum-cases (rustls.open_file path)) [
      | inl (error, e) ↦ absurd (ground arith)
      | inr (file, e) ↦ (file, e, (collect_iff (rustls.certs file) certs).0 (ground arith))
    ],
    λ (file, e, c). let x = (collect_iff (rustls.certs file) certs).1 c in ground arith,
  )

  load_private_key_iff :
      (path : String) (key : Key) → (load_private_key rustls path ≡ ok key) ↔ HasKey path key
  unfolding load_private_key
  load_private_key_iff path key = (
    λ h. elim (Sum-cases (rustls.open_file path)) [
      | inl (error, e) ↦ absurd (ground arith)
      | inr (file, e) ↦ (file, e, ground arith)
    ],
    λ (file, e, c). ground arith,
  )

  added :
      {certs : List Cert} {roots filled : RootCertStore}
      → Added certs roots filled
      → add_roots rustls certs roots ≡ ok filled
  unfolding add_roots
  added done = refl
  added (more e a) = rw (add_roots, e) (added a)

  add_roots_iff :
      (certs : List Cert) (roots filled : RootCertStore)
      → (add_roots rustls certs roots ≡ ok filled) ↔ Added certs roots filled
  unfolding add_roots
  add_roots_iff [] roots filled = (λ h. subst (λ x. Added [] roots x) (ground arith) done, added)
  add_roots_iff (cert ∷ certs) roots filled = (
    λ h. elim (Sum-cases (rustls.add cert roots)) [
      | inl (error, e) ↦ absurd (ground arith)
      | inr (roots', e) ↦ more e ((add_roots_iff certs roots' filled).0 (ground arith))
    ],
    added,
  )

  client_verifier_iff :
      (path : String) (verifier : Verifier)
      → (client_verifier rustls path ≡ ok verifier) ↔ Trusts path verifier
  unfolding client_verifier
  client_verifier_iff path verifier = (
    λ h. elim (RelayResult-cases (load_certs rustls path)) [
      | inr (inl (e, l)) ↦ absurd (ground arith)
      | inr (inr l) ↦ absurd (ground arith)
      | inl (authorities, l) ↦
          elim (RelayResult-cases (add_roots rustls authorities rustls.empty)) [
            | inr (inl (e, r)) ↦ absurd (ground arith)
            | inr (inr r) ↦ absurd (ground arith)
            | inl (roots, r) ↦ (
              authorities,
              roots,
              (load_certs_iff path authorities).0 l,
              (add_roots_iff authorities rustls.empty roots).0 r,
              ground arith,
            )
          ]
    ],
    λ (authorities, roots, l, a, b).
        let x = (load_certs_iff path authorities).1 l in
        let y = (add_roots_iff authorities rustls.empty roots).1 a in ground arith,
  )

  -- What a server is configured with: its own certificates and key, and a verifier of clients, for
  -- which the proxy mode has none and the other mode has one that trusts the client CA.
  pub record IsServerConfig (tls : TlsConfig) (trusted_proxy_enabled : Bool) (config : ServerConfig)
      : Type 0 where
    pub certs : List Cert
    pub private_key : Key
    pub verifier : Option Verifier
    pub has_certs : HasCerts tls.certificate_path certs
    pub has_key : HasKey tls.private_key_path private_key
    pub mode :
        ((trusted_proxy_enabled ≡ true) × (verifier ≡ none))
        ⊎ ((trusted_proxy_enabled ≡ false)
            × ((v : Verifier) × (verifier ≡ some v) × Trusts tls.client_ca_path v))
    pub made : rustls.with_single_cert verifier certs private_key ≡ inr config

  built :
      (tls : TlsConfig) (trusted_proxy_enabled : Bool) (config : ServerConfig)
      → build_server_config rustls tls trusted_proxy_enabled ≡ ok config
      → IsServerConfig tls trusted_proxy_enabled config
  unfolding build_server_config
  built tls enabled config h = elim (RelayResult-cases (load_certs rustls tls.certificate_path)) [
    | inr (inl (e, l)) ↦ absurd (ground arith)
    | inr (inr l) ↦ absurd (ground arith)
    | inl (certs, l) ↦ elim (RelayResult-cases (load_private_key rustls tls.private_key_path)) [
      | inr (inl (e, k)) ↦ absurd (ground arith)
      | inr (inr k) ↦ absurd (ground arith)
      | inl (key, k) ↦
          let has_certs' = (load_certs_iff tls.certificate_path certs).0 l in
          let has_key' = (load_private_key_iff tls.private_key_path key).0 k in
          elim (Bool-cases enabled) [
            | inl p ↦ record {
              certs = certs;
              private_key = key;
              verifier = none;
              has_certs = has_certs';
              has_key = has_key';
              mode = inl (p, refl);
              made = ground arith;
            }
            | inr p ↦ elim (RelayResult-cases (client_verifier rustls tls.client_ca_path)) [
              | inr (inl (e, v)) ↦ absurd (ground arith)
              | inr (inr v) ↦ absurd (ground arith)
              | inl (verifier, v) ↦ record {
                certs = certs;
                private_key = key;
                verifier = some verifier;
                has_certs = has_certs';
                has_key = has_key';
                mode =
                    inr
                      (p, (verifier, refl, (client_verifier_iff tls.client_ca_path verifier).0 v));
                made = ground arith;
              }
            ]
          ]
    ]
  ]

  -- A server configuration is what is built exactly where the certificates and the key can be read
  -- in full and rustls makes it of them. In the proxy mode it is made without a verifier of clients.
  -- In the other mode it is made with one, which rustls builds of a store of roots, to which it has
  -- added each of the client CA's certificates, which can be read in full.
  pub build_server_config_iff :
      (tls : TlsConfig) (trusted_proxy_enabled : Bool) (config : ServerConfig)
      → (build_server_config rustls tls trusted_proxy_enabled ≡ ok config)
        ↔ IsServerConfig tls trusted_proxy_enabled config
  unfolding build_server_config
  build_server_config_iff tls enabled config = (
    built tls enabled config,
    λ c.
        let x = (load_certs_iff tls.certificate_path c.certs).1 c.has_certs in
        let y = (load_private_key_iff tls.private_key_path c.private_key).1 c.has_key in
        let m = c.made in
        elim c.mode [
          | inl (e, n) ↦ ground arith
          | inr (e, (v, n, t)) ↦
              let z = (client_verifier_iff tls.client_ca_path v).1 t in ground arith
        ],
  )

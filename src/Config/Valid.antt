-- ===== src/Config/Valid.antt =====
-- What `DashboardRelayConfig::validate` accepts, and which remote addresses count as the proxy.
use rust_supervisor_relay.Base.{
  ◌≡◌, refl, ◌≢◌, ◌↔◌, ◌⊎◌, inl, inr, Bool, true, false, String, List, [], ◌∷◌, arith, eq_iff, All,
  In, In→any, any→In, trim, is_empty, Bool-cases, Sum-cases,
}
use rust_supervisor_relay.Error.{ok}
use rust_supervisor_relay.Config.{
  IpAddr, v4, v6, ip_eq, Parsers, ListenConfig, TlsConfig, TrustedProxyConfig, DashboardRelayConfig,
  validate_tls, validate_listen, validate_addrs, validate_proxy, names_addr, is_allowed_remote_addr,
  validate,
}
use rust_supervisor_relay.Config.Laws.{IsSafePolicy, validate_policy_iff}

ip_eq_iff : (a b : IpAddr) → (ip_eq a b ≡ true) ↔ (a ≡ b)
unfolding ip_eq
ip_eq_iff (v4 a) (v4 b) = ground arith
ip_eq_iff (v4 a) (v6 b) = ground arith
ip_eq_iff (v6 a) (v4 b) = ground arith
ip_eq_iff (v6 a) (v6 b) = ground arith

pub record IsTlsReady (c : TlsConfig) (enabled : Bool) : Type 0 where
  pub certificate : is_empty c.certificate_path ≡ false
  pub private_key : is_empty c.private_key_path ≡ false
  -- Without a proxy the operators' certificates need an authority.
  pub client_ca : (enabled ≡ true) ⊎ (is_empty c.client_ca_path ≡ false)

validate_tls_iff :
    (c : TlsConfig) (enabled : Bool) → (validate_tls c enabled ≡ ok tt) ↔ IsTlsReady c enabled
unfolding validate_tls
validate_tls_iff c enabled = (
  λ h. record { certificate = ground arith; private_key = ground arith; client_ca = ground arith },
  λ s. ground (arith, s.certificate, s.private_key, s.client_ca),
)

module _ (parsers : Parsers) where
  abbrev IsAddr : String → Type 0
  IsAddr addr = (ip : IpAddr) × (parsers.ip_addr addr ≡ inr ip)

  pub record IsListenReady (c : ListenConfig) : Type 0 where
    pub bind : parsers.socket_addr c.bind ≡ inr tt
    pub secure : parsers.url_scheme c.public_url ≡ inr "wss"

  pub record IsProxyReady (c : TrustedProxyConfig) : Type 0 where
    pub some_addr : c.allowed_remote_addrs ≢ []
    pub addrs : All IsAddr c.allowed_remote_addrs
    pub header : is_empty (trim c.identity_header) ≡ false

  validate_listen_iff : (c : ListenConfig) → (validate_listen parsers c ≡ ok tt) ↔ IsListenReady c
  unfolding validate_listen
  validate_listen_iff c = (
    λ h. record {
      bind = ground arith;
      secure = elim (Sum-cases (parsers.url_scheme c.public_url)) [
        | inl (error, e) ↦ ground arith
        | inr (scheme, e) ↦ ground (arith, eq_iff scheme "wss")
      ];
    },
    λ s. rw (s.bind, s.secure, validate_listen) (ground (arith, eq_iff "wss" "wss")),
  )

  validate_addrs_iff :
      (addrs : List String) → (validate_addrs parsers addrs ≡ ok tt) ↔ All IsAddr addrs
  unfolding validate_addrs
  validate_addrs_iff [] = (λ _. tt, λ _. refl)
  validate_addrs_iff (addr ∷ addrs) =
      let (there, back) = validate_addrs_iff addrs in
      (
        λ h. elim (Sum-cases (parsers.ip_addr addr)) [
          | inl (error, e) ↦ ground arith
          | inr (ip, e) ↦ ((ip, e), there (rw (e, validate_addrs) at h))
        ],
        λ h. rw (h.0.1, validate_addrs) (back h.1),
      )

  validate_proxy_iff :
      (c : TrustedProxyConfig)
      → (validate_proxy parsers c ≡ ok tt) ↔ ((c.enabled ≡ false) ⊎ IsProxyReady c)
  unfolding validate_proxy
  validate_proxy_iff c =
      let (there, back) = validate_addrs_iff c.allowed_remote_addrs in
      (
        λ h. elim (Bool-cases c.enabled) [
          | inl on ↦ inr (record {
            some_addr = ground arith;
            addrs = there (ground arith);
            header = ground arith;
          })
          | inr off ↦ inl off
        ],
        elim [
          | inl off ↦ ground arith
          | inr s ↦ ground (arith, s.some_addr, back s.addrs, s.header)
        ],
      )

  -- A configuration that is secure to run with.
  pub record IsSecure (c : DashboardRelayConfig) : Type 0 where
    pub listens : IsListenReady c.listen
    pub proxy : (c.trusted_proxy.enabled ≡ false) ⊎ IsProxyReady c.trusted_proxy
    pub tls : IsTlsReady c.tls c.trusted_proxy.enabled
    pub policy : IsSafePolicy c.registration

  -- The configuration passes validation exactly when it is secure: the listener's address parses
  -- and its URL is of the scheme wss, an enabled proxy has addresses that parse and a header, the
  -- certificates that are needed are named, and the registration policy is safe.
  pub validate_iff : (c : DashboardRelayConfig) → (validate parsers c ≡ ok tt) ↔ IsSecure c
  unfolding validate
  validate_iff c =
      let (l, l') = validate_listen_iff c.listen in
      let (p, p') = validate_proxy_iff c.trusted_proxy in
      let (t, t') = validate_tls_iff c.tls c.trusted_proxy.enabled in
      let (r, r') = validate_policy_iff c.registration in
      (
        λ h. record {
          listens = l (ground arith);
          proxy = p (ground arith);
          tls = t (ground arith);
          policy = r (ground arith);
        },
        λ s. rw (l' s.listens, p' s.proxy, t' s.tls) (r' s.policy),
      )

  -- An address counts as the proxy exactly when the mode is on and an entry of the list parses to it.
  pub is_allowed_remote_addr_iff :
      (c : TrustedProxyConfig) (remote_addr : IpAddr)
      → (is_allowed_remote_addr parsers c remote_addr ≡ true) ↔ (
          (c.enabled ≡ true)
          × ((addr : String) × In addr c.allowed_remote_addrs
              × (parsers.ip_addr addr ≡ inr remote_addr)))
  unfolding is_allowed_remote_addr
  is_allowed_remote_addr_iff c remote_addr = (
    λ h.
        let (addr, m, e) =
          any→In (names_addr parsers remote_addr) c.allowed_remote_addrs (ground arith) in
        (
          ground arith,
          (
            addr,
            m,
            elim (Sum-cases (parsers.ip_addr addr)) [
              | inl (error, q) ↦ ground arith
              | inr (ip, q) ↦ ground (arith, ip_eq_iff ip remote_addr, e)
            ],
          ),
        ),
    λ (on, (addr, m, q)). rw on (
        In→any (names_addr parsers remote_addr) addr _ m
          (ground (arith, ip_eq_iff remote_addr remote_addr, q))),
  )

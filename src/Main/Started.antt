-- ===== src/Main/Started.antt =====
-- What src/main.rs has checked before it binds a socket and spawns a task.
use mathlib.Core.List.{append-nil, append_assoc}
use rust_supervisor_relay.Base.{
  ◌≡◌, ◌⊎◌, refl, inl, inr, Bool, true, false, String, List, [], ◌∷◌, ◌++◌, ◌<>◌, if◌then◌else◌,
  map, ap, ◌∙◌, All, All-append, arith,
}
use rust_supervisor_relay.Error.{ok}
use rust_supervisor_relay.Effect.{M}
use rust_supervisor_relay.Effect.Keeps.{Keeps, Keeps-modify, Keeps-if, Keeps->>=, Keeps-lift->>=}
use rust_supervisor_relay.Config.{
  Parsers, TrustedProxyConfig, DashboardRelayConfig, validate, load_from_path,
}
use rust_supervisor_relay.Config.Valid.{IsSecure, validate_iff}
use rust_supervisor_relay.Registry.{empty}
use rust_supervisor_relay.Registration.Socket.{Sockets, attempt, bind_listener}
use rust_supervisor_relay.Main.Args.{Args, parse}
use rust_supervisor_relay.Main.Tls.{Rustls, build_server_config}
use rust_supervisor_relay.Main.Secured.{IsServerConfig, build_server_config_iff}
use rust_supervisor_relay.Main.Run.{
  Spawned, registration_loop, wss_connection, Event, incoming, ctrl_c, Process, wss_bind_failed,
  on_system, println, spawn, accept_loop, start, run,
}

-- The connections that come before the first failed accept and the first signal.
abbrev pub accepted : {Stream : Type 0} → List (Event Stream) → List Stream
accepted [] = []
accepted (incoming (inl error) ∷ events) = []
accepted (incoming (inr stream) ∷ events) = stream ∷ accepted events
accepted (ctrl_c _ ∷ events) = []

module _ {Stream ServerConfig World : Type 0} where
  -- The loop spawns one task for each connection that comes before the first failed accept and the
  -- first signal, in their order, and does nothing else: what comes behind a failed accept is not
  -- served.
  pub accept_loop-accepted :
      (server : ServerConfig) (proxy : TrustedProxyConfig) (events : List (Event Stream))
      → (p : Process Stream ServerConfig World)
      → (accept_loop server proxy events p).1
        ≡ record p { spawned = p.spawned ++ map (wss_connection server proxy) (accepted events) }
  unfolding accept_loop
  accept_loop-accepted server proxy [] p = rw append-nil refl
  accept_loop-accepted server proxy (incoming (inl error) ∷ events) p = rw append-nil refl
  accept_loop-accepted server proxy (incoming (inr stream) ∷ events) p =
      accept_loop-accepted server proxy events
        (record p { spawned = p.spawned ++ (wss_connection server proxy stream ∷ []) })
      ∙ ap (λ tasks. record p { spawned = tasks }) (append_assoc p.spawned _ _)
  accept_loop-accepted server proxy (ctrl_c (inl error) ∷ events) p = rw append-nil refl
  accept_loop-accepted server proxy (ctrl_c (inr _) ∷ events) p = rw append-nil refl

module _ {Stream File Cert Key RootCertStore Verifier ServerConfig : Type 0} (parsers : Parsers)
    (rustls : Rustls File Cert Key RootCertStore Verifier ServerConfig) where
  -- A task that works with a secure configuration: the registration loop on the empty registry of
  -- its policy, a connection with the server configuration that its TLS part and mode stand for.
  pub data IsProper : Spawned Stream ServerConfig → Type 0 where
    loop_proper :
        (config : DashboardRelayConfig)
        → IsSecure parsers config
        → IsProper (registration_loop (empty config.registration))
    connection_proper :
        (config : DashboardRelayConfig) (server : ServerConfig) (stream : Stream)
        → IsSecure parsers config
        → IsServerConfig rustls config.tls config.trusted_proxy.enabled server
        → IsProper (wss_connection server config.trusted_proxy stream)

  connections-IsProper :
      (config : DashboardRelayConfig) (server : ServerConfig) (streams : List Stream)
      → IsSecure parsers config
      → IsServerConfig rustls config.tls config.trusted_proxy.enabled server
      → All IsProper (map (wss_connection server config.trusted_proxy) streams)
  connections-IsProper config server [] s c = tt
  connections-IsProper config server (stream ∷ streams) s c =
      (connection_proper config server stream s c, connections-IsProper config server streams s c)

  module _ {World : Type 0} where
    abbrev Proper : Process Stream ServerConfig World → Type 0
    Proper p = All IsProper p.spawned

    Keeps-spawn : (task : Spawned Stream ServerConfig) → IsProper task → Keeps Proper (spawn task)
    Keeps-spawn task i =
        Keeps-modify Proper (λ p. record p { spawned = p.spawned ++ (task ∷ []) })
          (λ p h. All-append IsProper p.spawned (task ∷ []) h (i, tt))

    accept_loop-IsProper :
        (config : DashboardRelayConfig) (server : ServerConfig) (events : List (Event Stream))
        → IsSecure parsers config
        → IsServerConfig rustls config.tls config.trusted_proxy.enabled server
        → Keeps Proper (accept_loop server config.trusted_proxy events)
    accept_loop-IsProper config server events s c = record {
      holds = λ p h. rw (accept_loop-accepted server config.trusted_proxy events p) (
          All-append IsProper p.spawned _ h
            (connections-IsProper config server (accepted events) s c));
    }

module _ {Stream World File Cert Key RootCertStore Verifier ServerConfig : Type 0}
    (parsers : Parsers) (from_str : String → String ⊎ DashboardRelayConfig)
    (read_to_string : String → String ⊎ String) (sockets : Sockets World)
    (rustls : Rustls File Cert Key RootCertStore Verifier ServerConfig)
    (tcp_bind : String → World → (String ⊎ Unit {0}) × World) where
  start-IsProper :
      (config : DashboardRelayConfig) (events : List (Event Stream))
      → IsSecure parsers config
      → Keeps
          (Proper parsers rustls)
          (start parsers from_str read_to_string sockets rustls tcp_bind config events)
  unfolding start
  start-IsProper config events s =
      Keeps->>= (Proper parsers rustls) {m = on_system (bind_listener sockets config.registration)}
        (record { holds = λ p h. h })
        λ (u : Unit {0}).
          Keeps->>= (Proper parsers rustls)
            (Keeps-spawn parsers rustls (registration_loop (empty config.registration))
              (loop_proper config s))
            λ (u : Unit {0}).
              Keeps-lift->>= (Proper parsers rustls)
                (build_server_config rustls config.tls config.trusted_proxy.enabled)
                λ (server : ServerConfig) built.
                  let c =
                    (build_server_config_iff rustls config.tls config.trusted_proxy.enabled
                        server).0
                      built in
                  Keeps->>= (Proper parsers rustls)
                    {m = on_system (attempt sockets wss_bind_failed (tcp_bind config.listen.bind))}
                    (record { holds = λ p h. h })
                    λ (u : Unit {0}).
                      Keeps->>= (Proper parsers rustls)
                        {m = println ("relay listening on " <> config.listen.public_url)}
                        (record { holds = λ p h. h })
                        λ (u : Unit {0}).
                          accept_loop-IsProper parsers rustls config server events s c

  -- Whatever the arguments, the files and the events: every task that the relay has spawned works with
  -- a configuration that is secure, and every connection with the TLS set-up that this configuration
  -- stands for.
  pub run-IsProper :
      (arguments : List String) (events : List (Event Stream))
      (p : Process Stream ServerConfig World)
      → p.spawned ≡ []
      → All
          (IsProper parsers rustls)
          (run parsers from_str read_to_string sockets rustls tcp_bind arguments events p).1.spawned
  unfolding run
  run-IsProper arguments events p none_yet =
      (Keeps-lift->>= (Proper parsers rustls) (parse arguments) λ (args : Args) q.
          Keeps-lift->>= (Proper parsers rustls)
            (load_from_path from_str read_to_string args.config_path)
            λ (config : DashboardRelayConfig) l.
              Keeps-lift->>= (Proper parsers rustls) (validate parsers config) λ (u : Unit {0}) v.
                Keeps-if (Proper parsers rustls) {m = println "relay config validated"}
                  args.check_only (record { holds = λ p h. h })
                  (start-IsProper config events ((validate_iff parsers config).0 v))).holds
        p (rw none_yet tt)

  abbrev IsSame : Process Stream ServerConfig World → Process Stream ServerConfig World → Type 0
  IsSame p q = (q.world ≡ p.world) × (q.spawned ≡ p.spawned)

  checked_only :
      (p : Process Stream ServerConfig World) (check_only : Bool)
      → check_only ≡ true
      → (m : M (Process Stream ServerConfig World) (Unit {0}))
      → Keeps (IsSame p) (if check_only then println "relay config validated" else m)
  checked_only p true e m = record { holds = λ q h. h }
  checked_only p false e m = absurd (ground arith)

  -- Unless the command line, the configuration's file and its validation are all good, and more than
  -- a check is asked for, the relay binds nothing and spawns nothing.
  pub run_unready :
      (arguments : List String) (events : List (Event Stream))
      (p : Process Stream ServerConfig World)
      → ((args : Args) (config : DashboardRelayConfig)
          → parse arguments ≡ ok args
          → load_from_path from_str read_to_string args.config_path ≡ ok config
          → IsSecure parsers config
          → args.check_only ≡ true)
      → let after =
          (run parsers from_str read_to_string sockets rustls tcp_bind arguments events p).1 in
        (after.world ≡ p.world) × (after.spawned ≡ p.spawned)
  unfolding run
  run_unready arguments events p unready =
      (Keeps-lift->>= (IsSame p) (parse arguments) λ (args : Args) a.
          Keeps-lift->>= (IsSame p) (load_from_path from_str read_to_string args.config_path)
            λ (config : DashboardRelayConfig) l.
              Keeps-lift->>= (IsSame p) (validate parsers config) λ (u : Unit {0}) v.
                checked_only p args.check_only
                  (unready args config a l ((validate_iff parsers config).0 v))
                  (start parsers from_str read_to_string sockets rustls tcp_bind config
                    events)).holds
        p (refl, refl)

-- ===== src/Main/Run.antt =====
-- `main` and `run` of src/main.rs: from the command line to the tasks that the relay spawns. What the
-- listener and the signal handler yield is an explicit list, and its end is where the run is looked
-- at.
use rust_supervisor_relay.Base.{
  ◌⊎◌, inl, inr, true, none, String, ◌<>◌, List, [], ◌∷◌, ◌++◌, if◌then◌else◌,
}
use rust_supervisor_relay.Error.{RelayError, RelayResult, ok, err, panic, new}
use rust_supervisor_relay.Effect.{M, pure, lift, modify, ◌>>=◌, ◌>>◌}
use rust_supervisor_relay.Config.{
  Parsers, TrustedProxyConfig, DashboardRelayConfig, validate, load_from_path,
}
use rust_supervisor_relay.Registry.{TargetProcessRegistry, empty}
use rust_supervisor_relay.Registration.Socket.{Sockets, attempt, bind_listener}
use rust_supervisor_relay.Main.Args.{parse}
use rust_supervisor_relay.Main.Tls.{Rustls, build_server_config}

-- A task that runs beside `run`.
pub data Spawned (Stream ServerConfig : Type 0) : Type 0 where
  registration_loop : TargetProcessRegistry → Spawned Stream ServerConfig
  wss_connection : ServerConfig → TrustedProxyConfig → Stream → Spawned Stream ServerConfig

-- What wakes the loop: a TCP connection or the signal, each with its error.
pub data Event (Stream : Type 0) : Type 0 where
  incoming : String ⊎ Stream → Event Stream
  ctrl_c : String ⊎ Unit {0} → Event Stream

-- The process: the system around it, what it has printed and the tasks it has spawned.
pub record Process (Stream ServerConfig World : Type 0) : Type 0 where
  pub world : World
  pub printed : List String
  pub spawned : List (Spawned Stream ServerConfig)

abbrev pub wss_bind_failed : String → RelayError
wss_bind_failed error =
    new "wss_bind_failed" "wss_listen" none ("wss listener could not bind: " <> error) true

abbrev wss_accept_failed : String → RelayError
wss_accept_failed error =
    new "wss_accept_failed" "wss_listen" none
      ("wss tcp connection could not be accepted: " <> error) true

abbrev shutdown_signal_failed : String → RelayError
shutdown_signal_failed error =
    new "shutdown_signal_failed" "runtime" none ("shutdown signal could not be read: " <> error)
      true

module _ {Stream ServerConfig World : Type 0} where
  abbrev pub on_system : {A : Type 0} → M World A → M (Process Stream ServerConfig World) A
  on_system m p = let (r, w) = m p.world in (r, record p { world = w })

  abbrev pub println : String → M (Process Stream ServerConfig World) (Unit {0})
  println line = modify (λ p. record p { printed = p.printed ++ (line ∷ []) })

  abbrev pub spawn : Spawned Stream ServerConfig → M (Process Stream ServerConfig World) (Unit {0})
  spawn task = modify (λ p. record p { spawned = p.spawned ++ (task ∷ []) })

  -- The loop of `run`.
  unfoldable pub accept_loop :
      ServerConfig
      → TrustedProxyConfig
      → List (Event Stream)
      → M (Process Stream ServerConfig World) (Unit {0})
  accept_loop server proxy [] = pure tt
  accept_loop server proxy (incoming (inl error) ∷ events) = lift (err (wss_accept_failed error))
  accept_loop server proxy (incoming (inr stream) ∷ events) =
      spawn (wss_connection server proxy stream) >> accept_loop server proxy events
  accept_loop server proxy (ctrl_c (inl error) ∷ events) = lift (err (shutdown_signal_failed error))
  accept_loop server proxy (ctrl_c (inr _) ∷ events) = pure tt

-- The libraries and the system that `run` works on.
module _ {Stream World File Cert Key RootCertStore Verifier ServerConfig : Type 0}
    (parsers : Parsers) (from_str : String → String ⊎ DashboardRelayConfig)
    (read_to_string : String → String ⊎ String) (sockets : Sockets World)
    (rustls : Rustls File Cert Key RootCertStore Verifier ServerConfig)
    (tcp_bind : String → World → (String ⊎ Unit {0}) × World) where
  -- The part of `run` behind the checks.
  unfoldable pub start :
      DashboardRelayConfig → List (Event Stream) → M (Process Stream ServerConfig World) (Unit {0})
  unfolding accept_loop
  start config events = do
    on_system (bind_listener sockets config.registration)
    spawn (registration_loop (empty config.registration))
    server ← lift (build_server_config rustls config.tls config.trusted_proxy.enabled)
    on_system (attempt sockets wss_bind_failed (tcp_bind config.listen.bind))
    println ("relay listening on " <> config.listen.public_url)
    accept_loop server config.trusted_proxy events

  unfoldable pub run :
      List String → List (Event Stream) → M (Process Stream ServerConfig World) (Unit {0})
  unfolding start
  run arguments events = do
    args ← lift (parse arguments)
    config ← lift (load_from_path from_str read_to_string args.config_path)
    lift (validate parsers config)
    if args.check_only then println "relay config validated" else start config events

-- The process's exit: the code, and what `main` writes to the error output.
pub data ExitCode : Type 0 where
  success failure aborted : ExitCode

unfoldable pub exit : RelayResult (Unit {0}) → ExitCode × List String
exit (ok _) = (success, [])
exit (err e) = (failure, (e.code <> (" at " <> (e.stage <> (": " <> e.message)))) ∷ [])
exit panic = (aborted, [])

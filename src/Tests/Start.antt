-- ===== src/Tests/Start.antt =====
-- Runs of the relay's start: a good configuration, one that is only checked, and the TLS set-up.
use rust_supervisor_relay.Base.{
  ℕ, ◌≡◌, ◌⊎◌, refl, inl, inr, Bool, true, false, none, some, String, List, [], ◌∷◌, ◌++◌, map, All,
}
use rust_supervisor_relay.Config.{DashboardRelayConfig}
use rust_supervisor_relay.Main.Tls.{Rustls, build_server_config}
use rust_supervisor_relay.Main.Secured.{IsServerConfig, build_server_config_iff}
use rust_supervisor_relay.Main.Run.{wss_connection, Event, incoming, Process, accept_loop, run}
use rust_supervisor_relay.Main.Started.{accepted, IsProper, accept_loop-accepted, run-IsProper}
use rust_supervisor_relay.Tests.Data.{parsers, proxy, config}
use rust_supervisor_relay.Tests.Main.{sockets}

-- A library that takes every file for one certificate and one key, and a configuration to be whether
-- clients are verified.
abbrev rustls : Rustls String String String (List String) (List String) Bool
rustls = record {
  open_file = λ path. inr path;
  certs = λ file. inr file ∷ [];
  private_key = λ file. inr (some file);
  empty = [];
  add = λ cert roots. inr (cert ∷ roots);
  build = λ roots. inr roots;
  with_single_cert = λ verifier certs key. elim verifier [ none ↦ inr false | some _ ↦ inr true ];
}

abbrev from_str : String → String ⊎ DashboardRelayConfig
from_str _ = inr config

abbrev read_to_string : String → String ⊎ String
read_to_string _ = inr "yaml"

abbrev tcp_bind : String → ℕ → (String ⊎ Unit {0}) × ℕ
tcp_bind _ w = (inr tt, w)

-- Two connections, a failed accept, and a connection behind it.
abbrev events : List (Event String)
events = incoming (inr "a") ∷ incoming (inr "b") ∷ incoming (inl "reset") ∷ incoming (inr "c") ∷ []

abbrev process : Process String Bool ℕ
process = record { world = 0; printed = []; spawned = [] }

abbrev serving : List String
serving = "--config" ∷ "relay.yaml" ∷ []

started_example :
    All
      (IsProper parsers rustls)
      (run parsers from_str read_to_string sockets rustls tcp_bind serving events process).1.spawned
started_example =
    run-IsProper parsers from_str read_to_string sockets rustls tcp_bind serving events process refl

accepted_example :
    (accept_loop true proxy events process).1
    ≡ record process { spawned = [] ++ map (wss_connection true proxy) (accepted events) }
accepted_example = accept_loop-accepted true proxy events process

server_example : IsServerConfig rustls config.tls false true
unfolding build_server_config rust_supervisor_relay.Main.Tls.load_certs
    rust_supervisor_relay.Main.Tls.load_private_key rust_supervisor_relay.Main.Tls.client_verifier
    rust_supervisor_relay.Main.Tls.add_roots rust_supervisor_relay.Main.Tls.collect
server_example = (build_server_config_iff rustls config.tls false true).0 refl

-- ===== src/Main/Tasks.antt =====
-- The tasks that src/main.rs runs beside a connection: the registration loop and other connections.
use rust_supervisor_relay.Base.{ℕ, zero, suc, ◌⊎◌, String, List, [], ◌∷◌}
use rust_supervisor_relay.Error.{RelayResult}
use rust_supervisor_relay.Time.{Clock}
use rust_supervisor_relay.Paths.{FileSystem}
use rust_supervisor_relay.Config.{Parsers, TrustedProxyConfig}
use rust_supervisor_relay.Auth.{Crypto}
use rust_supervisor_relay.Registration.{RegistrationRequest}
use rust_supervisor_relay.Registry.{TargetProcessRegistry}
use rust_supervisor_relay.Registry.Invariant.{IsValid}
use rust_supervisor_relay.Registry.Reach.{Reach, here, Reach_trans}
use rust_supervisor_relay.Ipc.{TargetIpcPort}
use rust_supervisor_relay.Session.{ClientMessage}
use rust_supervisor_relay.Session.Handshake.{unauthenticated}
use rust_supervisor_relay.Main.WebSocket.{Incoming, Runtime}
use rust_supervisor_relay.Main.Dashboard.{Task}
use rust_supervisor_relay.Main.Connection.{Arrival, handle_wss_connection}
use rust_supervisor_relay.Main.Registrations.{
  Turn, run_registration_loop, run_registration_loop-Reach,
}
use rust_supervisor_relay.Main.Served.{IsFair}
use rust_supervisor_relay.Main.Admission.{handle_wss_connection-Reach}

-- What another task does: some turns of the registration loop, or a connection.
pub data Activity : Type 0 where
  registering : List Turn → Activity
  connecting : ℕ → TrustedProxyConfig → Arrival → Incoming → Activity

module _ {Value World : Type 0} (clock : Clock) (fs : FileSystem) (parsers : Parsers)
    (crypto : Crypto) (from_str : String → String ⊎ RegistrationRequest)
    (port : TargetIpcPort Value World) (decode : String → RelayResult ClientMessage)
    (new_v4 : ℕ → String) (no_conditions : Value) (session_id : String) where
  -- A connection starts with a session that is replaced, and with no audit trail.
  abbrev arriving : Incoming → TargetProcessRegistry → World → Task Value World
  arriving incoming g w = record {
    context = record {
      session = unauthenticated session_id 0;
      registry = g;
      audit = record { events = [] };
      world = w;
    };
    incoming = incoming;
  }

  abbrev pub act :
      Runtime Value World → Activity → TargetProcessRegistry → World → TargetProcessRegistry × World
  act runtime (registering turns) g w =
      ((run_registration_loop clock fs from_str turns [] g).registry, w)
  act runtime (connecting fuel proxy arrival incoming) g w =
      let t =
        (handle_wss_connection clock parsers crypto runtime port decode new_v4 no_conditions
          session_id fuel proxy arrival (arriving incoming g w)).1 in
      (t.context.registry, t.context.world)

  abbrev pub act_all :
      Runtime Value World
      → List Activity
      → TargetProcessRegistry
      → World
      → TargetProcessRegistry × World
  act_all runtime [] g w = (g, w)
  act_all runtime (activity ∷ activities) g w =
      let (h, v) = act runtime activity g w in act_all runtime activities h v

  -- The system of a connection beside which, whenever it takes the lock, the activities of a schedule
  -- have run, and beside each of these in turn others, to a depth.
  abbrev pub beside : Runtime Value World → (ℕ → World → List Activity) → ℕ → Runtime Value World
  beside runtime schedule zero = record runtime { others = λ g w. (g, w) }
  beside runtime schedule (suc depth) = record runtime {
    others = λ g w. act_all (beside runtime schedule depth) (schedule depth w) g w;
  }

  act-Reach :
      (runtime : Runtime Value World)
      → IsFair clock fs runtime
      → (activity : Activity) → (g : TargetProcessRegistry) (w : World)
      → Reach clock fs g (act runtime activity g w).0
  act-Reach runtime fair (registering turns) g w =
      run_registration_loop-Reach clock fs from_str turns [] g
  act-Reach runtime fair (connecting fuel proxy arrival incoming) g w =
      (handle_wss_connection-Reach clock parsers crypto runtime port decode new_v4 no_conditions
        session_id fs fair fuel proxy arrival (arriving incoming g w)).0

  act_all-Reach :
      (runtime : Runtime Value World)
      → IsFair clock fs runtime
      → (activities : List Activity) → (g : TargetProcessRegistry) (w : World)
      → Reach clock fs g (act_all runtime activities g w).0
  act_all-Reach runtime fair [] g w = here
  act_all-Reach runtime fair (activity ∷ activities) g w =
      let (h, v) = act runtime activity g w in
      Reach_trans clock fs (act-Reach runtime fair activity g w)
        (act_all-Reach runtime fair activities h v)

  -- Whatever turns of the registration loop and whatever other connections run whenever a connection
  -- takes the lock, and whatever runs beside those, to any depth: the others reach the registry
  -- through its own calls.
  beside-IsFair :
      (runtime : Runtime Value World) (schedule : ℕ → World → List Activity) (depth : ℕ)
      → IsFair clock fs (beside runtime schedule depth)
  beside-IsFair runtime schedule zero = record { calls = λ g w. here }
  beside-IsFair runtime schedule (suc depth) = record {
    calls = λ g w.
        act_all-Reach (beside runtime schedule depth) (beside-IsFair runtime schedule depth)
          (schedule depth w) g w;
  }

  -- Whatever turns of the registration loop and whatever other connections run whenever a connection
  -- takes the lock, and whatever runs beside those, to any depth: from before the TLS handshake to
  -- after the last message the registry has had a history of its own calls, and a valid registry
  -- stays valid.
  pub handle_wss_connection-beside :
      (runtime : Runtime Value World) (schedule : ℕ → World → List Activity) (depth fuel : ℕ)
      → (proxy : TrustedProxyConfig) (arrival : Arrival) (t : Task Value World)
      → let after =
          (handle_wss_connection clock parsers crypto
            (beside runtime schedule depth)
            port
            decode
            new_v4
            no_conditions
            session_id
            fuel
            proxy
            arrival
            t).1.context.registry in
        Reach clock fs t.context.registry after × (IsValid t.context.registry → IsValid after)
  handle_wss_connection-beside runtime schedule depth fuel proxy arrival t =
      handle_wss_connection-Reach clock parsers crypto (beside runtime schedule depth) port decode
        new_v4 no_conditions session_id fs (beside-IsFair runtime schedule depth) fuel proxy arrival
        t

-- ===== src/Main/Vouched.antt =====
-- What a TCP connection of src/main.rs ever asks of the targets' side, from the handshakes on.
use rust_supervisor_relay.Base.{ℕ, inl, inr, String}
use rust_supervisor_relay.Error.{RelayResult}
use rust_supervisor_relay.Time.{Clock}
use rust_supervisor_relay.Paths.{FileSystem}
use rust_supervisor_relay.Config.{Parsers, TrustedProxyConfig}
use rust_supervisor_relay.Auth.{RemoteIdentity, Crypto}
use rust_supervisor_relay.Registry.Invariant.{IsValid}
use rust_supervisor_relay.Ipc.{TargetIpcPort}
use rust_supervisor_relay.Session.{ClientMessage}
use rust_supervisor_relay.Session.Guarded.{IsGuarded}
use rust_supervisor_relay.Main.WebSocket.{Runtime}
use rust_supervisor_relay.Main.Dashboard.{Task}
use rust_supervisor_relay.Main.Served.{IsFair}
use rust_supervisor_relay.Main.Guarded.{IsApart, run_dashboard_session_guarded}
use rust_supervisor_relay.Main.Connection.{Arrival, handle_wss_connection}
use rust_supervisor_relay.Main.Admission.{IsRemote, handle_wss_connection-IsRemote}

module _ {Value World : Type 0} (clock : Clock) (fs : FileSystem) (parsers : Parsers)
    (crypto : Crypto) (runtime : Runtime Value World) (fair : IsFair clock fs runtime)
    (port : TargetIpcPort Value World) (new_v4 : ℕ → String) (proxy : TrustedProxyConfig)
    (arrival : Arrival) (Q : World → Type 0) (apart : IsApart runtime Q)
    (guarded : (identity : RemoteIdentity)
      → IsRemote parsers crypto proxy arrival identity
      → IsGuarded port Q identity) where
  -- On a valid registry, and beside tasks that reach it through its own calls, a connection asks no
  -- more of the targets' side than to connect, to subscribe, and to carry out commands in the name of
  -- an operator for whom the header of a listed proxy or the peer's own certificate vouches, with a
  -- reason, confirmed if they are dangerous, each for the target that it names, whose lease runs and
  -- which declares it: whatever is kept by these, by the clock, by the web socket and by the other
  -- tasks is kept by the connection, from the handshakes on and however it ends.
  pub handle_wss_connection_guarded :
      (decode : String → RelayResult ClientMessage) (no_conditions : Value) (session_id : String)
      → (fuel : ℕ) (t : Task Value World) → IsValid t.context.registry
      → Q t.context.world
      → Q
          (handle_wss_connection clock parsers crypto runtime port decode new_v4 no_conditions
            session_id fuel proxy arrival t).1.context.world
  handle_wss_connection_guarded decode no_conditions session_id fuel t valid q =
      elim (handle_wss_connection-IsRemote clock parsers crypto runtime port decode new_v4
        no_conditions session_id fuel proxy arrival t) [
          | inl r ↦ elim r.unchanged [
            | inl e ↦ rw e q
            | inr e ↦ rw e (apart.reads_time t.context.world q)
          ]
          | inr (identity, remote, e) ↦ rw e (
              run_dashboard_session_guarded clock fs runtime fair port new_v4 identity Q apart
                (guarded identity remote) decode no_conditions session_id fuel _ valid
                (apart.reads_time t.context.world q))
        ]

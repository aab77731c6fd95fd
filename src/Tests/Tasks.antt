-- ===== src/Tests/Tasks.antt =====
-- A run of a connection beside others.
use rust_supervisor_relay.Base.{ℕ, zero, suc, List, [], ◌∷◌}
use rust_supervisor_relay.Registry.Invariant.{IsValid}
use rust_supervisor_relay.Registry.Reach.{Reach}
use rust_supervisor_relay.Main.Connection.{handle_wss_connection}
use rust_supervisor_relay.Main.Tasks.{
  Activity, registering, connecting, beside, handle_wss_connection-beside,
}
use rust_supervisor_relay.Tests.Data.{clock, fs, parsers, proxy, registry, port, new_v4}
use rust_supervisor_relay.Tests.Main.{from_str, good_turn, bad_turn}
use rust_supervisor_relay.Tests.Dashboard.{
  runtime, decode, hasty, orderly, orderly_task, crypto, arrival,
}

-- On the outside a registration and a client that says hello too late, and beside that client one
-- that is in order.
abbrev schedule : ℕ → Unit {0} → List Activity
schedule zero _ = connecting 4 proxy arrival orderly ∷ []
schedule (suc _) _ = registering (good_turn ∷ bad_turn ∷ []) ∷ connecting 4 proxy arrival hasty ∷ []

beside_example :
    let after =
      (handle_wss_connection clock parsers crypto
        (beside clock fs parsers crypto from_str port decode new_v4 "{}" "s" runtime schedule 2)
        port
        decode
        new_v4
        "{}"
        "s"
        4
        proxy
        arrival
        orderly_task).1.context.registry in
    Reach clock fs registry after × (IsValid registry → IsValid after)
beside_example =
    handle_wss_connection-beside clock fs parsers crypto from_str port decode new_v4 "{}" "s"
      runtime schedule 2 4 proxy arrival orderly_task

-- ===== src/Tests/Dashboard.antt =====
-- Runs of a dashboard connection: a client says hello and sends a command.
use rust_supervisor_relay.Base.{
  refl, true, ◌≡◌, ◌≢◌, ◌⊎◌, inr, false, none, some, String, [], ◌∷◌, arith, subst, ◌==◌,
  if◌then◌else◌,
}
use rust_supervisor_relay.Error.{RelayError, RelayResult, ok, err, new}
use rust_supervisor_relay.Registry.{ensure_target_active}
use rust_supervisor_relay.Session.{contains}
use rust_supervisor_relay.Session.Settled.{IsAnswering}
use rust_supervisor_relay.Main.AutoBind.{IsCalm, auto_bind_active_targets-contains}
use rust_supervisor_relay.Auth.{RemoteIdentity, Crypto}
use rust_supervisor_relay.Registry.Lease.{expire_leases}
use rust_supervisor_relay.Registry.Reach.{here, next, expires}
use rust_supervisor_relay.Session.{ClientMessage, client_hello, ClientHello}
use rust_supervisor_relay.Session.Guarantee.{IsServing}
use rust_supervisor_relay.Main.WebSocket.{text, ping, Incoming, next_text_message, Runtime}
use rust_supervisor_relay.Main.Dashboard.{
  Task, now_utc, auto_bind_active_targets, run_dashboard_session,
}
use rust_supervisor_relay.Main.Served.{IsFair, run_dashboard_session-IsServing}
use rust_supervisor_relay.Main.Ending.{run_dashboard_session_ends}
use rust_supervisor_relay.Main.Unopened.{IsUntouched, run_dashboard_session_unopened}
use rust_supervisor_relay.Main.Connection.{Arrival, handle_wss_connection}
use rust_supervisor_relay.Main.Admission.{IsRemote, IsRefused, handle_wss_connection-IsRemote}
use rust_supervisor_relay.Config.{v4}
use rust_supervisor_relay.Tests.Registry.{registry-IsValid}
use rust_supervisor_relay.Tests.Data.{
  reported, clock, fs, parsers, proxy, registry, identity, command, port, context, new_v4,
}

-- A system whose time stands still, whose sink takes everything, and where another task sweeps the
-- leases whenever the registry's lock is taken.
abbrev pub runtime : Runtime String (Unit {0})
runtime = record {
  now_utc = λ w. (1, w);
  to_string = λ _. inr "frame";
  send = λ _ w. (inr tt, w);
  others = λ g w. ((expire_leases 1 g).1, w);
}

runtime-IsFair : IsFair clock fs runtime
runtime-IsFair = record { calls = λ g w. next here (expires 1) }

abbrev pub hello : ClientHello
hello = record { client_store_id = "store"; resume_cursor = record { events = []; logs = [] } }

abbrev undecodable : RelayError
undecodable = new "invalid_message_json" "session" none "expected value" false

abbrev pub decode : String → RelayResult ClientMessage
decode raw =
    if raw == "hello"
    then ok (client_hello hello)
    else if raw == "command"
    then ok (ClientMessage.command command)
    else err undecodable

abbrev pub orderly : Incoming
orderly = inr (text (inr "hello")) ∷ inr ping ∷ inr (text (inr "command")) ∷ []

abbrev pub hasty : Incoming
hasty = inr ping ∷ inr (text (inr "command")) ∷ inr (text (inr "hello")) ∷ []

abbrev pub orderly_task : Task String (Unit {0})
orderly_task = record { context = context; incoming = orderly }

abbrev hasty_task : Task String (Unit {0})
hasty_task = record { context = context; incoming = hasty }

served_example :
    IsServing clock fs registry identity
      (run_dashboard_session runtime port decode new_v4 "{}" "s" 4 identity orderly_task).1.context
served_example =
    run_dashboard_session-IsServing clock fs runtime runtime-IsFair port decode new_v4 "{}" "s"
      identity 4 orderly_task

ends_example :
    (run_dashboard_session runtime port decode new_v4 "{}" "s" 4 identity orderly_task).0 ≢ ok false
ends_example =
    run_dashboard_session_ends runtime port decode new_v4 "{}" "s" identity 4 orderly_task
      (omega arith)

command_first :
    (raw : String) (h : ClientHello)
    → (next_text_message hasty).0 ≡ ok (some raw)
    → decode raw ≢ ok (client_hello h)
unfolding next_text_message
command_first raw h e =
    let same : "command" ≡ raw = ground arith in
    subst (λ x. decode x ≢ ok (client_hello h)) same (λ d. ground arith)

hasty_example :
    IsUntouched registry
      (run_dashboard_session runtime port decode new_v4 "{}" "s" 4 identity hasty_task).1.context
hasty_example =
    run_dashboard_session_unopened runtime port decode new_v4 "{}" "s" 4 identity hasty_task
      command_first

-- One certificate parses.
abbrev pub crypto : Crypto
crypto = record {
  sha256 = λ bytes. bytes;
  parse_x509 = λ _. inr (record { subject = "CN=ops"; issuer = "CN=ca"; raw_serial = "1" });
}

-- A listed proxy names the subject in a header, behind one that is not text.
abbrev pub arrival : Arrival
arrival = record {
  remote_addr = v4 1;
  accepted = inr none;
  upgraded = inr (("accept", none) ∷ ("x-identity", some "CN=ops") ∷ []);
}

remote_example :
    let r =
      handle_wss_connection clock parsers crypto runtime port decode new_v4 "{}" "s" 4 proxy arrival
        orderly_task in
    let arrived = (now_utc runtime context).1 in
    IsRefused runtime orderly_task r
    ⊎ ((operator : RemoteIdentity) × IsRemote parsers crypto proxy arrival operator
        × (r
            ≡ run_dashboard_session runtime port decode new_v4 "{}" "s" 4 operator
                (record orderly_task { context = arrived })))
remote_example =
    handle_wss_connection-IsRemote clock parsers crypto runtime port decode new_v4 "{}" "s" 4 proxy
      arrival orderly_task

-- The same system with no other task.
abbrev alone : Runtime String (Unit {0})
alone = record runtime { others = λ g w. (g, w) }

alone-IsFair : IsFair clock fs alone
alone-IsFair = record { calls = λ g w. here }

alone-IsCalm : IsCalm alone 1
alone-IsCalm = record { still = λ w. refl; lasting = λ g w k a. a }

port-IsAnswering : IsAnswering port
port-IsAnswering = record {
  reports = λ r now w. (reported, w, refl);
  subscribes = λ r now w. (w, refl);
}

auto_bind_example :
    let (result, after) = auto_bind_active_targets alone port context in
    (result ≡ ok tt)
    × ((k : String)
        → ensure_target_active k 1 registry ≡ ok tt
        → contains after.session.bound_targets k ≡ true)
auto_bind_example =
    auto_bind_active_targets-contains clock fs alone alone-IsFair 1 alone-IsCalm port
      port-IsAnswering context (record { valid = registry-IsValid; controlled = refl })

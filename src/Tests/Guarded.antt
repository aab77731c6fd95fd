-- ===== src/Tests/Guarded.antt =====
-- A targets' side that keeps the commands that reach it, and what a session puts there.
use rust_supervisor_relay.Base.{
  ◌≡◌, refl, ◌∙◌, inr, false, none, some, arith, insert, to_ascii_lowercase, codes_eq, String, List,
  [], ◌∷◌, All, is_empty, trim,
}
use rust_supervisor_relay.Error.{ok}
use rust_supervisor_relay.Command.{PreparedCommand}
use rust_supervisor_relay.Ipc.{TargetIpcPort}
use rust_supervisor_relay.Registry.Lease.{expire_leases}
use rust_supervisor_relay.Registry.Reach.{here, next, expires}
use rust_supervisor_relay.Session.Guarded.{IsGuarded}
use rust_supervisor_relay.Main.WebSocket.{Runtime}
use rust_supervisor_relay.Main.Dashboard.{Task}
use rust_supervisor_relay.Main.Served.{IsFair}
use rust_supervisor_relay.Auth.{RemoteIdentity, find_header}
use rust_supervisor_relay.Main.Admission.{IsRemote, by_header, by_certificate}
use rust_supervisor_relay.Main.Vouched.{handle_wss_connection_guarded}
use rust_supervisor_relay.Main.Connection.{HeaderMap, on_request, handle_wss_connection}
use rust_supervisor_relay.Main.Guarded.{IsApart}
use rust_supervisor_relay.Tests.Data.{
  clock, fs, parsers, proxy, registry, identity, session, reported, answer, new_v4,
}
use rust_supervisor_relay.Tests.Registry.{registry-IsValid}
use rust_supervisor_relay.Tests.Dashboard.{decode, orderly, crypto, arrival}

abbrev Log : Type 0
Log = List PreparedCommand

abbrev recorder : TargetIpcPort String Log
recorder = record {
  connect_state = λ _ _ w. (ok reported, w);
  subscribe_event_log = λ _ _ w. (ok tt, w);
  forward_command = λ _ p _ w. (ok answer, p ∷ w);
}

abbrev logging : Runtime String Log
logging = record {
  now_utc = λ w. (1, w);
  to_string = λ _. inr "frame";
  send = λ _ w. (inr tt, w);
  others = λ g w. ((expire_leases 1 g).1, w);
}

-- The commands in the operator's name and with a reason.
abbrev Signed : Log → Type 0
Signed = All (λ p. (p.requested_by ≡ "CN=ops") × (is_empty (trim p.reason) ≡ false))

logging-IsFair : IsFair clock fs logging
logging-IsFair = record { calls = λ g w. next here (expires 1) }

logging-IsApart : IsApart logging Signed
logging-IsApart = record { reads_time = λ w q. q; sends = λ t w q. q; runs = λ g w q. q }

recorder-IsGuarded : IsGuarded recorder Signed identity
recorder-IsGuarded = record {
  connects = λ r now w q. q;
  subscribes = λ r now w q. q;
  forwards = λ r p now w permitted q. ((permitted.requested, permitted.reasoned), q);
}

abbrev log_task : Task String Log
log_task = record {
  context = record {
    session = session;
    registry = registry;
    audit = record { events = [] };
    world = [];
  };
  incoming = orderly;
}

abbrev headers : HeaderMap
headers = ("accept", none) ∷ ("x-identity", some "CN=ops") ∷ []

operator_header :
    find_header (to_ascii_lowercase proxy.identity_header) (on_request headers []) ≡ some "CN=ops"
unfolding find_header to_ascii_lowercase on_request insert codes_eq trim
operator_header = refl

-- Whoever the peer of the arrival is, it is the operator.
vouched :
    (operator : RemoteIdentity)
    → IsRemote parsers crypto proxy arrival operator
    → operator.principal ≡ "CN=ops"
vouched operator (by_header request u h) =
    let same : request ≡ headers = ground arith in
    let header = h.header in h.principal ∙ ground (arith, rw same at header, operator_header)
vouched operator (by_certificate certificates der off a f h) = absurd (ground arith)

vouched_example :
    Signed
      (handle_wss_connection clock parsers crypto logging recorder decode new_v4 "{}" "s" 4 proxy
        arrival log_task).1.context.world
vouched_example =
    handle_wss_connection_guarded clock fs parsers crypto logging logging-IsFair recorder new_v4
      proxy arrival Signed logging-IsApart
      (λ operator remote. record {
        connects = λ r now w q. q;
        subscribes = λ r now w q. q;
        forwards = λ r p now w permitted q.
            ((permitted.requested ∙ vouched operator remote, permitted.reasoned), q);
      })
      decode "{}" "s" 4 log_task registry-IsValid tt

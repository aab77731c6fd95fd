-- ===== src/Tests/Session.antt =====
-- Runs of a session: its opening, its streams and its commands.
use rust_supervisor_relay.Base.{
  ℕ, ◌^◌, ◌<◌, ◌≡◌, refl, ◌⊎◌, inl, inr, Bool, true, false, Option, none, some, String, List, [],
  ◌∷◌, ◌++◌, arith, any, ◌==◌, lookup, is_some, not, All, ◌&&◌,
}
use rust_supervisor_relay.Error.{RelayError, ok, err}
use rust_supervisor_relay.Auth.{RemoteIdentity}
use rust_supervisor_relay.Command.{
  ControlCommandName, restart_child, ControlCommandResult, ClientCommand, PreparedCommand,
  prepare_client_command, from_wire, wire_name,
}
use rust_supervisor_relay.Command.Laws.{IsAllowed, prepared, prepare_client_command_iff}
use rust_supervisor_relay.Registry.{TargetProcessRegistration, connected, connection_state}
use rust_supervisor_relay.Session.{
  EventRecord, ServerMessage, state, command_result, ClientHello, DashboardSession,
}
use rust_supervisor_relay.Session.Handshake.{greet}
use rust_supervisor_relay.Session.Sequence.{accept_events, IsExact, accept_events-IsExact}
use rust_supervisor_relay.Session.Control.{finish_command, forward_prepared, handle_command}
use rust_supervisor_relay.Session.Gate.{IsAuthorized, handle_command_cases}
use rust_supervisor_relay.Session.Trail.{LeavesTrail, handle_command_trail}
use rust_supervisor_relay.Session.Refresh.{finish_command_refreshes}
use rust_supervisor_relay.Relay.Delivery.{
  Delivery, event_of, count_of, delta_of, lost, deliver_all, AreHeard,
}
use rust_supervisor_relay.Relay.Heard.{deliver_all-AreHeard}
use rust_supervisor_relay.Tests.Data.{
  registry, alpha, alpha_link, identity, alpha_bound, command, reported, answer, port, context,
  bound_context, new_v4,
}

abbrev event_at : ℕ → EventRecord
event_at sequence = record {
  target_id = "alpha";
  sequence = sequence;
  event_type = "child_exited";
  severity = "warn";
  occurred_at = 1;
}

-- The second event leaves a gap and the third is stale.
abbrev events : List EventRecord
events = event_at 5 ∷ event_at 9 ∷ event_at 9 ∷ []

events_example :
    let s' = accept_events events alpha_bound in
    (ms : List (ServerMessage String)) × (s'.outbox ≡ alpha_bound.outbox ++ ms)
    × IsExact "alpha"
        (lookup "alpha" alpha_bound.last_sequences)
        ms
        (lookup "alpha" s'.last_sequences)
events_example =
    accept_events-IsExact "alpha" events alpha_bound (omega arith, (omega arith, (omega arith, tt)))

command_example :
    ((e : RelayError) × (handle_command port new_v4 command 1 bound_context
        ≡ (err e, bound_context)))
    ⊎ ((identity : RemoteIdentity) × (r : TargetProcessRegistration) × IsAuthorized bound_context
          command 1 identity r
        × (handle_command port new_v4 command 1 bound_context
            ≡ forward_prepared port new_v4 r identity
                (prepared command identity 1)
                1
                bound_context))
command_example = handle_command_cases port new_v4 command 1 bound_context

trail_example :
    LeavesTrail port new_v4 command 1 bound_context
      (handle_command port new_v4 command 1 bound_context)
trail_example = handle_command_trail port new_v4 command 1 bound_context

prepared_example : IsAllowed command × (prepared command identity 1 ≡ prepared command identity 1)
unfolding prepare_client_command rust_supervisor_relay.Base.is_empty rust_supervisor_relay.Base.trim
    rust_supervisor_relay.Command.requires_confirmation
prepared_example =
    (prepare_client_command_iff command identity 1 (prepared command identity 1)).0 refl

-- The session is bound to no target, and its answer names one all the same.
refresh_example :
    let (result, c') =
      finish_command port new_v4 identity (prepared command identity 1) answer 1 context in
    (result ≡ ok answer)
    × (c'.session.outbox
        ≡ (context.session.outbox ++ (command_result answer.target_id answer ∷ []))
          ++ (state answer.target_id reported.payload ∷ []))
    × (connection_state answer.target_id c'.registry ≡ some connected)
unfolding lookup
refresh_example =
    finish_command_refreshes port new_v4 identity (prepared command identity 1) answer 1 context
      alpha alpha_link reported tt refl refl refl refl

-- A message of a target that the session is not bound to, between two of one that it is bound to.
abbrev deliveries : List (Delivery String)
deliveries =
    event_of (event_at 5)
    ∷ count_of "beta" 2
    ∷ event_of (event_at 9)
    ∷ event_of (event_at 9)
    ∷ delta_of "alpha" "{}"
    ∷ lost "alpha" 3
    ∷ []

deliveries_example :
    AreHeard deliveries bound_context.session
      (deliver_all deliveries (bound_context.session, registry))
deliveries_example = deliver_all-AreHeard deliveries bound_context.session registry (omega arith)

abbrev no_conditions : String
no_conditions = "{}"

abbrev hello : ClientHello
hello = record { client_store_id = "store"; resume_cursor = record { events = []; logs = [] } }

abbrev greeted : DashboardSession String
greeted = greet "{}" "s" identity 0

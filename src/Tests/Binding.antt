-- ===== src/Tests/Binding.antt =====
-- Runs of the binding of a target.
use rust_supervisor_relay.Base.{◌≡◌, refl, true, some, [], ◌∷◌, ◌++◌, lookup}
use rust_supervisor_relay.Error.{ok, err}
use rust_supervisor_relay.Registry.{connected, unavailable, connection_state}
use rust_supervisor_relay.Session.{state, contains}
use rust_supervisor_relay.Session.Bind.{bind_target}
use rust_supervisor_relay.Session.Bound.{IsReady, bind_target_subscribed, bind_target_refused}
use rust_supervisor_relay.Tests.Data.{alpha, reported, broken, port, refusing, context}
use rust_supervisor_relay.Tests.Registry.{registry-IsValid}

context-IsReady : IsReady context "alpha" 1 alpha
unfolding lookup contains
context-IsReady = record {
  valid = registry-IsValid;
  controlled = refl;
  live = (refl, refl);
  unbound = refl;
}

bound_example :
    let (result, c') = bind_target port "alpha" 1 context in
    (result ≡ ok tt)
    × (contains c'.session.bound_targets "alpha" ≡ true)
    × (c'.session.outbox ≡ context.session.outbox ++ (state "alpha" reported.payload ∷ []))
    × (connection_state "alpha" c'.registry ≡ some connected)
bound_example =
    bind_target_subscribed port "alpha" alpha 1 context reported tt tt context-IsReady refl refl

refused_example :
    let (result, c') = bind_target refusing "alpha" 1 context in
    (result ≡ err broken)
    × (c'.session ≡ context.session)
    × (connection_state "alpha" c'.registry ≡ some unavailable)
refused_example =
    bind_target_refused refusing "alpha" alpha 1 context broken tt context-IsReady refl

-- ===== src/Tests/Order.antt =====
-- Two registries with the same targets in different orders.
use rust_supervisor_relay.Base.{
  ◌≡◌, refl, List, [], ◌∷◌, lookup, insert, arith, subst, eq_iff, is_empty, trim,
}
use rust_supervisor_relay.Error.{ok}
use rust_supervisor_relay.Paths.{is_absolute, starts_with, parent, file_name, join}
use rust_supervisor_relay.Config.{ipc_path_is_allowed}
use rust_supervisor_relay.Registration.{RegistrationRequest}
use rust_supervisor_relay.Registry.{
  TargetProcessRegistration, TargetProcessConnection, TargetProcessRegistry, empty,
}
use rust_supervisor_relay.Registry.Validate.{validate_request, normalize_ipc_path_key}
use rust_supervisor_relay.Registry.Register.{register}
use rust_supervisor_relay.Registry.Invariant.{IsValid}
use rust_supervisor_relay.Registry.Reach.{here, next, registers, Reach-IsValid, Reach-keeps}
use rust_supervisor_relay.Registry.Alike.{Alike}
use rust_supervisor_relay.Registry.Order.{
  Call, register_call, expire_call, count_call, active_call, targets_call, summary_call, run_calls,
  run_calls-Alike,
}
use rust_supervisor_relay.Tests.Data.{clock, fs, policy, request, alpha, alpha_link, registry}
use rust_supervisor_relay.Tests.Registry.{registry-IsValid}

abbrev beta_request : RegistrationRequest
beta_request = record request { target_id = "beta"; ipc_path = "/run/targets/beta.sock" }

abbrev beta : TargetProcessRegistration
beta = record alpha {
  target_id = "beta";
  ipc_path = "/run/targets/beta.sock";
  ipc_path_key = "/run/targets/beta.sock";
}

abbrev beta_link : TargetProcessConnection
beta_link = record alpha_link { target_id = "beta"; ipc_path = "/run/targets/beta.sock" }

abbrev alpha_first : TargetProcessRegistry
alpha_first = record {
  policy = policy;
  registrations = ("alpha", alpha) ∷ ("beta", beta) ∷ [];
  connections = ("alpha", alpha_link) ∷ ("beta", beta_link) ∷ [];
}

abbrev only_beta : TargetProcessRegistry
only_beta = record {
  policy = policy;
  registrations = ("beta", beta) ∷ [];
  connections = ("beta", beta_link) ∷ [];
}

abbrev beta_first : TargetProcessRegistry
beta_first = record {
  policy = policy;
  registrations = ("beta", beta) ∷ ("alpha", alpha) ∷ [];
  connections = ("beta", beta_link) ∷ ("alpha", alpha_link) ∷ [];
}

registered_second :
    register clock fs beta_request "unix_uid:501" 0 registry ≡ (ok beta, alpha_first)
unfolding register validate_request is_empty trim is_absolute ipc_path_is_allowed starts_with
    normalize_ipc_path_key parent file_name lookup join insert
registered_second = refl

registered_beta :
    register clock fs beta_request "unix_uid:501" 0 (empty policy) ≡ (ok beta, only_beta)
unfolding register validate_request is_empty trim is_absolute ipc_path_is_allowed starts_with
    normalize_ipc_path_key parent file_name lookup join insert
registered_beta = refl

registered_last : register clock fs request "unix_uid:501" 0 only_beta ≡ (ok alpha, beta_first)
unfolding register validate_request is_empty trim is_absolute ipc_path_is_allowed starts_with
    normalize_ipc_path_key parent file_name lookup join insert
registered_last = refl

alpha_first-IsValid : IsValid alpha_first
alpha_first-IsValid =
    subst (λ out. IsValid out.1) registered_second
      (Reach-keeps clock fs (next here (registers beta_request "unix_uid:501" 0)) registry-IsValid)

only_beta-IsValid : IsValid only_beta
only_beta-IsValid =
    subst (λ out. IsValid out.1) registered_beta
      (Reach-IsValid clock fs policy (next here (registers beta_request "unix_uid:501" 0)))

beta_first-IsValid : IsValid beta_first
beta_first-IsValid =
    subst (λ out. IsValid out.1) registered_last
      (Reach-keeps clock fs (next here (registers request "unix_uid:501" 0)) only_beta-IsValid)

orders-Alike : Alike alpha_first beta_first
unfolding lookup
orders-Alike = record {
  policy = refl;
  registrations = λ k. ground (arith, eq_iff "alpha" k, eq_iff "beta" k, eq_iff "alpha" "beta");
  connections = λ k. ground (arith, eq_iff "alpha" k, eq_iff "beta" k, eq_iff "alpha" "beta");
}

abbrev calls : List Call
calls =
    register_call request "unix_uid:0" 1
    ∷ count_call 1
    ∷ active_call "beta" 1
    ∷ targets_call 1
    ∷ expire_call 40_000_000_000
    ∷ summary_call
    ∷ active_call "beta" 40_000_000_000
    ∷ []

order_example :
    ((run_calls clock fs calls alpha_first).0 ≡ (run_calls clock fs calls beta_first).0)
    × Alike (run_calls clock fs calls alpha_first).1 (run_calls clock fs calls beta_first).1
order_example =
    run_calls-Alike clock fs calls alpha_first beta_first alpha_first-IsValid beta_first-IsValid
      orders-Alike

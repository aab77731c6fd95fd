-- ===== src/Registry/Order.antt =====
-- Any run of calls of src/registry.rs gives the same answers in whatever order its hash maps iterate.
use rust_supervisor_relay.Base.{◌≡◌, refl, ap, ℕ, Option, String, List, [], ◌∷◌}
use rust_supervisor_relay.Base.Bag.{Bag, bag, length-keep-Same}
use mathlib.Core.Option
use rust_supervisor_relay.Error.{RelayResult}
use rust_supervisor_relay.Time.{OffsetDateTime, Clock}
use rust_supervisor_relay.Paths.{FileSystem}
use rust_supervisor_relay.Registration.{RegistrationRequest}
use rust_supervisor_relay.Command.{ControlCommandName}
use rust_supervisor_relay.Registry.{
  ConnectionState, VisibleTarget, AvailabilitySummary, active_targets, availability_summary,
  TargetProcessRegistration, TargetProcessRegistry, is_live, registration, ensure_target_active,
  ensure_command_supported, connection_state, active_registration_count,
}
use rust_supervisor_relay.Registry.Register.{register}
use rust_supervisor_relay.Registry.Lease.{renew, expire_leases}
use rust_supervisor_relay.Registry.Link.{
  begin_binding, mark_connected, mark_reconnecting, mark_unavailable, update_sequence,
}
use rust_supervisor_relay.Registry.Invariant.{IsValid}
use rust_supervisor_relay.Registry.Reach.{
  Step-IsValid, registers, renews, expires, begins, connects, reconnects, fails, advances,
}
use rust_supervisor_relay.Registry.Alike.{Alike, register-Agrees, renew-Agrees, expire_leases-Alike}
use rust_supervisor_relay.Registry.Alike.Link.{
  begin_binding-Agrees, mark_connected-Agrees, mark_reconnecting-Alike, mark_unavailable-Alike,
  update_sequence-Alike,
}
use rust_supervisor_relay.Registry.Unordered.{active_targets-Alike, availability_summary-Alike}

-- A call of the registry, with its arguments.
pub data Call : Type 0 where
  register_call : RegistrationRequest → String → OffsetDateTime → Call
  renew_call begin_call : String → OffsetDateTime → Call
  expire_call count_call targets_call : OffsetDateTime → Call
  connect_call : String → ℕ → OffsetDateTime → Call
  reconnect_call fail_call : String → String → OffsetDateTime → Call
  advance_call : String → ℕ → Call
  registration_call : String → Call
  active_call : String → OffsetDateTime → Call
  supported_call : String → ControlCommandName → Call
  state_call : String → Call
  summary_call : Call

-- What a call returns. The active targets come in no order.
pub data Answer : Type 0 where
  registered : RelayResult TargetProcessRegistration → Answer
  checked : RelayResult (Unit {0}) → Answer
  counted : ℕ → Answer
  followed : Option ℕ → Answer
  stated : Option ConnectionState → Answer
  shown : Bag VisibleTarget → Answer
  summed : AvailabilitySummary → Answer
  noted : Answer

registration-Alike :
    (k : String) (g h : TargetProcessRegistry) → Alike g h → registration k g ≡ registration k h
unfolding registration
registration-Alike k g h a = rw (registration, a.registrations k) refl

module _ (k : String) (g h : TargetProcessRegistry) (a : Alike g h) where
  ensure_target_active-Alike :
      (now : OffsetDateTime) → ensure_target_active k now g ≡ ensure_target_active k now h
  unfolding ensure_target_active
  ensure_target_active-Alike now = rw (ensure_target_active, registration-Alike k g h a) refl

  ensure_command_supported-Alike :
      (name : ControlCommandName)
      → ensure_command_supported k name g ≡ ensure_command_supported k name h
  unfolding ensure_command_supported
  ensure_command_supported-Alike name =
      rw (ensure_command_supported, registration-Alike k g h a) refl

  connection_state-Alike : connection_state k g ≡ connection_state k h
  unfolding connection_state
  connection_state-Alike = ap (Option.map (λ c. c.state)) (a.connections k)

active_registration_count-Alike :
    (now : OffsetDateTime) (g h : TargetProcessRegistry)
    → IsValid g
    → IsValid h
    → Alike g h
    → active_registration_count now g ≡ active_registration_count now h
unfolding active_registration_count
active_registration_count-Alike now g h v w a =
    length-keep-Same (λ (_, r). is_live now r) g.registrations h.registrations v.nodup_registrations
      w.nodup_registrations a.registrations

module _ (clock : Clock) (fs : FileSystem) where
  unfoldable pub run_call : Call → TargetProcessRegistry → Answer × TargetProcessRegistry
  run_call (register_call q owner now) g =
      let (r, g') = register clock fs q owner now g in (registered r, g')
  run_call (renew_call k now) g = let (r, g') = renew clock k now g in (checked r, g')
  run_call (begin_call k now) g = let (r, g') = begin_binding k now g in (checked r, g')
  run_call (expire_call now) g = let (n, g') = expire_leases now g in (counted n, g')
  run_call (count_call now) g = (counted (active_registration_count now g), g)
  run_call (connect_call k generation now) g =
      let (r, g') = mark_connected k generation now g in (checked r, g')
  run_call (reconnect_call k reason now) g = (noted, mark_reconnecting k reason now g)
  run_call (fail_call k reason now) g = (noted, mark_unavailable k reason now g)
  run_call (advance_call k sequence) g =
      let (previous, g') = update_sequence k sequence g in (followed previous, g')
  run_call (registration_call k) g = (registered (registration k g), g)
  run_call (active_call k now) g = (checked (ensure_target_active k now g), g)
  run_call (supported_call k name) g = (checked (ensure_command_supported k name g), g)
  run_call (state_call k) g = (stated (connection_state k g), g)
  run_call (targets_call now) g = (shown (bag (active_targets now g)), g)
  run_call summary_call g = (summed (availability_summary g), g)

  unfoldable pub run_calls : List Call → TargetProcessRegistry → List Answer × TargetProcessRegistry
  unfolding run_call
  run_calls [] g = ([], g)
  run_calls (call ∷ calls) g =
      let (answer, g') = run_call call g in
      let (answers, g'') = run_calls calls g' in (answer ∷ answers, g'')

  run_call-Alike :
      (call : Call) (g h : TargetProcessRegistry)
      → IsValid g
      → IsValid h
      → Alike g h
      → ((run_call call g).0 ≡ (run_call call h).0) × Alike (run_call call g).1 (run_call call h).1
  unfolding run_call
  run_call-Alike (register_call q owner now) g h v w a =
      let r = register-Agrees clock fs q owner now g h v w a in (ap registered r.result, r.after)
  run_call-Alike (renew_call k now) g h v w a =
      let r = renew-Agrees clock fs k now g h a in (ap checked r.result, r.after)
  run_call-Alike (begin_call k now) g h v w a =
      let r = begin_binding-Agrees k now g h a in (ap checked r.result, r.after)
  run_call-Alike (expire_call now) g h v w a =
      let (n, b) = expire_leases-Alike now g h v w a in (ap counted n, b)
  run_call-Alike (count_call now) g h v w a =
      (ap counted (active_registration_count-Alike now g h v w a), a)
  run_call-Alike (connect_call k generation now) g h v w a =
      let r = mark_connected-Agrees k generation now g h a in (ap checked r.result, r.after)
  run_call-Alike (reconnect_call k reason now) g h v w a =
      (refl, mark_reconnecting-Alike k reason now g h a)
  run_call-Alike (fail_call k reason now) g h v w a =
      (refl, mark_unavailable-Alike k reason now g h a)
  run_call-Alike (advance_call k sequence) g h v w a =
      let (p, b) = update_sequence-Alike k sequence g h a in (ap followed p, b)
  run_call-Alike (registration_call k) g h v w a = (ap registered (registration-Alike k g h a), a)
  run_call-Alike (active_call k now) g h v w a =
      (ap checked (ensure_target_active-Alike k g h a now), a)
  run_call-Alike (supported_call k name) g h v w a =
      (ap checked (ensure_command_supported-Alike k g h a name), a)
  run_call-Alike (state_call k) g h v w a = (ap stated (connection_state-Alike k g h a), a)
  run_call-Alike (targets_call now) g h v w a = (ap shown (active_targets-Alike now g h v w a), a)
  run_call-Alike summary_call g h v w a = (ap summed (availability_summary-Alike g h v w a), a)

  run_call-IsValid :
      (call : Call) (g : TargetProcessRegistry) → IsValid g → IsValid (run_call call g).1
  unfolding run_call
  run_call-IsValid (register_call q owner now) g v = Step-IsValid clock fs (registers q owner now) v
  run_call-IsValid (renew_call k now) g v = Step-IsValid clock fs (renews k now) v
  run_call-IsValid (begin_call k now) g v = Step-IsValid clock fs (begins k now) v
  run_call-IsValid (expire_call now) g v = Step-IsValid clock fs (expires now) v
  run_call-IsValid (connect_call k generation now) g v =
      Step-IsValid clock fs (connects k generation now) v
  run_call-IsValid (reconnect_call k reason now) g v =
      Step-IsValid clock fs (reconnects k reason now) v
  run_call-IsValid (fail_call k reason now) g v = Step-IsValid clock fs (fails k reason now) v
  run_call-IsValid (advance_call k sequence) g v = Step-IsValid clock fs (advances k sequence) v
  run_call-IsValid (count_call now) g v = v
  run_call-IsValid (registration_call k) g v = v
  run_call-IsValid (active_call k now) g v = v
  run_call-IsValid (supported_call k name) g v = v
  run_call-IsValid (state_call k) g v = v
  run_call-IsValid (targets_call now) g v = v
  run_call-IsValid summary_call g v = v

  -- From two valid registries that hold the same entries in whatever order, any run of calls gives
  -- the same answers, a list of targets up to its order, and leaves the same entries.
  pub run_calls-Alike :
      (calls : List Call) (g h : TargetProcessRegistry)
      → IsValid g
      → IsValid h
      → Alike g h
      → ((run_calls calls g).0 ≡ (run_calls calls h).0)
        × Alike (run_calls calls g).1 (run_calls calls h).1
  unfolding run_calls
  run_calls-Alike [] g h v w a = (refl, a)
  run_calls-Alike (call ∷ calls) g h v w a =
      let (e, b) = run_call-Alike call g h v w a in
      let (es, c) =
        run_calls-Alike calls (run_call call g).1 (run_call call h).1 (run_call-IsValid call g v)
          (run_call-IsValid call h w) b in
      (cc, c)

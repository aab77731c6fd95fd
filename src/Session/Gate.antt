-- ===== src/Session/Gate.antt =====
-- What stands between a client and a target: the conditions under which a session reaches the
-- targets' side at all.
use rust_supervisor_relay.Base.{
  ℕ, ◌≡◌, refl, ◌≢◌, ◌⊎◌, inl, inr, true, false, some, String, arith, any, ◌==◌, lookup,
  if◌then◌else◌, Bool-cases, Option-cases,
}
use rust_supervisor_relay.Error.{RelayError, ok, err, panic, RelayResult-cases}
use rust_supervisor_relay.Time.{OffsetDateTime}
use rust_supervisor_relay.Auth.{RemoteIdentity}
use rust_supervisor_relay.Command.{
  ClientCommand, ControlCommandName, prepare_client_command, wire_name,
}
use rust_supervisor_relay.Command.Laws.{IsAllowed, prepared, prepare_client_command_iff}
use rust_supervisor_relay.Registry.{
  TargetProcessRegistration, TargetProcessRegistry, is_live, unsupported, inactive, not_registered,
  registration, ensure_target_active, ensure_command_supported,
}
use rust_supervisor_relay.Ipc.{TargetIpcPort}
use rust_supervisor_relay.Session.{contains, in_control, uncontrolled, ensure_control_established}
use rust_supervisor_relay.Session.Context.{Context}
use rust_supervisor_relay.Session.Bind.{connect_and_subscribe, bind_target}
use rust_supervisor_relay.Session.Control.{unbound, forward_prepared, handle_command}

-- The target has a registration whose lease runs.
abbrev pub IsLive :
    TargetProcessRegistry → String → OffsetDateTime → TargetProcessRegistration → Type 0
IsLive g target_id now r = (lookup target_id g.registrations ≡ some r) × (is_live now r ≡ true)

pub ensure_target_active_cases :
    (target_id : String) (now : OffsetDateTime) (g : TargetProcessRegistry)
    → ((r : TargetProcessRegistration) × IsLive g target_id now r
        × (ensure_target_active target_id now g ≡ ok tt)
        × (registration target_id g ≡ ok r))
      ⊎ ((e : RelayError) × (ensure_target_active target_id now g ≡ err e))
unfolding ensure_target_active
ensure_target_active_cases target_id now g =
    elim (Option-cases (lookup target_id g.registrations)) [
      | inl n ↦ inr (not_registered target_id, rw n refl)
      | inr (r, n) ↦ elim (Bool-cases (is_live now r)) [
        | inl l ↦ inl (r, (n, l), ground arith, ground arith)
        | inr l ↦ inr (inactive target_id, ground arith)
      ]
    ]

ensure_command_supported_cases :
    (target_id : String) (command : ControlCommandName) (g : TargetProcessRegistry)
    → (r : TargetProcessRegistration) → lookup target_id g.registrations ≡ some r
    → let supported = any (λ s. s.name == wire_name command) r.supported_commands in
      ((supported ≡ true) × (ensure_command_supported target_id command g ≡ ok tt))
      ⊎ ((supported ≡ false)
          × (ensure_command_supported target_id command g ≡ err (unsupported target_id)))
unfolding ensure_command_supported
ensure_command_supported_cases target_id command g r e =
    elim (Bool-cases (any (λ s. s.name == wire_name command) r.supported_commands)) [
      | inl t ↦ inl (t, rw (e, t) refl)
      | inr t ↦ inr (t, rw (e, t) refl)
    ]

prepare_client_command-ne-panic :
    (c : ClientCommand) (identity : RemoteIdentity) (now : OffsetDateTime)
    → prepare_client_command c identity now ≢ panic
unfolding prepare_client_command
prepare_client_command-ne-panic c identity now h = ground arith

module _ {Value World : Type 0} (port : TargetIpcPort Value World) where
  -- `bind_target` either fails and changes nothing, or the session is in control of a live target,
  -- and then it does nothing for a target that is bound already, and connects to any other.
  pub bind_target_cases :
      (target_id : String) (now : OffsetDateTime) (c : Context Value World)
      → ((e : RelayError) × (bind_target port target_id now c ≡ (err e, c)))
        ⊎ ((in_control c.session ≡ true)
            × ((r : TargetProcessRegistration) × IsLive c.registry target_id now r
                × (bind_target port target_id now c ≡ (
                    if contains c.session.bound_targets target_id
                    then (ok tt, c)
                    else connect_and_subscribe port target_id r now c))))
  unfolding bind_target ensure_control_established
  bind_target_cases target_id now c = elim (Bool-cases (in_control c.session)) [
    | inr n ↦ inl (uncontrolled, rw n refl)
    | inl i ↦ elim (ensure_target_active_cases target_id now c.registry) [
      | inr (e, q) ↦ inl (e, rw (i, q) refl)
      | inl (r, l, q, p) ↦ inr (
        i,
        (
          r,
          l,
          rw (i, q, p)
              (elim (Bool-cases (contains c.session.bound_targets target_id)) [
                | inl b ↦ rw b refl
                | inr b ↦ rw b refl
              ]),
        ),
      )
    ]
  ]

module _ {Value World : Type 0} (port : TargetIpcPort Value World) where
  pub bind_target_live :
      (target_id : String) (now : OffsetDateTime) (c : Context Value World)
      → (r : TargetProcessRegistration) → in_control c.session ≡ true
      → IsLive c.registry target_id now r
      → contains c.session.bound_targets target_id ≡ false
      → bind_target port target_id now c ≡ connect_and_subscribe port target_id r now c
  unfolding bind_target ensure_control_established ensure_target_active
  bind_target_live target_id now c r i l b = ground (arith, i, l.0, l.1, b)

-- What a command needs to reach a target.
pub record IsAuthorized {Value World : Type 0} (ctx : Context Value World) (c : ClientCommand)
    (now : OffsetDateTime) (identity : RemoteIdentity) (r : TargetProcessRegistration)
    : Type 0 where
  pub controlled : in_control ctx.session ≡ true
  pub authenticated : ctx.session.remote_identity ≡ some identity
  pub bound : contains ctx.session.bound_targets c.target_id ≡ true
  pub live : IsLive ctx.registry c.target_id now r
  pub supported : any (λ s. s.name == wire_name c.command) r.supported_commands ≡ true
  pub allowed : IsAllowed c

module _ {Value World : Type 0} (port : TargetIpcPort Value World) (new_v4 : ℕ → String) where
  -- A command either fails and changes nothing, neither the registry nor the audit trail nor the
  -- targets' side, or it is authorized and is forwarded with the identity of the session.
  pub handle_command_cases :
      (c : ClientCommand) (now : OffsetDateTime) (ctx : Context Value World)
      → ((e : RelayError) × (handle_command port new_v4 c now ctx ≡ (err e, ctx)))
        ⊎ ((identity : RemoteIdentity) × (r : TargetProcessRegistration) × IsAuthorized ctx c now
              identity r
            × (handle_command port new_v4 c now ctx
                ≡ forward_prepared port new_v4 r identity (prepared c identity now) now ctx))
  unfolding handle_command ensure_control_established
  handle_command_cases c now ctx = elim (Bool-cases (in_control ctx.session)) [
    | inr n ↦ inl (uncontrolled, rw n refl)
    | inl i ↦ elim (Option-cases ctx.session.remote_identity) [
      | inl n ↦ absurd (ground arith)
      | inr (identity, o) ↦ elim (Bool-cases (contains ctx.session.bound_targets c.target_id)) [
        | inr n ↦ inl (unbound c.target_id, rw (i, o, n) refl)
        | inl b ↦ elim (ensure_target_active_cases c.target_id now ctx.registry) [
          | inr (e, q) ↦ inl (e, rw (i, o, b, q) refl)
          | inl (r, l, q, p) ↦
              elim (ensure_command_supported_cases c.target_id c.command ctx.registry r l.0) [
                | inr t ↦ inl (unsupported c.target_id, rw (i, o, b, q, t.1) refl)
                | inl t ↦ elim (RelayResult-cases (prepare_client_command c identity now)) [
                  | inr (inl (e, x)) ↦ inl (e, rw (i, o, b, q, t.1, p, x) refl)
                  | inr (inr x) ↦ absurd (prepare_client_command-ne-panic c identity now x)
                  | inl (p', x) ↦
                      let (a, y) = (prepare_client_command_iff c identity now p').0 x in
                      inr (
                        identity,
                        r,
                        record {
                          controlled = i;
                          authenticated = o;
                          bound = b;
                          live = l;
                          supported = t.0;
                          allowed = a;
                        },
                        rw (i, o, b, q, t.1, p, x, y) refl,
                      )
                ]
              ]
        ]
      ]
    ]
  ]

  -- An authorized command is forwarded.
  pub handle_command_authorized :
      (c : ClientCommand) (now : OffsetDateTime) (ctx : Context Value World)
      → (identity : RemoteIdentity) (r : TargetProcessRegistration)
      → IsAuthorized ctx c now identity r
      → handle_command port new_v4 c now ctx
        ≡ forward_prepared port new_v4 r identity (prepared c identity now) now ctx
  unfolding handle_command ensure_control_established ensure_target_active ensure_command_supported
  handle_command_authorized c now ctx identity r a =
      let x =
        (prepare_client_command_iff c identity now (prepared c identity now)).1 (a.allowed, refl) in
      ground (arith, a.controlled, a.authenticated, a.bound, a.live.0, a.live.1, a.supported, x)

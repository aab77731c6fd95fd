-- ===== src/Registry/Lapse.antt =====
-- Which leases `expire_leases` of src/registry.rs ends.
use rust_supervisor_relay.Base.{
  ℕ, ◌≤◌, ◌≡◌, refl, ◌∙◌, ◌⊎◌, inl, inr, true, false, HashMap, [], ◌∷◌, suc, subst, sym, Option,
  none, some, String, length, keep, arith, lookup, Option-cases, Bool-cases,
}
use mathlib.Core.Option
use rust_supervisor_relay.Time.{OffsetDateTime}
use rust_supervisor_relay.Registry.{
  RegistrationState, ConnectionState, active, TargetProcessRegistration, TargetProcessConnection,
  TargetProcessRegistry,
}
use rust_supervisor_relay.Registry.Lease.{is_due, expire_leases}
use rust_supervisor_relay.Registry.Invariant.{IsValid}
use rust_supervisor_relay.Registry.Expiry.{expire_leases_lem}

-- There is a registration, it is active, and its lease ends now or ended before.
abbrev pub HasRunOut : OffsetDateTime → Option TargetProcessRegistration → Type 0
HasRunOut now none = ⊥
HasRunOut now (some r) = (r.registration_state ≡ active) × (r.expires_at ≤ now)

-- How many of the registrations have run out.
pub data Tally (now : OffsetDateTime) : HashMap TargetProcessRegistration → ℕ → Type 0 where
  no_more : Tally now [] 0
  ended :
      (k : String) (r : TargetProcessRegistration) (m : HashMap TargetProcessRegistration) (n : ℕ)
      → HasRunOut now (some r)
      → Tally now m n
      → Tally now ((k, r) ∷ m) (suc n)
  passed :
      (k : String) (r : TargetProcessRegistration) (m : HashMap TargetProcessRegistration) (n : ℕ)
      → (¬ HasRunOut now (some r))
      → Tally now m n
      → Tally now ((k, r) ∷ m) n

module _ (now : OffsetDateTime) where
  due-HasRunOut : (r : TargetProcessRegistration) → is_due now r ≡ true → HasRunOut now (some r)
  due-HasRunOut r h = (ground arith, ground arith)

  due-lasts : (r : TargetProcessRegistration) → is_due now r ≡ false → ¬ HasRunOut now (some r)
  due-lasts r h (s, e) = ground arith

  keep-Tally :
      (m : HashMap TargetProcessRegistration)
      → Tally now m (length (keep (λ (_, r). is_due now r) m))
  keep-Tally [] = no_more
  keep-Tally ((k, r) ∷ m) = elim (Bool-cases (is_due now r)) [
    | inl e ↦ rw e (ended k r m _ (due-HasRunOut r e) (keep-Tally m))
    | inr e ↦ rw e (passed k r m _ (due-lasts r e) (keep-Tally m))
  ]

  -- In a valid registry, for any target: where it is active and its lease ends now or ended before,
  -- `expire_leases` marks its registration and its connection as expired, the connection at that
  -- time, and changes nothing else of them; otherwise both stay as they are. It returns how many
  -- registrations are marked.
  pub expire_leases_cases :
      (g : TargetProcessRegistry) (k : String)
      → IsValid g
      → let (count, g') = expire_leases now g in
        let found = lookup k g.registrations in
        ((HasRunOut now found
            × (lookup k g'.registrations
                ≡ Option.map {A = TargetProcessRegistration}
                    (λ r. record r { registration_state = RegistrationState.expired })
                    found)
            × (lookup k g'.connections
                ≡ Option.map {A = TargetProcessConnection}
                    (λ c. record c { state = ConnectionState.expired; updated_at = now })
                    (lookup k g.connections)))
          ⊎ ((¬ HasRunOut now found)
              × (lookup k g'.registrations ≡ found)
              × (lookup k g'.connections ≡ lookup k g.connections)))
        × Tally now g.registrations count
  expire_leases_cases g k v =
      let (registered, connected, counted) = expire_leases_lem now g k v in
      (
        elim (Option-cases (lookup k g.registrations)) [
          | inl n ↦ inr (rw n (λ h. h), registered ∙ rw n refl, connected ∙ rw n refl)
          | inr (r, n) ↦ elim (Bool-cases (is_due now r)) [
            | inl e ↦
                inl (
                  rw n (due-HasRunOut r e),
                  registered ∙ rw (n, e) refl,
                  connected ∙ rw (n, e) refl,
                )
            | inr e ↦
                inr (rw n (due-lasts r e), registered ∙ rw (n, e) refl, connected ∙ rw (n, e) refl)
          ]
        ],
        subst (Tally now g.registrations) (sym counted) (keep-Tally g.registrations),
      )

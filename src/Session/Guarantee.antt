-- ===== src/Session/Guarantee.antt =====
-- What a session's calls guarantee to the other tasks that share the registry, and to its operator:
-- the predicate, and how the writes of a session keep it.
use rust_supervisor_relay.Base.{
  ℕ, ◌≡◌, refl, inl, inr, some, String, List, [], ◌∷◌, All, All-append, All-map, Bool-cases, any,
  ◌==◌, ◌∙◌, lookup,
}
use rust_supervisor_relay.Error.{RelayError}
use rust_supervisor_relay.Time.{OffsetDateTime, Clock}
use rust_supervisor_relay.Paths.{FileSystem}
use rust_supervisor_relay.Auth.{RemoteIdentity}
use rust_supervisor_relay.Command.{PreparedCommand}
use rust_supervisor_relay.Registry.{TargetProcessRegistration, TargetProcessRegistry}
use rust_supervisor_relay.Registry.Link.{mark_unavailable}
use rust_supervisor_relay.Registry.Reach.{Step, fails, Reach, here, next, Reach_trans}
use rust_supervisor_relay.Registry.Ownership.{Step-StaysOwned, Reach-StaysOwned}
use rust_supervisor_relay.Audit.{AuditResult, record_event}
use rust_supervisor_relay.Session.{DashboardSession, contains, bind}
use rust_supervisor_relay.Session.Context.{Context}
use rust_supervisor_relay.Session.Bind.{give_up}

-- The target has a registration, whatever its state.
abbrev pub IsKnown : TargetProcessRegistry → String → Type 0
IsKnown g k = (r : TargetProcessRegistration) × (lookup k g.registrations ≡ some r)

module _ (clock : Clock) (fs : FileSystem) where
  pub Step-IsKnown :
      {g h : TargetProcessRegistry} → Step clock fs g h → (k : String) → IsKnown g k → IsKnown h k
  Step-IsKnown s k (r, e) = let (t, q, o, a) = Step-StaysOwned clock fs s k r e in (t, q)

  Reach-IsKnown :
      {g h : TargetProcessRegistry} → Reach clock fs g h → (k : String) → IsKnown g k → IsKnown h k
  Reach-IsKnown p k (r, e) = let (t, q, o, a) = Reach-StaysOwned clock fs p k r e in (t, q)

  -- What holds while a session is served: the registry has a history of the registry's own calls
  -- behind it, the session is the operator's, each entry of its trail names the operator, and every
  -- bound target is registered.
  pub record IsServing {Value World : Type 0} (g : TargetProcessRegistry)
      (identity : RemoteIdentity) (c : Context Value World) : Type 0 where
    pub history : Reach clock fs g c.registry
    pub named : c.session.remote_identity ≡ some identity
    pub trail : All (λ e. e.identity_principal ≡ identity.principal) c.audit.events
    pub known : All (IsKnown c.registry) c.session.bound_targets

pub bind-All :
    (P : String → Type 0) (k : String) (targets : List String)
    → P k
    → All P targets
    → All P (bind targets k)
unfolding bind contains
bind-All P k targets p h = elim (Bool-cases (any (λ b. b == k) targets)) [
  | inl e ↦ rw (e, bind) h
  | inr e ↦ rw (e, bind) (All-append P targets (k ∷ []) h (p, tt))
]

module _ {Value World : Type 0} (clock : Clock) (fs : FileSystem) (g : TargetProcessRegistry)
    (identity : RemoteIdentity) where
  pub IsServing-world :
      (c : Context Value World) (w : World)
      → IsServing clock fs g identity c
      → IsServing clock fs g identity (record c { world = w })
  IsServing-world c w v = record {
    history = v.history;
    named = v.named;
    trail = v.trail;
    known = v.known;
  }

  pub IsServing-Reach :
      (c : Context Value World) (h : TargetProcessRegistry) (w : World)
      → Reach clock fs c.registry h
      → IsServing clock fs g identity c
      → IsServing clock fs g identity (record c { registry = h; world = w })
  IsServing-Reach c h w p v = record {
    history = Reach_trans clock fs v.history p;
    named = v.named;
    trail = v.trail;
    known = All-map (Reach-IsKnown clock fs p) c.session.bound_targets v.known;
  }

  pub IsServing-Step :
      (c : Context Value World) (h : TargetProcessRegistry)
      → Step clock fs c.registry h
      → IsServing clock fs g identity c
      → IsServing clock fs g identity (record c { registry = h })
  IsServing-Step c h s v = IsServing-Reach c h c.world (next here s) v

  -- A write to the session that keeps its identity and its bound targets.
  pub IsServing-session :
      (c : Context Value World) (s : DashboardSession Value)
      → s.remote_identity ≡ c.session.remote_identity
      → s.bound_targets ≡ c.session.bound_targets
      → IsServing clock fs g identity c
      → IsServing clock fs g identity (record c { session = s })
  IsServing-session c s i b v = record {
    history = v.history;
    named = i ∙ v.named;
    trail = v.trail;
    known = rw b v.known;
  }

  pub IsServing-give_up :
      (k : String) (now : OffsetDateTime) (e : RelayError) (c : Context Value World)
      → IsServing clock fs g identity c
      → IsServing clock fs g identity (give_up k now e c)
  IsServing-give_up k now e c v =
      IsServing-Step c (mark_unavailable k e.message now c.registry) (fails k e.message now) v

  module _ (new_v4 : ℕ → String) (p : PreparedCommand) (result : AuditResult) (detail : String)
      (now : OffsetDateTime) where
    pub IsServing-record_event :
        (c : Context Value World)
        → IsServing clock fs g identity c
        → IsServing clock fs g identity
            (record c { audit = record_event new_v4 identity p result detail now c.audit })
    unfolding record_event
    IsServing-record_event c v = record {
      history = v.history;
      named = v.named;
      trail = All-append _ c.audit.events _ v.trail (refl, tt);
      known = v.known;
    }

-- ===== src/Main/AutoBind.antt =====
-- The targets that `auto_bind_active_targets` of src/main.rs binds.
use rust_supervisor_relay.Base.{
  ◌≡◌, refl, ap, inl, inr, true, String, List, [], ◌∷◌, map, any, In, any→In, In→any,
  In-append_left, ◌==◌, arith, subst, eq_iff, Bool-cases,
}
use rust_supervisor_relay.Error.{ok}
use rust_supervisor_relay.Time.{OffsetDateTime, Clock}
use rust_supervisor_relay.Paths.{FileSystem}
use rust_supervisor_relay.Registry.{
  TargetProcessRegistry, VisibleTarget, active_targets, ensure_target_active,
}
use rust_supervisor_relay.Registry.Reach.{Reach-keeps}
use rust_supervisor_relay.Registry.Views.{active_targets_iff}
use rust_supervisor_relay.Ipc.{TargetIpcPort}
use rust_supervisor_relay.Session.{contains, bind}
use rust_supervisor_relay.Session.Context.{Context}
use rust_supervisor_relay.Session.Bind.{bind_target}
use rust_supervisor_relay.Session.Binding.{contains-bind}
use rust_supervisor_relay.Session.Settled.{IsAnswering, IsBindable, IsBound, bind_target-IsBound}
use rust_supervisor_relay.Main.WebSocket.{Runtime}
use rust_supervisor_relay.Main.Dashboard.{
  lock, now_utc, auto_bind, auto_bind_all, auto_bind_active_targets,
}
use rust_supervisor_relay.Main.Served.{IsFair}

-- Time stands still at `now`, and no other task ends the activity of a target.
pub record IsCalm {Value World : Type 0} (runtime : Runtime Value World) (now : OffsetDateTime)
    : Type 0 where
  pub still : (w : World) → (runtime.now_utc w).0 ≡ now
  pub lasting :
      (g : TargetProcessRegistry) (w : World) (k : String)
      → ensure_target_active k now g ≡ ok tt
      → ensure_target_active k now (runtime.others g w).0 ≡ ok tt

-- A target that is bound stays bound when another is.
contains-bind_other :
    (targets : List String) (j k : String)
    → contains targets k ≡ true
    → contains (bind targets j) k ≡ true
unfolding contains bind
contains-bind_other targets j k h = elim (Bool-cases (any (λ b. b == j) targets)) [
  | inl e ↦ rw (bind, e) h
  | inr e ↦
      let (a, m, q) = any→In (λ b. b == k) targets h in
      rw (bind, e) (In→any (λ b. b == k) a _ (In-append_left a targets _ m) q)
]

-- Whether a target is active depends on the registrations alone.
active_kept :
    (k : String) (now : OffsetDateTime) (g h : TargetProcessRegistry)
    → h.registrations ≡ g.registrations
    → ensure_target_active k now g ≡ ok tt
    → ensure_target_active k now h ≡ ok tt
unfolding ensure_target_active
active_kept k now g h e a = ground arith

mapped : {A : Type 0} (f : A → String) (a : A) (xs : List A) → In a xs → In (f a) (map f xs)
mapped f a [] m = absurd m
mapped f a (x ∷ xs) (inl e) = inl (ap f e)
mapped f a (x ∷ xs) (inr m) = inr (mapped f a xs m)

In-map :
    {A : Type 0} (f : A → String) (k : String) (xs : List A)
    → any (λ a. f a == k) xs ≡ true
    → In k (map f xs)
In-map f k xs h =
    let (a, m, q) = any→In (λ a. f a == k) xs h in
    subst (λ x. In x (map f xs)) ((eq_iff (f a) k).0 q) (mapped f a xs m)

map-In :
    {A : Type 0} (f : A → String) (k : String) (xs : List A)
    → In k (map f xs)
    → any (λ a. f a == k) xs ≡ true
map-In f k [] m = absurd m
map-In f k (x ∷ xs) (inl e) = let q = (eq_iff (f x) k).1 e in ground arith
map-In f k (x ∷ xs) (inr m) = let q = map-In f k xs m in ground arith

-- What the loop keeps of a context: targets can be bound, and those that are active or bound stay so.
record IsAhead {Value World : Type 0} (now : OffsetDateTime) (c c' : Context Value World)
    : Type 0 where
  bindable : IsBindable c'
  activity :
      (k : String)
      → ensure_target_active k now c.registry ≡ ok tt
      → ensure_target_active k now c'.registry ≡ ok tt
  bindings :
      (k : String)
      → contains c.session.bound_targets k ≡ true
      → contains c'.session.bound_targets k ≡ true

module _ {Value World : Type 0} (clock : Clock) (fs : FileSystem) (runtime : Runtime Value World)
    (fair : IsFair clock fs runtime) (now : OffsetDateTime) (calm : IsCalm runtime now)
    (port : TargetIpcPort Value World) (answers : IsAnswering port) where
  -- The context in which a round binds: the lock is taken and the time is read.
  abbrev locked : Context Value World → Context Value World
  locked c = (now_utc runtime (lock runtime c).1).1

  locked-IsAhead : (c : Context Value World) → IsBindable c → IsAhead now c (locked c)
  locked-IsAhead c b = record {
    bindable = record {
      valid = Reach-keeps clock fs (fair.calls c.registry c.world) b.valid;
      controlled = b.controlled;
    };
    activity = λ k a. calm.lasting c.registry c.world k a;
    bindings = λ k h. h;
  }

  bound-IsAhead :
      (c c' : Context Value World) (k : String)
      → IsBound k c c'
      → IsAhead now c c' × (contains c'.session.bound_targets k ≡ true)
  bound-IsAhead c c' k b = (
    record {
      bindable = b.bindable;
      activity = λ j a. active_kept j now c.registry c'.registry b.kept a;
      bindings = λ j h. rw b.targets (contains-bind_other c.session.bound_targets k j h);
    },
    rw b.targets (contains-bind c.session.bound_targets k),
  )

  auto_bind_lem :
      (k : String) (c c' : Context Value World)
      → bind_target port k now (locked c) ≡ (ok tt, c')
      → auto_bind runtime port k c ≡ (ok tt, c')
  unfolding auto_bind
  auto_bind_lem k c c' h = let s = calm.still (lock runtime c).1.world in ground (arith, s, h)

  auto_bind-IsAhead :
      (k : String) (c : Context Value World)
      → IsBindable c
      → ensure_target_active k now c.registry ≡ ok tt
      → let (result, c') = auto_bind runtime port k c in
        (result ≡ ok tt) × IsAhead now c c' × (contains c'.session.bound_targets k ≡ true)
  auto_bind-IsAhead k c b a =
      let l = locked-IsAhead c b in
      let (done, step) =
        bind_target-IsBound port answers k now (locked c) l.bindable (l.activity k a) in
      let (s, t) = bound-IsAhead (locked c) (bind_target port k now (locked c)).1 k step in
      rw (auto_bind_lem k c (bind_target port k now (locked c)).1 (ground arith)) (
        refl,
        record {
          bindable = s.bindable;
          activity = λ j x. s.activity j (l.activity j x);
          bindings = λ j h. s.bindings j (l.bindings j h);
        },
        t,
      )

  auto_bind_all_goes_on :
      (j : String) (ks : List String) (c : Context Value World)
      → (auto_bind runtime port j c).0 ≡ ok tt
      → auto_bind_all runtime port (j ∷ ks) c
        ≡ auto_bind_all runtime port ks (auto_bind runtime port j c).1
  unfolding auto_bind_all
  auto_bind_all_goes_on j ks c h = ground arith

  auto_bind_all-IsAhead :
      (ks : List String) (c : Context Value World)
      → IsBindable c
      → ((k : String) → In k ks → ensure_target_active k now c.registry ≡ ok tt)
      → let (result, c') = auto_bind_all runtime port ks c in
        (result ≡ ok tt)
        × IsAhead now c c'
        × ((k : String) → In k ks → contains c'.session.bound_targets k ≡ true)
  unfolding auto_bind_all
  auto_bind_all-IsAhead [] c b a =
      (refl, record { bindable = b; activity = λ k x. x; bindings = λ k h. h }, λ k m. absurd m)
  auto_bind_all-IsAhead (j ∷ ks) c b a =
      let (r, s, t) = auto_bind-IsAhead j c b (a j (inl refl)) in
      let c' = (auto_bind runtime port j c).1 in
      let (r', s', t') =
        auto_bind_all-IsAhead ks c' s.bindable (λ k m. s.activity k (a k (inr m))) in
      rw (auto_bind_all_goes_on j ks c r) (
        r',
        record {
          bindable = s'.bindable;
          activity = λ k x. s'.activity k (s.activity k x);
          bindings = λ k h. s'.bindings k (s.bindings k h);
        },
        λ k m. elim m [
          | inl e ↦ s'.bindings k (subst (λ x. contains c'.session.bound_targets x ≡ true) e t)
          | inr m ↦ t' k m
        ],
      )

  -- Where time stands still, the other tasks reach the registry through its own calls and end no
  -- target's activity, and every target answers: from a valid registry and for a session in control
  -- the automatic binding succeeds, and every target that was active is then bound.
  pub auto_bind_active_targets-contains :
      (c : Context Value World)
      → IsBindable c
      → let (result, c') = auto_bind_active_targets runtime port c in
        (result ≡ ok tt)
        × ((k : String)
            → ensure_target_active k now c.registry ≡ ok tt
            → contains c'.session.bound_targets k ≡ true)
  unfolding auto_bind_active_targets
  auto_bind_active_targets-contains c b =
      let l = locked-IsAhead c b in
      let name = λ (target : VisibleTarget). target.target_id in
      let shown = active_targets now (locked c).registry in
      let iff = λ (k : String). active_targets_iff k now (locked c).registry l.bindable.valid in
      let (r, _, t) =
        auto_bind_all-IsAhead (map name shown) (locked c) l.bindable
          (λ k m. (iff k).0 (map-In name k shown m)) in
      rw (calm.still (lock runtime c).1.world)
        (r, λ k a. t k (In-map name k shown ((iff k).1 (l.activity k a))))

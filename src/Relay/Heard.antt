-- ===== src/Relay/Heard.antt =====
-- What a session hears through src/relay.rs while many messages of many targets come.
use rust_supervisor_relay.Base.{
  ℕ, ◌+◌, ◌-◌, ◌<◌, ◌^◌, HashMap, insert, lookup-insert, leb, if◌then◌else◌, All, ◌≡◌, refl, ◌∙◌,
  sym, ap, true, false, some, String, List, [], ◌∷◌, ◌++◌, keep, In, any→In, In→any, subst, lookup,
  ltb, arith, eq_iff, eq_refl, ◌==◌, Bool-cases, Option-cases, inl, inr,
}
use mathlib.Core.List.{append-nil, append_assoc}
use rust_supervisor_relay.Error.{ok}
use rust_supervisor_relay.Registry.{TargetProcessRegistry}
use rust_supervisor_relay.Session.{
  ServerMessage, EventRecord, event, dropped_count, error, DashboardSession, contains, push,
}
use rust_supervisor_relay.Session.Stream.{
  accept_event, accept_log, accept_state_delta, accept_dropped_count, accept_connection_state,
  not_monotonic, forward,
}
use rust_supervisor_relay.Session.Sequence.{gap_exact}
use rust_supervisor_relay.Relay.{
  fan_out_event, fan_out_log, fan_out_state_delta, fan_out_dropped_count, reconnect_timeout,
}
use rust_supervisor_relay.Relay.Delivery.{
  Delivery, event_of, log_of, delta_of, count_of, lost, target_of, deliver, Hears, nothing,
  first_event, next_event, Fits, event_behind_gap, stale_event, its_log, its_delta, its_count,
  its_loss, is_kept, IsHeard, deliver_all, HearsAll, end, then_hears, AreHeard,
}

contains-In : (bound : List String) (k : String) → contains bound k ≡ true → In k bound
unfolding contains
contains-In bound k h =
    let (b, m, e) = any→In (λ b. b == k) bound h in subst (λ x. In x bound) ((eq_iff b k).0 e) m

not_contains-In : (bound : List String) (k : String) → contains bound k ≡ false → ¬ In k bound
unfolding contains
not_contains-In bound k h m = let e = In→any (λ b. b == k) k bound m (eq_refl k) in ground arith

same_sequences :
    (k : String) (m : HashMap ℕ) (j : String)
    → lookup j m ≡ (if k == j then lookup k m else lookup j m)
same_sequences k m j = elim (Bool-cases (k == j)) [
  | inl e ↦ rw (e, (eq_iff k j).0 e) refl
  | inr e ↦ rw e refl
]

module _ {Value : Type 0} where
  keep-append_kept :
      (ms ns : List (ServerMessage Value))
      → keep is_kept (ms ++ ns) ≡ keep is_kept ms ++ keep is_kept ns
  keep-append_kept [] ns = refl
  keep-append_kept (m ∷ ms) ns = elim (Bool-cases (is_kept m)) [
    | inl e ↦ rw e (ap (λ l. m ∷ l) (keep-append_kept ms ns))
    | inr e ↦ rw e (keep-append_kept ms ns)
  ]

  nothing-IsHeard :
      (d : Delivery Value) (s : DashboardSession Value) (g : TargetProcessRegistry)
      → contains s.bound_targets (target_of d) ≡ false
      → IsHeard d s (ok [], (s, g))
  nothing-IsHeard d s g b = record {
    messages = [];
    result = refl;
    after = lookup (target_of d) s.last_sequences;
    hears = nothing d (not_contains-In s.bound_targets (target_of d) b);
    remembered = same_sequences (target_of d) s.last_sequences;
    queued = sym (append-nil s.outbox);
    bound = refl;
  }

  -- A delivery that is one message.
  forward-IsHeard :
      (d : Delivery Value) (message : ServerMessage Value) (s : DashboardSession Value)
      → (g : TargetProcessRegistry) → is_kept message ≡ true
      → (let last = lookup (target_of d) s.last_sequences in
          In (target_of d) s.bound_targets → Hears s.bound_targets last d (message ∷ []) last)
      → let (result, s') = forward (target_of d) message s in IsHeard d s (result, (s', g))
  unfolding push
  forward-IsHeard d message s g kept hears =
      elim (Bool-cases (contains s.bound_targets (target_of d))) [
        | inl b ↦ rw b (record {
          messages = message ∷ [];
          result = refl;
          after = lookup (target_of d) s.last_sequences;
          hears = hears (contains-In s.bound_targets (target_of d) b);
          remembered = same_sequences (target_of d) s.last_sequences;
          queued = rw kept refl;
          bound = refl;
        })
        | inr b ↦ rw b (nothing-IsHeard d s g b)
      ]

  -- An event that is delivered, behind what precedes it.
  delivered-IsHeard :
      (e : EventRecord) (s : DashboardSession Value) (g : TargetProcessRegistry)
      → (before : List (ServerMessage Value)) → keep is_kept before ≡ before
      → Hears s.bound_targets
          (lookup e.target_id s.last_sequences)
          (event_of e)
          (before ++ (event e.target_id e ∷ []))
          (some e.sequence)
      → let ms = before ++ (event e.target_id e ∷ []) in
        IsHeard (event_of e) s (
          ok ms,
          (
            record s {
              last_sequences = insert e.target_id e.sequence s.last_sequences;
              outbox = s.outbox ++ ms;
            },
            g,
          ),
        )
  delivered-IsHeard e s g before kept hears = record {
    messages = before ++ (event e.target_id e ∷ []);
    result = refl;
    after = some e.sequence;
    hears = hears;
    remembered = λ j. lookup-insert e.target_id j e.sequence s.last_sequences;
    queued =
        ap (λ l. s.outbox ++ l)
          (sym (
            keep-append_kept before (event e.target_id e ∷ [])
            ∙ ap (λ l. l ++ (event e.target_id e ∷ [])) kept));
    bound = refl;
  }

  event-IsHeard :
      (e : EventRecord) (s : DashboardSession Value) (g : TargetProcessRegistry)
      → e.sequence < 2 ^ 64
      → let (result, s') = accept_event e s in IsHeard (event_of e) s (result, (s', g))
  unfolding accept_event
  event-IsHeard e s g fits = elim (Bool-cases (contains s.bound_targets e.target_id)) [
    | inr b ↦ rw b (nothing-IsHeard (event_of e) s g b)
    | inl b ↦
        let m = contains-In s.bound_targets e.target_id b in
        elim (Option-cases (lookup e.target_id s.last_sequences)) [
          | inl n ↦ rw (b, n) (delivered-IsHeard e s g [] refl (first_event e m n))
          | inr (p, n) ↦ elim (Bool-cases (leb e.sequence p)) [
            | inl q ↦
                rw (b, n, q)
                  (record {
                    messages = error (not_monotonic e.target_id) ∷ [];
                    result = refl;
                    after = lookup e.target_id s.last_sequences;
                    hears = stale_event e p (not_monotonic e.target_id) m n (ground arith) refl;
                    remembered = same_sequences e.target_id s.last_sequences;
                    queued = sym (append-nil s.outbox);
                    bound = refl;
                  })
            | inr q ↦
                rw (b, n, q, gap_exact Value e.target_id p e.sequence fits (ground arith))
                  (elim (Bool-cases (ltb (p + 1) e.sequence)) [
                    | inl l ↦ rw l (
                        delivered-IsHeard e s g
                          (dropped_count e.target_id (e.sequence - p - 1) ∷ []) refl
                          (event_behind_gap e p (e.sequence - p - 1) m n (ground arith)
                            (ground arith)))
                    | inr l ↦
                        rw l (delivered-IsHeard e s g [] refl (next_event e p m n (ground arith)))
                  ])
          ]
        ]
  ]

  deliver-IsHeard :
      (d : Delivery Value) (s : DashboardSession Value) (g : TargetProcessRegistry)
      → Fits d
      → IsHeard d s (deliver d (s, g))
  unfolding deliver fan_out_event fan_out_log fan_out_state_delta fan_out_dropped_count
      reconnect_timeout accept_log accept_state_delta accept_dropped_count accept_connection_state
  deliver-IsHeard (event_of e) s g fits = event-IsHeard e s g fits
  deliver-IsHeard (log_of l) s g fits = forward-IsHeard (log_of l) _ s g refl (its_log l)
  deliver-IsHeard (delta_of k delta) s g fits =
      forward-IsHeard (delta_of k delta) _ s g refl (its_delta k delta)
  deliver-IsHeard (count_of k count) s g fits =
      forward-IsHeard (count_of k count) _ s g refl (its_count k count)
  deliver-IsHeard (lost k now) s g fits = forward-IsHeard (lost k now) _ s _ refl (its_loss k now)

  deliver_all-cons :
      (d : Delivery Value) (ds : List (Delivery Value))
      → (t : DashboardSession Value × TargetProcessRegistry) (ms ns : List (ServerMessage Value))
      → (deliver d t).0 ≡ ok ms
      → (deliver_all ds (deliver d t).1).0 ≡ ok ns
      → deliver_all (d ∷ ds) t ≡ (ok (ms ++ ns), (deliver_all ds (deliver d t).1).1)
  unfolding deliver_all
  deliver_all-cons d ds t ms ns h k = ground arith

  -- However many events, logs, state deltas, dropped counts and reconnect timeouts of whatever
  -- targets come, and in whatever order, the sequences being of 64 bits: each succeeds, and a session
  -- hears of each, in that order, nothing if it is not bound to the target, and otherwise just what
  -- has come: the log, the delta, the count or the loss; or the event, alone if it is the first or
  -- follows the last, and behind the number of those missing if some are; but an error if it does
  -- not come behind the last. The session queues what it hears but for the errors, and stays bound
  -- to the same targets.
  pub deliver_all-AreHeard :
      (ds : List (Delivery Value)) (s : DashboardSession Value) (g : TargetProcessRegistry)
      → All Fits ds
      → AreHeard ds s (deliver_all ds (s, g))
  unfolding deliver_all
  deliver_all-AreHeard [] s g fits = record {
    messages = [];
    result = refl;
    hears = end (λ k. lookup k s.last_sequences);
    queued = sym (append-nil s.outbox);
    bound = refl;
  }
  deliver_all-AreHeard (d ∷ ds) s g (fits, rest) =
      let h = deliver-IsHeard d s g fits in
      let t = (deliver d (s, g)).1 in
      let k = deliver_all-AreHeard ds t.0 t.1 rest in
      subst (AreHeard (d ∷ ds) s)
        (sym (deliver_all-cons d ds (s, g) h.messages k.messages h.result k.result))
        (record {
          messages = h.messages ++ k.messages;
          result = refl;
          hears =
              then_hears (λ j. lookup j s.last_sequences) (λ j. lookup j t.0.last_sequences) h.after
                d ds h.messages k.messages h.hears h.remembered
                (subst (λ bound. HearsAll bound (λ j. lookup j t.0.last_sequences) ds k.messages)
                  h.bound k.hears);
          queued =
              k.queued
              ∙ ap (λ l. l ++ keep is_kept k.messages) h.queued
              ∙ append_assoc s.outbox (keep is_kept h.messages) (keep is_kept k.messages)
              ∙ ap (λ l. s.outbox ++ l) (sym (keep-append_kept h.messages k.messages));
          bound = k.bound ∙ h.bound;
        })

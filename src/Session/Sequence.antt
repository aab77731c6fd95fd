-- ===== src/Session/Sequence.antt =====
-- The order of the events that a session delivers for one target.
use rust_supervisor_relay.Base.{
  ℕ, ◌+◌, ◌-◌, ◌^◌, ◌<◌, ◌≡◌, refl, ◌∙◌, sym, true, false, Option, none, some, String, List, [],
  ◌∷◌, ◌++◌, All, ltb, arith, eq_iff, eq_refl, ◌==◌, if◌then◌else◌, lookup, insert, lookup-insert,
  Bool-cases, inl, inr,
}
use mathlib.Core.List.{append-nil, append_assoc}
use rust_supervisor_relay.Session.{
  EventRecord, ServerMessage, event, dropped_count, DashboardSession, contains,
}
use rust_supervisor_relay.Session.Stream.{add_u64, gap, is_stale, delivered, accept_event}

-- One event behind the position of the target's stream, which a reported gap has moved.
abbrev pub Next : Option ℕ → ℕ → Type 0
Next none sequence = Unit {0}
Next (some position) sequence = sequence ≡ position + 1

abbrev pub skip : Option ℕ → ℕ → Option ℕ
skip none count = none
skip (some position) count = some (position + count)

module _ {Value : Type 0} where
  -- `accept_event` on one event after another.
  pub accept_events : List EventRecord → DashboardSession Value → DashboardSession Value
  accept_events [] s = s
  accept_events (e ∷ es) s = accept_events es (accept_event e s).1

  -- From one position of a target's stream to another: every event of the target has the sequence
  -- behind the one before it, once the reported gaps are counted.
  abbrev pub IsExact : String → Option ℕ → List (ServerMessage Value) → Option ℕ → Type 0
  IsExact t from [] to = from ≡ to
  IsExact t from (event k e ∷ ms) to =
      if k == t
      then Next from e.sequence × IsExact t (some e.sequence) ms to
      else IsExact t from ms to
  IsExact t from (dropped_count k n ∷ ms) to =
      if k == t then IsExact t (skip from n) ms to else IsExact t from ms to
  IsExact t from (_ ∷ ms) to = IsExact t from ms to

module _ (Value : Type 0) where
  pub gap_exact :
      (k : String) (previous sequence : ℕ)
      → sequence < 2 ^ 64
      → previous < sequence
      → gap {Value = Value} k (some previous) sequence ≡ (
          if ltb (previous + 1) sequence
          then dropped_count k (sequence - previous - 1) ∷ []
          else [])
  gap_exact k previous sequence h l = ground arith

  delivered-IsExact :
      (e : EventRecord) (p : Option ℕ)
      → e.sequence < 2 ^ 64
      → is_stale p e.sequence ≡ false
      → IsExact e.target_id p (delivered {Value = Value} e p) (some e.sequence)
  delivered-IsExact e none h q = rw (eq_refl e.target_id) (tt, refl)
  delivered-IsExact e (some previous) h q =
      rw (gap_exact e.target_id previous e.sequence h (ground arith))
        (elim (Bool-cases (ltb (previous + 1) e.sequence)) [
          | inl l ↦ rw (l, eq_refl e.target_id) (ground arith, refl)
          | inr l ↦ rw (l, eq_refl e.target_id) (ground arith, refl)
        ])

  gap-IsExact_other :
      (t k : String) (p from : Option ℕ) (sequence : ℕ) (rest : List (ServerMessage Value))
      → (k == t) ≡ false
      → IsExact t from rest from
      → IsExact t from (gap k p sequence ++ rest) from
  gap-IsExact_other t k none from sequence rest n h = h
  gap-IsExact_other t k (some previous) from sequence rest n h =
      elim (Bool-cases (ltb (add_u64 previous 1) sequence)) [ inl l ↦ rw (l, n) h | inr l ↦ rw l h ]

module _ {Value : Type 0} where
  IsExact-append :
      (t : String) (from mid to : Option ℕ) (ms ns : List (ServerMessage Value))
      → IsExact t from ms mid
      → IsExact t mid ns to
      → IsExact t from (ms ++ ns) to
  IsExact-append t from mid to [] ns h k = rw h k
  IsExact-append t from mid to (event j e ∷ ms) ns h k = elim (Bool-cases (j == t)) [
    | inl q ↦
        let (n, h') = rw q at h in rw q (n, IsExact-append t (some e.sequence) mid to ms ns h' k)
    | inr q ↦ rw q (IsExact-append t from mid to ms ns (rw q at h) k)
  ]
  IsExact-append t from mid to (dropped_count j n ∷ ms) ns h k = elim (Bool-cases (j == t)) [
    | inl q ↦ rw q (IsExact-append t (skip from n) mid to ms ns (rw q at h) k)
    | inr q ↦ rw q (IsExact-append t from mid to ms ns (rw q at h) k)
  ]
  IsExact-append t from mid to (_ ∷ ms) ns h k = IsExact-append t from mid to ms ns h k

  accept_event_unbound :
      (e : EventRecord) (s : DashboardSession Value)
      → contains s.bound_targets e.target_id ≡ false
      → (accept_event e s).1 ≡ s
  unfolding accept_event
  accept_event_unbound e s b = rw b refl

  accept_event_stale :
      (e : EventRecord) (s : DashboardSession Value)
      → is_stale (lookup e.target_id s.last_sequences) e.sequence ≡ true
      → (accept_event e s).1 ≡ s
  unfolding accept_event
  accept_event_stale e s q = ground arith

  accept_event-delivered :
      (e : EventRecord) (s : DashboardSession Value)
      → contains s.bound_targets e.target_id ≡ true
      → is_stale (lookup e.target_id s.last_sequences) e.sequence ≡ false
      → (accept_event e s).1 ≡ record s {
        last_sequences = insert e.target_id e.sequence s.last_sequences;
        outbox = s.outbox ++ delivered e (lookup e.target_id s.last_sequences);
      }
  unfolding accept_event
  accept_event-delivered e s b q = rw (b, q) refl

  -- What one event adds to the outbox.
  accept_event-IsExact :
      (t : String) (e : EventRecord) (s : DashboardSession Value)
      → e.sequence < 2 ^ 64
      → let s' = (accept_event e s).1 in
        (ms : List (ServerMessage Value)) × (s'.outbox ≡ s.outbox ++ ms)
        × IsExact t (lookup t s.last_sequences) ms (lookup t s'.last_sequences)
  accept_event-IsExact t e s h = elim (Bool-cases (contains s.bound_targets e.target_id)) [
    | inr b ↦ rw (accept_event_unbound e s b) ([], sym (append-nil s.outbox), refl)
    | inl b ↦ elim (Bool-cases (is_stale (lookup e.target_id s.last_sequences) e.sequence)) [
      | inl q ↦ rw (accept_event_stale e s q) ([], sym (append-nil s.outbox), refl)
      | inr q ↦ rw (accept_event-delivered e s b q) (
        delivered e (lookup e.target_id s.last_sequences),
        refl,
        rw (lookup-insert e.target_id t e.sequence s.last_sequences)
            (elim (Bool-cases (e.target_id == t)) [
              | inl k ↦ rw (k, ← ((eq_iff e.target_id t).0 k)) (delivered-IsExact Value e _ h q)
              | inr k ↦ rw k (
                  gap-IsExact_other Value t e.target_id _ _ e.sequence (event e.target_id e ∷ []) k
                    (rw k refl))
            ]),
      )
    ]
  ]

  -- Over any run of events with sequences of 64 bits, a session adds to its outbox a list of
  -- messages in which every event of a target has the sequence behind the one before it, once the
  -- gaps reported in between are counted; it starts and ends at the sequences that the session
  -- remembers.
  pub accept_events-IsExact :
      (t : String) (es : List EventRecord) (s : DashboardSession Value)
      → All (λ e. e.sequence < 2 ^ 64) es
      → let s' = accept_events es s in
        (ms : List (ServerMessage Value)) × (s'.outbox ≡ s.outbox ++ ms)
        × IsExact t (lookup t s.last_sequences) ms (lookup t s'.last_sequences)
  unfolding accept_events
  accept_events-IsExact t [] s h = ([], sym (append-nil s.outbox), refl)
  accept_events-IsExact t (e ∷ es) s h =
      let (ms, o, x) = accept_event-IsExact t e s h.0 in
      let (ns, p, y) = accept_events-IsExact t es (accept_event e s).1 h.1 in
      (ms ++ ns, p ∙ (rw o (append_assoc s.outbox ms ns)), IsExact-append t _ _ _ ms ns x y)

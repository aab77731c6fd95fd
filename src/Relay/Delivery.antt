-- ===== src/Relay/Delivery.antt =====
-- Deliveries of whatever targets to a session through src/relay.rs, and what is to be heard of them.
use rust_supervisor_relay.Base.{
  Option, ◌+◌, ◌<◌, ◌≤◌, ◌^◌, none, some, lookup, if◌then◌else◌, ◌==◌, ℕ, ◌≡◌, Bool, true, false,
  String, List, [], ◌∷◌, ◌++◌, keep, In,
}
use rust_supervisor_relay.Error.{RelayError, RelayResult, ok}
use rust_supervisor_relay.Effect.{pure, ◌>>=◌}
use rust_supervisor_relay.Time.{OffsetDateTime}
use rust_supervisor_relay.Registry.{TargetProcessRegistry, unavailable}
use rust_supervisor_relay.Session.{
  ServerMessage, EventRecord, LogRecord, event, log, state_delta, dropped_count, error,
  DashboardSession,
}
use rust_supervisor_relay.Relay.{
  fan_out_event, fan_out_log, fan_out_state_delta, fan_out_dropped_count, reconnect_timeout,
}

-- What comes from a target, or the end of the time for its reconnection.
pub data Delivery (Value : Type 0) : Type 0 where
  event_of : EventRecord → Delivery Value
  log_of : LogRecord → Delivery Value
  delta_of : String → Value → Delivery Value
  count_of : String → ℕ → Delivery Value
  lost : String → OffsetDateTime → Delivery Value

module _ {Value : Type 0} where
  abbrev pub target_of : Delivery Value → String
  target_of (event_of e) = e.target_id
  target_of (log_of l) = l.target_id
  target_of (delta_of k delta) = k
  target_of (count_of k count) = k
  target_of (lost k now) = k

  -- The call of the relay's hub for a delivery.
  unfoldable pub deliver :
      Delivery Value
      → DashboardSession Value × TargetProcessRegistry
      → RelayResult (List (ServerMessage Value)) × (DashboardSession Value × TargetProcessRegistry)
  deliver (event_of e) (s, g) =
      let (result, s') =
        fan_out_event e.target_id e.sequence e.event_type e.severity e.occurred_at s in
      (result, (s', g))
  deliver (log_of l) (s, g) =
      let (result, s') = fan_out_log l.target_id l.sequence l.severity l.message l.occurred_at s in
      (result, (s', g))
  deliver (delta_of k delta) (s, g) =
      let (result, s') = fan_out_state_delta k delta s in (result, (s', g))
  deliver (count_of k count) (s, g) =
      let (result, s') = fan_out_dropped_count k count s in (result, (s', g))
  deliver (lost k now) (s, g) = reconnect_timeout k now (s, g)

  -- What a session hears of a delivery, and the sequence that it has for the target before and
  -- behind it. It hears nothing of a target that it is not bound to. A first event, and one with the
  -- sequence behind the last one, comes alone; one with a higher sequence behind the number of those
  -- missing; and one whose sequence is not a new one as an error. A log, a delta or a count is
  -- heard as it is, and a loss as the state of the connection.
  pub data Hears (bound : List String) (last : Option ℕ)
      : Delivery Value → List (ServerMessage Value) → Option ℕ → Type 0 where
    nothing : (d : Delivery Value) → (¬ In (target_of d) bound) → Hears bound last d [] last
    first_event :
        (e : EventRecord)
        → In e.target_id bound
        → last ≡ none
        → Hears bound last (event_of e) (event e.target_id e ∷ []) (some e.sequence)
    next_event :
        (e : EventRecord) (previous : ℕ)
        → In e.target_id bound
        → last ≡ some previous
        → e.sequence ≡ previous + 1
        → Hears bound last (event_of e) (event e.target_id e ∷ []) (some e.sequence)
    event_behind_gap :
        (e : EventRecord) (previous missing : ℕ)
        → In e.target_id bound
        → last ≡ some previous
        → 0 < missing
        → e.sequence ≡ previous + missing + 1
        → Hears bound last
            (event_of e)
            (dropped_count e.target_id missing ∷ event e.target_id e ∷ [])
            (some e.sequence)
    stale_event :
        (e : EventRecord) (previous : ℕ) (failed : RelayError)
        → In e.target_id bound
        → last ≡ some previous
        → e.sequence ≤ previous
        → failed.code ≡ "sequence_not_monotonic"
        → Hears bound last (event_of e) (error failed ∷ []) last
    its_log :
        (l : LogRecord)
        → In l.target_id bound
        → Hears bound last (log_of l) (log l.target_id l ∷ []) last
    its_delta :
        (k : String) (delta : Value)
        → In k bound
        → Hears bound last (delta_of k delta) (state_delta k delta ∷ []) last
    its_count :
        (k : String) (count : ℕ)
        → In k bound
        → Hears bound last (count_of k count) (dropped_count k count ∷ []) last
    its_loss :
        (k : String) (now : OffsetDateTime)
        → In k bound
        → Hears bound last (lost k now) (ServerMessage.connection_state k unavailable ∷ []) last

  abbrev pub is_kept : ServerMessage Value → Bool
  is_kept (error e) = false
  is_kept _ = true

  -- The delivery returns messages that the session hears, and queues those that are no errors.
  pub record IsHeard (d : Delivery Value) (s : DashboardSession Value)
      (out : RelayResult (List (ServerMessage Value))
        × (DashboardSession Value × TargetProcessRegistry))
      : Type 0 where
    pub messages : List (ServerMessage Value)
    pub result : out.0 ≡ ok messages
    pub after : Option ℕ
    pub hears : Hears s.bound_targets (lookup (target_of d) s.last_sequences) d messages after
    pub remembered :
        (j : String)
        → lookup j out.1.0.last_sequences
          ≡ (if target_of d == j then after else lookup j s.last_sequences)
    pub queued : out.1.0.outbox ≡ s.outbox ++ keep is_kept messages
    pub bound : out.1.0.bound_targets ≡ s.bound_targets

  -- The deliveries one after another, as far as they succeed, and all the messages they return.
  unfoldable pub deliver_all :
      List (Delivery Value)
      → DashboardSession Value × TargetProcessRegistry
      → RelayResult (List (ServerMessage Value)) × (DashboardSession Value × TargetProcessRegistry)
  unfolding deliver
  deliver_all [] = pure []
  deliver_all (d ∷ ds) = do messages ← deliver d; rest ← deliver_all ds; pure (messages ++ rest)

  -- What is heard of deliveries that come one after another, from the sequences that the session has
  -- for the targets.
  pub data HearsAll (bound : List String)
      : (String → Option ℕ) → List (Delivery Value) → List (ServerMessage Value) → Type 0 where
    end : (last : String → Option ℕ) → HearsAll bound last [] []
    then_hears :
        (last next : String → Option ℕ) (after : Option ℕ) (d : Delivery Value)
        (ds : List (Delivery Value)) (ms ns : List (ServerMessage Value))
        → Hears bound (last (target_of d)) d ms after
        → ((j : String) → next j ≡ (if target_of d == j then after else last j))
        → HearsAll bound next ds ns
        → HearsAll bound last (d ∷ ds) (ms ++ ns)

  -- The sequence of an event is of 64 bits.
  abbrev pub Fits : Delivery Value → Type 0
  Fits (event_of e) = e.sequence < 2 ^ 64
  Fits _ = Unit

  -- The deliveries return these messages, which the session hears, and queue those that are no
  -- errors; the session stays bound to the same targets.
  pub record AreHeard (ds : List (Delivery Value)) (s : DashboardSession Value)
      (out : RelayResult (List (ServerMessage Value))
        × (DashboardSession Value × TargetProcessRegistry))
      : Type 0 where
    pub messages : List (ServerMessage Value)
    pub result : out.0 ≡ ok messages
    pub hears : HearsAll s.bound_targets (λ k. lookup k s.last_sequences) ds messages
    pub queued : out.1.0.outbox ≡ s.outbox ++ keep is_kept messages
    pub bound : out.1.0.bound_targets ≡ s.bound_targets

-- ===== src/Session/Stream.antt =====
-- The messages of a bound target on their way to the dashboard (src/session.rs).
use rust_supervisor_relay.Base.{
  ℕ, ◌+◌, ◌-◌, ◌%◌, ◌^◌, Bool, false, Option, none, some, String, List, [], ◌∷◌, ◌++◌, ltb, leb,
  not, if◌then◌else◌, lookup, insert,
}
use rust_supervisor_relay.Error.{RelayError, ok, for_target}
use rust_supervisor_relay.Effect.{M}
use rust_supervisor_relay.Registry.{ConnectionState}
use rust_supervisor_relay.Session.{
  EventRecord, LogRecord, ServerMessage, event, log, state_delta, dropped_count, connection_state,
  error, DashboardSession, contains, push,
}

abbrev pub not_monotonic : String → RelayError
not_monotonic target_id =
    for_target "sequence_not_monotonic" "stream" target_id
      "event sequence must be monotonic for each target" false

-- Whether the sequence does not follow the one before it.
abbrev pub is_stale : Option ℕ → ℕ → Bool
is_stale none sequence = false
is_stale (some previous) sequence = leb sequence previous

-- `a + b` and `a - b` on `u64`.
abbrev pub add_u64 : ℕ → ℕ → ℕ
add_u64 a b = (a + b) % 2 ^ 64

abbrev pub sub_u64 : ℕ → ℕ → ℕ
sub_u64 a b = (a + 2 ^ 64 - b) % 2 ^ 64

module _ {Value : Type 0} where
  -- The diagnostics that precede an event, from the sequence before it.
  abbrev pub gap : String → Option ℕ → ℕ → List (ServerMessage Value)
  gap target_id none sequence = []
  gap target_id (some previous) sequence =
      if ltb (add_u64 previous 1) sequence
      then dropped_count target_id (sub_u64 (sub_u64 sequence previous) 1) ∷ []
      else []

  abbrev pub delivered : EventRecord → Option ℕ → List (ServerMessage Value)
  delivered e previous = gap e.target_id previous e.sequence ++ (event e.target_id e ∷ [])

  unfoldable pub accept_event :
      EventRecord → M (DashboardSession Value) (List (ServerMessage Value))
  accept_event e s =
      if not (contains s.bound_targets e.target_id)
      then (ok [], s)
      else let previous = lookup e.target_id s.last_sequences in
        if is_stale previous e.sequence then (ok (error (not_monotonic e.target_id) ∷ []), s) else (
          ok (delivered e previous),
          record s {
            last_sequences = insert e.target_id e.sequence s.last_sequences;
            outbox = s.outbox ++ delivered e previous;
          },
        )

  -- What the four other handlers do with their message.
  abbrev pub forward :
      String → ServerMessage Value → M (DashboardSession Value) (List (ServerMessage Value))
  forward target_id message s =
      if not (contains s.bound_targets target_id)
      then (ok [], s)
      else (ok (message ∷ []), push message s)

  unfoldable pub accept_log : LogRecord → M (DashboardSession Value) (List (ServerMessage Value))
  unfolding push
  accept_log l = forward l.target_id (log l.target_id l)

  unfoldable pub accept_state_delta :
      String → Value → M (DashboardSession Value) (List (ServerMessage Value))
  unfolding push
  accept_state_delta target_id delta = forward target_id (state_delta target_id delta)

  unfoldable pub accept_dropped_count :
      String → ℕ → M (DashboardSession Value) (List (ServerMessage Value))
  unfolding push
  accept_dropped_count target_id count = forward target_id (dropped_count target_id count)

  unfoldable pub accept_connection_state :
      String → ConnectionState → M (DashboardSession Value) (List (ServerMessage Value))
  unfolding push
  accept_connection_state target_id state = forward target_id (connection_state target_id state)

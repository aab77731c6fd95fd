-- ===== src/Registry/Alike/Link.antt =====
-- The marks of a connection do not see the order in which a hash map iterates.
use rust_supervisor_relay.Base.{
  ◌≡◌, refl, sym, ◌∙◌, inl, inr, ℕ, String, lookup, Same-modify, Option-cases,
}
use rust_supervisor_relay.Time.{OffsetDateTime}
use rust_supervisor_relay.Registry.{TargetProcessConnection, TargetProcessRegistry}
use rust_supervisor_relay.Registry.Link.{
  to_connecting, to_connected, to_reconnecting, to_unavailable, connection_mut, begin_binding,
  mark_connected, mark_reconnecting, mark_unavailable, update_sequence,
}
use rust_supervisor_relay.Registry.Alike.{Alike, Agrees}

connection_mut-Agrees :
    (k : String) (f : TargetProcessConnection → TargetProcessConnection)
    → (g h : TargetProcessRegistry) → Alike g h
    → Agrees (connection_mut k f g) (connection_mut k f h)
unfolding connection_mut
connection_mut-Agrees k f g h a =
    let l = sym (a.connections k) in
    elim (Option-cases (lookup k g.connections)) [
      | inl e ↦ rw (e, l ∙ e) (record { result = refl; after = a })
      | inr (c, e) ↦
          rw (e, l ∙ e)
            (record {
              result = refl;
              after = record {
                policy = a.policy;
                registrations = a.registrations;
                connections = Same-modify k f g.connections h.connections a.connections;
              };
            })
    ]

pub begin_binding-Agrees :
    (k : String) (now : OffsetDateTime) (g h : TargetProcessRegistry)
    → Alike g h
    → Agrees (begin_binding k now g) (begin_binding k now h)
unfolding begin_binding
begin_binding-Agrees k now = connection_mut-Agrees k (to_connecting now)

pub mark_connected-Agrees :
    (k : String) (generation : ℕ) (now : OffsetDateTime) (g h : TargetProcessRegistry)
    → Alike g h
    → Agrees (mark_connected k generation now g) (mark_connected k generation now h)
unfolding mark_connected
mark_connected-Agrees k generation now = connection_mut-Agrees k (to_connected generation now)

pub mark_reconnecting-Alike :
    (k reason : String) (now : OffsetDateTime) (g h : TargetProcessRegistry)
    → Alike g h
    → Alike (mark_reconnecting k reason now g) (mark_reconnecting k reason now h)
unfolding mark_reconnecting
mark_reconnecting-Alike k reason now g h a =
    (connection_mut-Agrees k (to_reconnecting reason now) g h a).after

pub mark_unavailable-Alike :
    (k reason : String) (now : OffsetDateTime) (g h : TargetProcessRegistry)
    → Alike g h
    → Alike (mark_unavailable k reason now g) (mark_unavailable k reason now h)
unfolding mark_unavailable
mark_unavailable-Alike k reason now g h a =
    (connection_mut-Agrees k (to_unavailable reason now) g h a).after

pub update_sequence-Alike :
    (k : String) (sequence : ℕ) (g h : TargetProcessRegistry)
    → Alike g h
    → ((update_sequence k sequence g).0 ≡ (update_sequence k sequence h).0)
      × Alike (update_sequence k sequence g).1 (update_sequence k sequence h).1
unfolding update_sequence
update_sequence-Alike k sequence g h a = (
  rw (update_sequence, a.connections k) refl,
  record {
    policy = a.policy;
    registrations = a.registrations;
    connections = Same-modify k _ g.connections h.connections a.connections;
  },
)

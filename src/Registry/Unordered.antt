-- ===== src/Registry/Unordered.antt =====
-- What src/registry.rs computes from all the values of a hash map, in whatever order they come.
use rust_supervisor_relay.Base.{ℕ, length, ◌≡◌, refl, ap, ◌∙◌, map, keep, ◌∷◌, HashMap, Same}
use rust_supervisor_relay.Base.Bag.{bag, bag-Permᴰ, keep-Permᴰ, length-Permᴰ, Same-Permᴰ}
use mathlib.Core.List.{Permᴰ}
use mathlib.Core.List.Permᴰ
use native.Mathlib.Omega.{arith}
use rust_supervisor_relay.Time.{OffsetDateTime}
use rust_supervisor_relay.Registry.{
  TargetProcessRegistration, TargetProcessConnection, TargetProcessRegistry, AvailabilitySummary,
  ConnectionState, is_live, active_targets, visible, summarize, availability_summary,
  count_connection,
}
use rust_supervisor_relay.Registry.Invariant.{IsValid}
use rust_supervisor_relay.Registry.Alike.{Alike}

visible-Same :
    (m n : HashMap TargetProcessConnection) (r : TargetProcessRegistration)
    → Same m n
    → visible m r ≡ visible n r
visible-Same m n r s = rw (s r.target_id) refl

pub active_targets-Alike :
    (now : OffsetDateTime) (g h : TargetProcessRegistry)
    → IsValid g
    → IsValid h
    → Alike g h
    → bag (active_targets now g) ≡ bag (active_targets now h)
unfolding active_targets
active_targets-Alike now g h v w a =
    let live =
      keep-Permᴰ (λ (_, r). is_live now r)
        (Same-Permᴰ g.registrations h.registrations v.nodup_registrations w.nodup_registrations
          a.registrations) in
    bag-Permᴰ (Permᴰ.map (λ (_, r). visible g.connections r) live) ∙ (λ i. bag (
      map (λ (_, r). visible-Same g.connections h.connections r a.connections i)
        (keep (λ (_, r). is_live now r) h.registrations)))

count_connection_comm :
    (a b : ConnectionState) (s : AvailabilitySummary)
    → count_connection a (count_connection b s) ≡ count_connection b (count_connection a s)
unfolding count_connection
count_connection_comm a b s = ground arith

summarize-Permᴰ :
    {m n : HashMap TargetProcessConnection}
    → Permᴰ m n
    → (s : AvailabilitySummary) → summarize m s ≡ summarize n s
unfolding summarize
summarize-Permᴰ Permᴰ.nil s = refl
summarize-Permᴰ (Permᴰ.cons {b = b} {l₁ = l} e r) s =
    ap (λ x. summarize (x ∷ l) s) e ∙ summarize-Permᴰ r (count_connection b.1.state s)
summarize-Permᴰ (Permᴰ.swap {a = a} {b = b} {l = l} e f) s =
    ap (summarize l) (count_connection_comm b.1.state a.1.state s)
    ∙ (λ i. summarize (f i ∷ e i ∷ l) s)
summarize-Permᴰ (Permᴰ.trans q r) s = summarize-Permᴰ q s ∙ summarize-Permᴰ r s

abbrev uncounted : ℕ → AvailabilitySummary
uncounted n = record {
  total = n;
  registered = 0;
  connected = 0;
  reconnecting = 0;
  unavailable = 0;
  expired = 0;
}

pub availability_summary-Alike :
    (g h : TargetProcessRegistry)
    → IsValid g
    → IsValid h
    → Alike g h
    → availability_summary g ≡ availability_summary h
unfolding availability_summary
availability_summary-Alike g h v w a =
    let r =
      Same-Permᴰ g.connections h.connections v.nodup_connections w.nodup_connections
        a.connections in
    summarize-Permᴰ r (uncounted (length g.connections))
    ∙ ap (λ n. summarize h.connections (uncounted n)) (length-Permᴰ r)

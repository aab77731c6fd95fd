-- ===== src/Registry/Spec.antt =====
-- What the registry of src/registry.rs promises, without its maps, its connections and its checks: a
-- table of leases, and the moves that it makes.
use rust_supervisor_relay.Base.{
  ◌≡◌, ◌∙◌, sym, Bool, true, false, ◌&&◌, Option, none, some, String, ℕ, List, [], ◌∷◌, leb, ◌==◌,
  if◌then◌else◌, arith, eq_iff, Option-cases, inl, inr,
}
use mathlib.Core.Option
use rust_supervisor_relay.Time.{OffsetDateTime, Clock}
use rust_supervisor_relay.Base.Int.{as_i64}

pub record Lease : Type 0 where
  pub owner : String
  pub path : String
  pub seconds : ℕ
  pub ends : OffsetDateTime
  pub runs : Bool

abbrev pub LeaseTable : Type 0
LeaseTable = String → Option Lease

abbrev pub put : String → Lease → LeaseTable → LeaseTable
put k l t j = if k == j then some l else t j

-- A lease at a time at which those that have run out are ended.
abbrev pub swept : OffsetDateTime → Lease → Lease
swept now l = if l.runs && leb l.ends now then record l { runs = false } else l

-- What the registry is asked: to lease a target to an owner for so many seconds, to renew the lease of
-- a target, to end what has run out, each at a time; or something else.
pub data Ask : Type 0 where
  to_lease : String → String → ℕ → OffsetDateTime → Ask
  to_renew : String → OffsetDateTime → Ask
  to_sweep : OffsetDateTime → Ask
  to_mark : Ask

abbrev Same : LeaseTable → LeaseTable → Type 0
Same t u = (j : String) → u j ≡ t j

-- The end of a lease of so many seconds from a time, unless it is out of the clock's range.
abbrev pub end_of : Clock → OffsetDateTime → ℕ → Option OffsetDateTime
end_of clock now seconds = clock.add_seconds now (as_i64 seconds)

module _ (clock : Clock) where
  -- The moves by which a table answers. A lease that is granted goes to the owner who asks, which is
  -- the owner that the target has if it has one, on a path that no other target has, and runs for
  -- the seconds asked for from the time of asking. A lease that is renewed runs for its own seconds
  -- from the time of asking, and keeps its owner and its path; there is none to renew, or its end
  -- would be out of range, where nothing happens. What has run out at the time of asking ends.
  pub data Move (t u : LeaseTable) : Ask → Type 0 where
    stays : Same t u → Move t u to_mark
    refuses :
        (k owner : String) (seconds : ℕ) (now : OffsetDateTime)
        → Same t u
        → Move t u (to_lease k owner seconds now)
    grants :
        (k owner : String) (seconds : ℕ) (now : OffsetDateTime) (l : Lease)
        → l.owner ≡ owner
        → l.seconds ≡ seconds
        → end_of clock now seconds ≡ some l.ends
        → l.runs ≡ true
        → ((held : Lease) → t k ≡ some held → held.owner ≡ l.owner)
        → ((j : String) (other : Lease) → t j ≡ some other → other.path ≡ l.path → k ≡ j)
        → ((j : String) → u j ≡ put k l t j)
        → Move t u (to_lease k owner seconds now)
    has_none :
        (k : String) (now : OffsetDateTime) → t k ≡ none → Same t u → Move t u (to_renew k now)
    overflows :
        (k : String) (now : OffsetDateTime) (l : Lease)
        → t k ≡ some l
        → end_of clock now l.seconds ≡ none
        → Same t u
        → Move t u (to_renew k now)
    prolongs :
        (k : String) (now : OffsetDateTime) (l : Lease) (ends : OffsetDateTime)
        → t k ≡ some l
        → end_of clock now l.seconds ≡ some ends
        → ((j : String) → u j ≡ put k (record l { ends = ends; runs = true }) t j)
        → Move t u (to_renew k now)
    sweeps :
        (now : OffsetDateTime)
        → ((j : String) → u j ≡ Option.map (swept now) (t j))
        → Move t u (to_sweep now)

  -- The answers to a history of questions, the last one first.
  pub data Moves (t : LeaseTable) : List Ask → LeaseTable → Type 0 where
    start : Moves t [] t
    then_move :
        {u v : LeaseTable} {asks : List Ask} {ask : Ask}
        → Moves t asks u
        → Move u v ask
        → Moves t (ask ∷ asks) v

-- No two targets have the same path.
abbrev pub IsExclusive : LeaseTable → Type 0
IsExclusive t = (i j : String) (l m : Lease) → t i ≡ some l → t j ≡ some m → l.path ≡ m.path → i ≡ j

-- A lease is written over on the path that it has, or on one that nothing else has.
put-IsExclusive :
    (t : LeaseTable) (k : String) (l : Lease)
    → IsExclusive t
    → ((j : String) (other : Lease) → t j ≡ some other → other.path ≡ l.path → k ≡ j)
    → IsExclusive (put k l t)
put-IsExclusive t k l x apart i j a b p q e =
    ground (arith, eq_iff k i, eq_iff k j, apart i a, apart j b, x i j a b)

swept-IsExclusive :
    (t : LeaseTable) (now : OffsetDateTime)
    → IsExclusive t
    → IsExclusive (λ j. Option.map (swept now) (t j))
swept-IsExclusive t now x i j a b p q e = elim (Option-cases (t i)) [
  | inl n ↦ absurd (ground arith)
  | inr (a', n) ↦ elim (Option-cases (t j)) [
    | inl m ↦ absurd (ground arith)
    | inr (b', m) ↦ x i j a' b' n m (ground arith)
  ]
]

same-IsExclusive : (t u : LeaseTable) → ((j : String) → u j ≡ t j) → IsExclusive t → IsExclusive u
same-IsExclusive t u same x i j l m p q e = x i j l m (sym (same i) ∙ p) (sym (same j) ∙ q) e

module _ (clock : Clock) where
  -- The moves alone keep the paths of the targets apart.
  Move-IsExclusive :
      {t u : LeaseTable} {ask : Ask} → Move clock t u ask → IsExclusive t → IsExclusive u
  Move-IsExclusive {t} {u} (stays same) x = same-IsExclusive t u same x
  Move-IsExclusive {t} {u} (refuses _ _ _ _ same) x = same-IsExclusive t u same x
  Move-IsExclusive {t} {u} (grants k _ _ _ l _ _ _ r o apart same) x =
      same-IsExclusive (put k l t) u same (put-IsExclusive t k l x apart)
  Move-IsExclusive {t} {u} (has_none _ _ _ same) x = same-IsExclusive t u same x
  Move-IsExclusive {t} {u} (overflows _ _ _ _ _ same) x = same-IsExclusive t u same x
  Move-IsExclusive {t} {u} (prolongs k _ l ends h _ same) x =
      same-IsExclusive (put k (record l { ends = ends; runs = true }) t) u same (
        put-IsExclusive t k (record l { ends = ends; runs = true }) x
          (λ j other q p. x k j l other h q (sym p)))
  Move-IsExclusive {t} {u} (sweeps now same) x =
      same-IsExclusive (λ j. Option.map (swept now) (t j)) u same (swept-IsExclusive t now x)

  pub Moves-IsExclusive :
      {t u : LeaseTable} {asks : List Ask} → Moves clock t asks u → IsExclusive t → IsExclusive u
  Moves-IsExclusive start x = x
  Moves-IsExclusive (then_move m s) x = Move-IsExclusive s (Moves-IsExclusive m x)

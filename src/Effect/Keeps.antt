-- ===== src/Effect/Keeps.antt =====
-- Code that keeps a property of its state, whatever its result: one rule for each way to build code.
use rust_supervisor_relay.Base.{Bool, true, false, ◌≡◌, refl, ◌≢◌, arith, if◌then◌else◌}
use rust_supervisor_relay.Error.{RelayError, RelayResult, ok, err, panic}
use rust_supervisor_relay.Effect.{M, pure, lift, gets, modify, inspect_err, ◌>>=◌}

pub record Keeps {S A : Type 0} (P : S → Type 0) (m : M S A) : Type 0 where
  pub holds : (s : S) → P s → P (m s).1

module _ {S : Type 0} (P : S → Type 0) where
  module _ {A : Type 0} where
    pub Keeps-pure : (a : A) → Keeps P (pure {S = S} a)
    Keeps-pure a = record { holds = λ s h. h }

    pub Keeps-lift : (r : RelayResult A) → Keeps P (lift {S = S} r)
    Keeps-lift r = record { holds = λ s h. h }

    pub Keeps-gets : (f : S → A) → Keeps P (gets f)
    Keeps-gets f = record { holds = λ s h. h }

    failed_keeps :
        (r : RelayResult A) (g : RelayError → S → S) (s : S)
        → ((e : RelayError) (s : S) → P s → P (g e s))
        → P s
        → P (inspect_err (λ _. (r, s)) g s).1
    failed_keeps (ok a) g s k h = h
    failed_keeps (err e) g s k h = k e s h
    failed_keeps panic g s k h = h

    pub Keeps-inspect_err :
        {m : M S A} {g : RelayError → S → S}
        → Keeps P m
        → ((e : RelayError) (s : S) → P s → P (g e s))
        → Keeps P (inspect_err m g)
    Keeps-inspect_err {m} {g} k h = record {
      holds = λ s p. failed_keeps (m s).0 g (m s).1 h (k.holds s p);
    }

    pub Keeps-if : {m n : M S A} (b : Bool) → Keeps P m → Keeps P n → Keeps P (if b then m else n)
    Keeps-if true k l = k
    Keeps-if false k l = l

  pub Keeps-modify : (f : S → S) → ((s : S) → P s → P (f s)) → Keeps P (modify f)
  Keeps-modify f k = record { holds = k }

  module _ {A B : Type 0} where
    went_on :
        (r : RelayResult A) (f : A → M S B) (s : S)
        → ((a : A) → Keeps P (f a))
        → P s
        → P (((λ _. (r, s)) >>= f) s).1
    went_on (ok a) f s k h = (k a).holds s h
    went_on (err e) f s k h = h
    went_on panic f s k h = h

    pub Keeps->>= :
        {m : M S A} {f : A → M S B} → Keeps P m → ((a : A) → Keeps P (f a)) → Keeps P (m >>= f)
    Keeps->>= {m} {f} k l = record { holds = λ s h. went_on (m s).0 f (m s).1 l (k.holds s h) }

module _ {S : Type 0} {P Q : S → Type 0} {A : Type 0} {m : M S A} where
  pub Keeps-and : Keeps P m → Keeps Q m → Keeps (λ s. P s × Q s) m
  Keeps-and k l = record { holds = λ s h. (k.holds s h.0, l.holds s h.1) }

-- The value is not what the code returns where the property holds.
pub record Avoids {S A : Type 0} (P : S → Type 0) (a : A) (m : M S A) : Type 0 where
  pub never : (s : S) → P s → (m s).0 ≢ ok a

module _ {S : Type 0} (P : S → Type 0) {A B : Type 0} (b : B) where
  went_on_Avoids :
      (r : RelayResult A) (f : A → M S B) (s : S)
      → ((a : A) → Avoids P b (f a))
      → P s
      → (((λ _. (r, s)) >>= f) s).0 ≢ ok b
  went_on_Avoids (ok a) f s k h = (k a).never s h
  went_on_Avoids (err e) f s k h = λ q. ground arith
  went_on_Avoids panic f s k h = λ q. ground arith

  pub Avoids->>= :
      {m : M S A} {f : A → M S B} → Keeps P m → ((a : A) → Avoids P b (f a)) → Avoids P b (m >>= f)
  Avoids->>= {m} {f} k l = record {
    never = λ s h. went_on_Avoids (m s).0 f (m s).1 l (k.holds s h);
  }

-- What holds where code stops, at one state: it holds after the first step, and after the rest
-- whatever value the first step returned.
module _ {S A B : Type 0} (Q : S → Type 0) where
  went_on_stops :
      (r : RelayResult A) (f : A → M S B) (s : S)
      → Q s
      → ((a : A) → r ≡ ok a → Q (f a s).1)
      → Q (((λ _. (r, s)) >>= f) s).1
  went_on_stops (ok a) f s h k = k a refl
  went_on_stops (err e) f s h k = h
  went_on_stops panic f s h k = h

  pub stops->>= :
      (m : M S A) (f : A → M S B) (s : S)
      → Q (m s).1
      → ((a : A) → (m s).0 ≡ ok a → Q (f a (m s).1).1)
      → Q ((m >>= f) s).1
  stops->>= m f s h k = went_on_stops (m s).0 f (m s).1 h k

-- The value of a step that only checks is known behind it.
module _ {S A B : Type 0} (P : S → Type 0) where
  pub Keeps-lift->>= :
      (r : RelayResult A) {f : A → M S B}
      → ((a : A) → r ≡ ok a → Keeps P (f a))
      → Keeps P (lift r >>= f)
  Keeps-lift->>= (ok a) k = k a refl
  Keeps-lift->>= (err e) k = record { holds = λ s h. h }
  Keeps-lift->>= panic k = record { holds = λ s h. h }

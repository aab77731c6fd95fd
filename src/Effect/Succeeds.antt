-- ===== src/Effect/Succeeds.antt =====
-- Code that never panics, and code that always succeeds.
use rust_supervisor_relay.Base.{◌≡◌, refl, ◌≢◌, Bool, true, false, arith, if◌then◌else◌}
use rust_supervisor_relay.Error.{RelayError, RelayResult, ok, err, panic}
use rust_supervisor_relay.Effect.{M, pure, gets, modify, inspect_err, ◌>>=◌}

pub record Survives {S A : Type 0} (m : M S A) : Type 0 where
  pub never : (s : S) → (m s).0 ≢ panic

pub record Succeeds {S A : Type 0} (m : M S A) : Type 0 where
  pub result : (s : S) → (a : A) × ((m s).0 ≡ ok a)

module _ {S : Type 0} where
  pub Succeeds-modify : (f : S → S) → Succeeds (modify f)
  Succeeds-modify f = record { result = λ s. (tt, refl) }

  pub Survives-modify : (f : S → S) → Survives (modify f)
  Survives-modify f = record { never = λ s q. ground arith }

module _ {S A : Type 0} where
  pub Succeeds-pure : (a : A) → Succeeds (pure {S = S} a)
  Succeeds-pure a = record { result = λ s. (a, refl) }

  pub Survives-gets : (f : S → A) → Survives (gets f)
  Survives-gets f = record { never = λ s q. ground arith }

  pub Survives-pure : (a : A) → Survives (pure {S = S} a)
  Survives-pure a = record { never = λ s q. ground arith }

  pub Survives-of : {m : M S A} → Succeeds m → Survives m
  Survives-of k = record { never = λ s q. let (a, e) = k.result s in ground arith }

  survives_noted :
      (r : RelayResult A) (g : RelayError → S → S) (s : S)
      → r ≢ panic
      → (inspect_err (λ _. (r, s)) g s).0 ≢ panic
  survives_noted (ok a) g s h q = ground arith
  survives_noted (err e) g s h q = ground arith
  survives_noted panic g s h q = h refl

  pub Survives-inspect_err :
      {m : M S A} (g : RelayError → S → S) → Survives m → Survives (inspect_err m g)
  Survives-inspect_err {m} g k = record {
    never = λ s. survives_noted (m s).0 g (m s).1 (k.never s);
  }

  pub Survives-if :
      {m n : M S A} (b : Bool) → Survives m → Survives n → Survives (if b then m else n)
  Survives-if true k l = k
  Survives-if false k l = l

module _ {S A B : Type 0} where
  Survives-outcome :
      (r : RelayResult A) (f : A → M S B) (s : S)
      → r ≢ panic
      → ((a : A) → r ≡ ok a → Survives (f a))
      → (((λ _. (r, s)) >>= f) s).0 ≢ panic
  Survives-outcome (ok a) f s h k = (k a refl).never s
  Survives-outcome (err e) f s h k = λ q. ground arith
  Survives-outcome panic f s h k = λ q. h refl

  pub Survives->>= :
      {m : M S A} {f : A → M S B} → Survives m → ((a : A) → Survives (f a)) → Survives (m >>= f)
  Survives->>= {m} {f} k l = record {
    never = λ s. Survives-outcome (m s).0 f (m s).1 (k.never s) (λ a q. l a);
  }

  Succeeds-outcome :
      (r : RelayResult A) (f : A → M S B) (s : S) (a : A)
      → r ≡ ok a
      → ((a : A) → Succeeds (f a))
      → (b : B) × ((((λ _. (r, s)) >>= f) s).0 ≡ ok b)
  Succeeds-outcome (ok a) f s a' h k = (k a).result s
  Succeeds-outcome (err e) f s a' h k = absurd (ground arith)
  Succeeds-outcome panic f s a' h k = absurd (ground arith)

  pub Succeeds->>= :
      {m : M S A} {f : A → M S B} → Succeeds m → ((a : A) → Succeeds (f a)) → Succeeds (m >>= f)
  Succeeds->>= {m} {f} k l = record {
    result = λ s. let (a, e) = k.result s in Succeeds-outcome (m s).0 f (m s).1 a e l;
  }

  -- At one state.
  pub >>=-returns :
      (m : M S A) (f : A → M S B) (s : S) (a : A)
      → (m s).0 ≡ ok a
      → ((a : A) → Succeeds (f a))
      → (b : B) × (((m >>= f) s).0 ≡ ok b)
  >>=-returns m f s a e l = Succeeds-outcome (m s).0 f (m s).1 a e l

  pub >>=-ok :
      (m : M S A) (f : A → M S B) (s : S) (a : A) → (m s).0 ≡ ok a → (m >>= f) s ≡ f a (m s).1
  >>=-ok m f s a e = rw (e, ◌>>=◌) refl

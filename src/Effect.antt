-- ===== src/Effect.antt =====
-- Code that reads and writes a state and may fail: what was written before a failure stays written.
pub mod Keeps
pub mod Ends
pub mod Succeeds
use rust_supervisor_relay.Error.{RelayError, RelayResult, ok, err, panic}

abbrev pub M : Type 0 → Type 0 → Type 0
M S A = S → RelayResult A × S

module _ {S A : Type 0} where
  abbrev pub pure : A → M S A
  pure a s = (ok a, s)

  -- A step that does not touch the state.
  abbrev pub lift : RelayResult A → M S A
  lift r s = (r, s)

  abbrev pub gets : (S → A) → M S A
  gets f s = (ok (f s), s)

  -- `inspect_err`
  abbrev pub inspect_err : M S A → (RelayError → S → S) → M S A
  inspect_err m f s =
      let (r, s') = m s in
      elim r [ ok a ↦ (ok a, s') | err e ↦ (err e, f e s') | panic ↦ (panic, s') ]

module _ {S : Type 0} where
  abbrev pub modify : (S → S) → M S (Unit {0})
  modify f s = (ok tt, f s)

infixl 5 ◌>>=◌ ◌>>◌
abbrev pub ◌>>=◌ : {S A B : Type 0} → M S A → (A → M S B) → M S B
◌>>=◌ m f s =
    let (r, s') = m s in elim r [ ok a ↦ f a s' | err e ↦ (err e, s') | panic ↦ (panic, s') ]

abbrev pub ◌>>◌ : {S B : Type 0} → M S (Unit {0}) → M S B → M S B
m >> k = m >>= λ _. k

-- ===== src/Effect/Ends.antt =====
-- How code ends: one condition for each kind of result, on the value and on the state left behind.
use rust_supervisor_relay.Base.{◌≡◌, refl}
use rust_supervisor_relay.Error.{RelayError, RelayResult, ok, err, panic}
use rust_supervisor_relay.Effect.{M, inspect_err, ◌>>=◌}

module _ {S A : Type 0} (Q : A → S → Type 0) (E : RelayError → S → Type 0) (Z : S → Type 0) where
  abbrev pub Ending : RelayResult A → S → Type 0
  Ending (ok a) s = Q a s
  Ending (err e) s = E e s
  Ending panic s = Z s

pub record Ends {S A : Type 0} (Q : A → S → Type 0) (E : RelayError → S → Type 0) (Z : S → Type 0)
    (r : RelayResult A × S) : Type 0 where
  pub so : Ending Q E Z r.0 r.1

module _ {S A B : Type 0} (P : A → S → Type 0) {Q : B → S → Type 0} {E : RelayError → S → Type 0}
    {Z : S → Type 0} where
  went_on_Ends :
      (r : RelayResult A) (f : A → M S B) (s : S)
      → Ending P E Z r s
      → ((a : A) (s : S) → P a s → Ends Q E Z (f a s))
      → Ends Q E Z (((λ _. (r, s)) >>= f) s)
  went_on_Ends (ok a) f s h k = k a s h
  went_on_Ends (err e) f s h k = record { so = h }
  went_on_Ends panic f s h k = record { so = h }

  pub Ends->>= :
      (m : M S A) (f : A → M S B) (s : S)
      → Ends P E Z (m s)
      → ((a : A) (s : S) → P a s → Ends Q E Z (f a s))
      → Ends Q E Z ((m >>= f) s)
  Ends->>= m f s h k = went_on_Ends (m s).0 f (m s).1 h.so k

module _ {S A : Type 0} (Q : A → S → Type 0) (E F : RelayError → S → Type 0) (Z : S → Type 0) where
  failed_Ends :
      (r : RelayResult A) (g : RelayError → S → S) (s : S)
      → Ending Q E Z r s
      → ((e : RelayError) (s : S) → E e s → F e (g e s))
      → Ends Q F Z (inspect_err (λ _. (r, s)) g s)
  failed_Ends (ok a) g s h k = record { so = h }
  failed_Ends (err e) g s h k = record { so = k e s h }
  failed_Ends panic g s h k = record { so = h }

  pub Ends-inspect_err :
      (m : M S A) (g : RelayError → S → S) (s : S)
      → Ends Q E Z (m s)
      → ((e : RelayError) (s : S) → E e s → F e (g e s))
      → Ends Q F Z (inspect_err m g s)
  Ends-inspect_err m g s h k = failed_Ends (m s).0 g (m s).1 h.so k

-- Weaker conditions.
module _ {S A : Type 0} {P Q : A → S → Type 0} {E F : RelayError → S → Type 0}
    {Y Z : S → Type 0} where
  weaker :
      (r : RelayResult A) (s : S)
      → Ending P E Y r s
      → ((a : A) (s : S) → P a s → Q a s)
      → ((e : RelayError) (s : S) → E e s → F e s)
      → ((s : S) → Y s → Z s)
      → Ending Q F Z r s
  weaker (ok a) s h f g k = f a s h
  weaker (err e) s h f g k = g e s h
  weaker panic s h f g k = k s h

  pub Ends-weaker :
      (r : RelayResult A × S)
      → Ends P E Y r
      → ((a : A) (s : S) → P a s → Q a s)
      → ((e : RelayError) (s : S) → E e s → F e s)
      → ((s : S) → Y s → Z s)
      → Ends Q F Z r
  Ends-weaker r h f g k = record { so = weaker r.0 r.1 h.so f g k }

-- Conditions that ask nothing of the result.
module _ {S A : Type 0} (P Z : S → Type 0) (weak : (s : S) → P s → Z s) where
  always : (r : RelayResult A) (s : S) → P s → Ending (λ _. P) (λ _. P) Z r s
  always (ok a) s h = h
  always (err e) s h = h
  always panic s h = weak s h

  pub Ends-always : (r : RelayResult A × S) → P r.1 → Ends (λ _. P) (λ _. P) Z r
  Ends-always r h = record { so = always r.0 r.1 h }

-- What a result is.
module _ {S A : Type 0} where
  returned :
      (r : RelayResult A) (s : S)
      → Ending (λ a s'. (r ≡ ok a) × (s' ≡ s)) (λ _ s'. s' ≡ s) (λ s'. s' ≡ s) r s
  returned (ok a) s = (refl, refl)
  returned (err e) s = refl
  returned panic s = refl

  pub Ends-returned :
      (r : RelayResult A × S)
      → Ends (λ a s'. (r.0 ≡ ok a) × (s' ≡ r.1)) (λ _ s'. s' ≡ r.1) (λ s'. s' ≡ r.1) r
  Ends-returned r = record { so = returned r.0 r.1 }

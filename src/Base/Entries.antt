-- ===== src/Base/Entries.antt =====
-- Two tables with the same values at the same keys, in whatever order: what code finds in one it finds
-- in the other.
use Prim.Native.String.{String}
use mathlib.Core.Path.{◌≡◌, refl, sym, ◌∙◌}
use mathlib.Core.Logic.{inl, inr}
use mathlib.Core.Bool.{Bool, true}
use mathlib.Core.Option.{none, some}
use mathlib.Core.List.{[], ◌∷◌}
use native.Mathlib.Omega.{arith}
use text.Mathlib.TextEquality.{eq_iff}
use rust_supervisor_relay.Base.Test.{◌==◌, if◌then◌else◌, Bool-cases}
use rust_supervisor_relay.Base.Lists.{any, In, In→any, any→In}
use rust_supervisor_relay.Base.Map.{
  HashMap, lookup, insert, modify, NodupKeys, lookup→In, lookup-insert, lookup-modify, map_values,
  lookup-map_values,
}

abbrev pub Same {ℓ} : {V : Type ℓ} → HashMap V → HashMap V → Type ℓ
Same m n = (k : String) → lookup k m ≡ lookup k n

module _ {V : Type 0} where
  pub In→lookup :
      (k : String) (v : V) (m : HashMap V) → NodupKeys m → In (k, v) m → lookup k m ≡ some v
  unfolding lookup
  In→lookup k v [] u i = absurd i
  In→lookup k v ((j, w) ∷ m) u (inl e) = ground (arith, eq_iff j k)
  In→lookup k v ((j, w) ∷ m) u (inr i) = ground (arith, eq_iff j k, In→lookup k v m u.1 i)

  any-transfer :
      (p : String × V → Bool) (m n : HashMap V)
      → NodupKeys m
      → Same m n
      → any p m ≡ true
      → any p n ≡ true
  any-transfer p m n u s h =
      let ((k, v), i, q) = any→In p m h in
      In→any p (k, v) n (lookup→In k v n (sym (s k) ∙ In→lookup k v m u i)) q

  -- A test of the entries does not depend on their order.
  pub any-Same :
      (p : String × V → Bool) (m n : HashMap V)
      → NodupKeys m
      → NodupKeys n
      → Same m n
      → any p m ≡ any p n
  any-Same p m n u w s = elim (Bool-cases (any p m)) [
    | inl e ↦ e ∙ sym (any-transfer p m n u s e)
    | inr e ↦ elim (Bool-cases (any p n)) [
      | inl f ↦ any-transfer p n m w (λ k. sym (s k)) f ∙ sym f
      | inr f ↦ e ∙ sym f
    ]
  ]

  unfoldable pub erase : String → HashMap V → HashMap V
  erase k [] = []
  erase k ((j, w) ∷ m) = if j == k then m else (j, w) ∷ erase k m

  pub lookup-erase :
      (k j : String) (m : HashMap V)
      → NodupKeys m
      → lookup j (erase k m) ≡ (if k == j then none else lookup j m)
  unfolding lookup erase
  lookup-erase k j [] u = ground arith
  lookup-erase k j ((i, w) ∷ m) u =
      ground (arith, eq_iff k j, eq_iff i k, eq_iff i j, lookup-erase k j m u.1)

  pub erase-NodupKeys : (k : String) (m : HashMap V) → NodupKeys m → NodupKeys (erase k m)
  unfolding erase
  erase-NodupKeys k [] u = tt
  erase-NodupKeys k ((i, w) ∷ m) u = elim (Bool-cases (i == k)) [
    | inl e ↦ rw (erase, e) (u.1)
    | inr e ↦
        rw (erase, e)
          (lookup-erase k i m u.1 ∙ ground (arith, eq_iff k i, u.0), erase-NodupKeys k m u.1)
  ]

  pub Same-insert :
      (k : String) (v : V) (m n : HashMap V) → Same m n → Same (insert k v m) (insert k v n)
  Same-insert k v m n s j = rw (lookup-insert k j v m, lookup-insert k j v n, s j) refl

  pub Same-modify :
      (k : String) (f : V → V) (m n : HashMap V) → Same m n → Same (modify k f m) (modify k f n)
  Same-modify k f m n s j = rw (lookup-modify k j f m, lookup-modify k j f n, s j) refl

  pub Same-map_values :
      (f : V → V) (m n : HashMap V) → Same m n → Same (map_values f m) (map_values f n)
  Same-map_values f m n s j = rw (lookup-map_values f j m, lookup-map_values f j n, s j) refl

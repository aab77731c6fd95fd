-- ===== src/Base/Bag.antt =====
-- Lists up to the order of their members, as the values of a hash map come out of it.
use Prim.Native.String.{String}
use Prim.Native.Nat.{suc}
use mathlib.Core.Path.{◌≡◌, refl, sym, ◌∙◌, ap, subst}
use mathlib.Core.Logic.{inl, inr}
use mathlib.Core.Bool.{Bool, true, false}
use mathlib.Core.Option.{some}
use mathlib.Core.List.{List, [], ◌∷◌, Permᴰ}
use mathlib.Core.Quot
use mathlib.Core.List.Permᴰ
use mathlib.Core.Quot.{Quot}
use native.Mathlib.Omega.{arith}
use text.Mathlib.TextEquality.{eq_iff}
use text.Mathlib.TextPositions.{eq_refl}
use rust_supervisor_relay.Base.Test.{◌==◌, if◌then◌else◌, Bool-cases}
use rust_supervisor_relay.Base.Lists.{keep, length}
use rust_supervisor_relay.Base.Map.{HashMap, lookup, NodupKeys}
use rust_supervisor_relay.Base.Entries.{Same, erase, erase-NodupKeys, lookup-erase}

abbrev pub Bag {ℓ} : Type ℓ → Type ℓ
Bag A = Quot (Permᴰ {A = A})

-- The members of a list, in no order.
abbrev pub bag {ℓ} : {A : Type ℓ} → List A → Bag A
bag xs = Quot.mk xs

pub bag-Permᴰ {ℓ} : {A : Type ℓ} → {xs ys : List A} → Permᴰ xs ys → bag xs ≡ bag ys
bag-Permᴰ r = Quot.sound r

pub length-Permᴰ {ℓ} : {A : Type ℓ} → {xs ys : List A} → Permᴰ xs ys → length xs ≡ length ys
length-Permᴰ Permᴰ.nil = refl
length-Permᴰ (Permᴰ.cons e r) = ap suc (length-Permᴰ r)
length-Permᴰ (Permᴰ.swap e f) = refl
length-Permᴰ (Permᴰ.trans r s) = length-Permᴰ r ∙ length-Permᴰ s

module _ {ℓ} {A : Type ℓ} (p : A → Bool) where
  keep-cons :
      (a : A) (xs ys : List A)
      → Permᴰ (keep p xs) (keep p ys)
      → Permᴰ (keep p (a ∷ xs)) (keep p (a ∷ ys))
  keep-cons a xs ys r =
      elim (p a)
        as (λ t.
          Permᴰ (if t then a ∷ keep p xs else keep p xs) (if t then a ∷ keep p ys else keep p ys)) [
            | true ↦ Permᴰ.cons refl r
            | false ↦ r
          ]

  keep-swap : (a b : A) (xs : List A) → Permᴰ (keep p (a ∷ b ∷ xs)) (keep p (b ∷ a ∷ xs))
  keep-swap a b xs = elim (Bool-cases (p a)) [
    | inl e ↦ elim (Bool-cases (p b)) [
      | inl f ↦ rw (e, f) (Permᴰ.swap refl refl)
      | inr f ↦ rw (e, f) (Permᴰ.refl _)
    ]
    | inr e ↦ rw e (Permᴰ.refl _)
  ]

  pub keep-Permᴰ : {xs ys : List A} → Permᴰ xs ys → Permᴰ (keep p xs) (keep p ys)
  keep-Permᴰ Permᴰ.nil = Permᴰ.nil
  keep-Permᴰ (Permᴰ.cons {a} {b} {l₁} {l₂} e r) =
      subst (λ c. Permᴰ (keep p (a ∷ l₁)) (keep p (c ∷ l₂))) e (keep-cons a l₁ l₂ (keep-Permᴰ r))
  keep-Permᴰ (Permᴰ.swap {a} {b} {a'} {b'} {l} e f) =
      subst (λ c. Permᴰ (keep p (a ∷ b ∷ l)) (keep p (a' ∷ c ∷ l))) e
        (subst (λ c. Permᴰ (keep p (a ∷ b ∷ l)) (keep p (c ∷ a ∷ l))) f (keep-swap a b l))
  keep-Permᴰ (Permᴰ.trans r s) = Permᴰ.trans (keep-Permᴰ r) (keep-Permᴰ s)

module _ {V : Type 0} where
  erase-Permᴰ :
      (k : String) (v : V) (m : HashMap V) → lookup k m ≡ some v → Permᴰ m ((k, v) ∷ erase k m)
  unfolding lookup erase
  erase-Permᴰ k v [] h = absurd (ground arith)
  erase-Permᴰ k v ((j, w) ∷ m) h = elim (Bool-cases (j == k)) [
    | inl e ↦ rw (erase, e) (Permᴰ.cons (ground (arith, eq_iff j k)) (Permᴰ.refl m))
    | inr e ↦
        rw (erase, e)
          (Permᴰ.trans (Permᴰ.cons refl (erase-Permᴰ k v m (ground arith))) (Permᴰ.swap refl refl))
  ]

  -- Tables with the same entries are permutations of each other.
  pub Same-Permᴰ : (m n : HashMap V) → NodupKeys m → NodupKeys n → Same m n → Permᴰ m n
  unfolding lookup
  Same-Permᴰ [] [] u w s = Permᴰ.nil
  Same-Permᴰ [] ((j, x) ∷ n) u w s = absurd (ground (arith, s j, eq_refl j))
  Same-Permᴰ ((k, v) ∷ m) n u w s =
      let h : lookup k n ≡ some v = sym (s k) ∙ ground (arith, eq_refl k) in
      Permᴰ.trans
        (Permᴰ.cons refl (
          Same-Permᴰ m (erase k n) u.1 (erase-NodupKeys k n w)
            (λ j. ground (arith, eq_iff k j, s j, lookup-erase k j n w, u.0))))
        (Permᴰ.symm (erase-Permᴰ k v n h))

  -- The number of the entries that pass a test does not depend on their order.
  pub length-keep-Same :
      (p : String × V → Bool) (m n : HashMap V)
      → NodupKeys m
      → NodupKeys n
      → Same m n
      → length (keep p m) ≡ length (keep p n)
  length-keep-Same p m n u w s = length-Permᴰ (keep-Permᴰ p (Same-Permᴰ m n u w s))

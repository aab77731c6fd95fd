-- ===== src/Base/Map.antt =====
-- `HashMap<String, V>` as an association list with distinct keys, in its iteration order.
use Prim.Native.String.{String}
use mathlib.Core.Path.{◌≡◌, refl, subst}
use mathlib.Core.Logic.{inl, inr}
use mathlib.Core.Bool.{Bool}
use mathlib.Core.Option
use mathlib.Core.Option.{Option, none, some}
use mathlib.Core.List.{List, [], ◌∷◌}
use native.Mathlib.Omega.{arith}
use text.Mathlib.TextEquality.{eq_iff}
use rust_supervisor_relay.Base.Test.{◌==◌, if◌then◌else◌, is_some, Bool-cases}
use rust_supervisor_relay.Base.Lists.{All, In}

abbrev pub HashMap {ℓ} : Type ℓ → Type ℓ
HashMap V = List (String × V)

module _ {ℓ} {V : Type ℓ} where
  -- `get`
  unfoldable pub lookup : String → HashMap V → Option V
  lookup k [] = none
  lookup k ((j, v) ∷ m) = if j == k then some v else lookup k m

  abbrev pub contains_key : String → HashMap V → Bool
  contains_key k m = is_some (lookup k m)

  unfoldable pub insert : String → V → HashMap V → HashMap V
  insert key new [] = (key, new) ∷ []
  insert key new ((here, old) ∷ below) =
      let rest = insert key new below in
      if here == key then (key, new) ∷ below else (here, old) ∷ rest

  -- A write through `get_mut`; nothing happens where the key is missing.
  unfoldable pub modify : String → (V → V) → HashMap V → HashMap V
  modify k f [] = []
  modify k f ((j, w) ∷ m) = if j == k then (j, f w) ∷ m else (j, w) ∷ modify k f m

  pub lookup-insert :
      (written key : String) (new : V) (table : HashMap V)
      → lookup key (insert written new table)
        ≡ (if written == key then some new else lookup key table)
  unfolding insert lookup
  lookup-insert written key new [] = refl
  lookup-insert written key new ((here, _) ∷ below) =
      let rest = lookup-insert written key new below in
      ground (arith, rest, eq_iff here written, eq_iff here key, eq_iff written key)

  pub lookup-modify :
      (k j : String) (f : V → V) (m : HashMap V)
      → lookup j (modify k f m) ≡ (if k == j then Option.map f (lookup j m) else lookup j m)
  unfolding lookup modify
  lookup-modify k j f [] = ground arith
  lookup-modify k j f ((i, w) ∷ m) =
      ground (arith, eq_iff k j, eq_iff i k, eq_iff i j, lookup-modify k j f m)

  -- No key is listed twice.
  abbrev pub NodupKeys : HashMap V → Type ℓ
  NodupKeys [] = Unit
  NodupKeys ((k, v) ∷ m) = (lookup k m ≡ none) × NodupKeys m

  pub insert-NodupKeys :
      (k : String) (v : V) (m : HashMap V) → NodupKeys m → NodupKeys (insert k v m)
  unfolding lookup insert
  insert-NodupKeys k v [] u = (refl, tt)
  insert-NodupKeys k v ((j, w) ∷ m) u =
      ground (arith, eq_iff j k, eq_iff k j, lookup-insert k j v m, insert-NodupKeys k v m u.1)

  pub modify-NodupKeys :
      (k : String) (f : V → V) (m : HashMap V) → NodupKeys m → NodupKeys (modify k f m)
  unfolding lookup modify
  modify-NodupKeys k f [] u = tt
  modify-NodupKeys k f ((j, w) ∷ m) u =
      ground (arith, eq_iff j k, eq_iff k j, lookup-modify k j f m, modify-NodupKeys k f m u.1)

module _ {ℓ κ} {V : Type ℓ} (P : String × V → Type κ) where
  pub All-insert : (k : String) (v : V) (m : HashMap V) → P (k, v) → All P m → All P (insert k v m)
  unfolding insert
  All-insert k v [] p h = (p, tt)
  All-insert k v ((j, w) ∷ m) p h = elim (Bool-cases (j == k)) [
    | inl e ↦ rw (e, insert) (p, h.1)
    | inr e ↦ rw (e, insert) (h.0, All-insert k v m p h.1)
  ]

  pub All-modify :
      (k : String) (f : V → V) (m : HashMap V)
      → ((j : String) (v : V) → P (j, v) → P (j, f v))
      → All P m
      → All P (modify k f m)
  unfolding modify
  All-modify k f [] p h = tt
  All-modify k f ((j, w) ∷ m) p h = elim (Bool-cases (j == k)) [
    | inl e ↦ rw (e, modify) (p j w h.0, h.1)
    | inr e ↦ rw (e, modify) (h.0, All-modify k f m p h.1)
  ]

  pub All-lookup : (k : String) (v : V) (m : HashMap V) → lookup k m ≡ some v → All P m → P (k, v)
  unfolding lookup
  All-lookup k v [] e h = cc
  All-lookup k v ((j, w) ∷ m) e h = elim (Bool-cases (j == k)) [
    | inl q ↦ subst P (ground (arith, eq_iff j k)) h.0
    | inr q ↦ All-lookup k v m (ground arith) h.1
  ]

module _ {V : Type 0} where
  pub lookup→In : (k : String) (v : V) (m : HashMap V) → lookup k m ≡ some v → In (k, v) m
  unfolding lookup
  lookup→In k v [] e = cc
  lookup→In k v ((j, w) ∷ m) e = elim (Bool-cases (j == k)) [
    | inl q ↦ inl (ground (arith, eq_iff j k))
    | inr q ↦ inr (lookup→In k v m (ground arith))
  ]

-- The same change of every value, as a loop over `values_mut` makes it.
module _ {ℓ} {V : Type ℓ} (f : V → V) where
  abbrev pub map_values : HashMap V → HashMap V
  map_values [] = []
  map_values ((k, v) ∷ m) = (k, f v) ∷ map_values m

  pub lookup-map_values :
      (k : String) (m : HashMap V) → lookup k (map_values m) ≡ Option.map f (lookup k m)
  unfolding lookup
  lookup-map_values k [] = refl
  lookup-map_values k ((j, v) ∷ m) = ground (arith, lookup-map_values k m)

  pub map_values-NodupKeys : (m : HashMap V) → NodupKeys m → NodupKeys (map_values m)
  map_values-NodupKeys [] u = tt
  map_values-NodupKeys ((j, v) ∷ m) u =
      (rw (lookup-map_values j m, u.0) refl, map_values-NodupKeys m u.1)

  pub All-map_values {κ} :
      (P : String × V → Type κ) (m : HashMap V)
      → ((j : String) (v : V) → P (j, v) → P (j, f v))
      → All P m
      → All P (map_values m)
  All-map_values P [] p h = tt
  All-map_values P ((j, v) ∷ m) p h = (p j v h.0, All-map_values P m p h.1)

-- ===== src/Paths/Laws.antt =====
-- `Path::starts_with` compares whole components, and does not resolve `..`.
use Prim.Native.Char.{Char, code}
use text.Mathlib.TextLemmas.{nil-append, cons-append}
use rust_supervisor_relay.Base.{
  ◌≡◌, refl, ap, ◌↔◌, true, String, ◌<>◌, List, [], ◌∷◌, ◌++◌, arith, eq_iff, eqb, Bool-cases, inl,
  inr,
}
use rust_supervisor_relay.Paths.{
  Component, root_dir, cur_dir, parent_dir, normal, cons_head, split, body, is_absolute, components,
  component_eq, is_prefix, starts_with,
}

component_eq_iff : (a b : Component) → (component_eq a b ≡ true) ↔ (a ≡ b)
unfolding component_eq
component_eq_iff root_dir root_dir = ground arith
component_eq_iff root_dir cur_dir = ground arith
component_eq_iff root_dir parent_dir = ground arith
component_eq_iff root_dir (normal b) = ground arith
component_eq_iff cur_dir root_dir = ground arith
component_eq_iff cur_dir cur_dir = ground arith
component_eq_iff cur_dir parent_dir = ground arith
component_eq_iff cur_dir (normal b) = ground arith
component_eq_iff parent_dir root_dir = ground arith
component_eq_iff parent_dir cur_dir = ground arith
component_eq_iff parent_dir parent_dir = ground arith
component_eq_iff parent_dir (normal b) = ground arith
component_eq_iff (normal a) (normal b) = ground (arith, eq_iff a b)
component_eq_iff (normal a) _ = ground arith

is_prefix-append : (ps cs : List Component) → is_prefix ps (ps ++ cs) ≡ true
unfolding is_prefix
is_prefix-append [] cs = refl
is_prefix-append (p ∷ ps) cs = ground (arith, component_eq_iff p p, is_prefix-append ps cs)

is_prefix-eq_append :
    (ps cs : List Component) → is_prefix ps cs ≡ true → (rest : List Component) × (cs ≡ ps ++ rest)
unfolding is_prefix
is_prefix-eq_append [] cs h = (cs, refl)
is_prefix-eq_append (p ∷ ps) [] h = cc
is_prefix-eq_append (p ∷ ps) (c ∷ cs) h =
    let (rest, e) = is_prefix-eq_append ps cs (ground arith) in
    (rest, ground (arith, component_eq_iff p c, e))

-- A path starts with another exactly when the other's components, all of them and whole, are the
-- first of its own.
pub starts_with_iff :
    (path prefix : String)
    → (starts_with path prefix ≡ true)
      ↔ ((rest : List Component) × (components path ≡ components prefix ++ rest))
unfolding starts_with
starts_with_iff path prefix = (
  is_prefix-eq_append (components prefix) (components path),
  λ (rest, e). rw e (is_prefix-append (components prefix) rest),
)

split-cons : (s : String) → (piece : String) × (pieces : List String) × (split s ≡ piece ∷ pieces)
unfolding split
split-cons String.[] = ("", [], refl)
split-cons (String.◌∷◌ c s) = elim (Bool-cases (eqb (code c) b'/')) [
  | inl e ↦ ("", split s, rw (e, split))
  | inr e ↦ let (piece, pieces, q) = split-cons s in (String.◌∷◌ c piece, pieces, rw (e, q, split))
]

cons_head-append :
    (c : Char) (s : String) (ys : List String)
    → cons_head c (split s ++ ys) ≡ cons_head c (split s) ++ ys
unfolding cons_head
cons_head-append c s ys = let (piece, pieces, q) = split-cons s in rw q refl

-- The pieces of two texts joined by a separator.
split-append : (s t : String) → split (s <> ("/" <> t)) ≡ split s ++ split t
unfolding split
split-append String.[] t = rw (nil-append, cons-append, nil-append) refl
split-append (String.◌∷◌ c s) t = elim (Bool-cases (eqb (code c) b'/')) [
  | inl e ↦ rw (cons-append, split) (rw (e, split-append s t) refl)
  | inr e ↦ rw (cons-append, split) (rw (e, split-append s t) (cons_head-append c s (split t)))
]

body-append : (xs ys : List String) → body (xs ++ ys) ≡ body xs ++ body ys
unfolding body
body-append [] ys = refl
body-append (x ∷ xs) ys = ground (arith, body-append xs ys)

is_absolute-append : (p q : String) → is_absolute p ≡ true → is_absolute (p <> q) ≡ true
unfolding is_absolute
is_absolute-append String.[] q h = cc
is_absolute-append (String.◌∷◌ c s) q h = rw (cons-append, is_absolute) h

-- The components of a path that is continued under an absolute one.
pub components-append :
    (p q : String)
    → is_absolute p ≡ true
    → components (p <> ("/" <> q)) ≡ components p ++ body (split q)
unfolding components
components-append p q h =
    rw (is_absolute-append p ("/" <> q) h, h, split-append p q)
      (ap (λ cs. root_dir ∷ cs) (body-append (split p) (split q)))

-- A continuation starts with the path that it continues, whatever it holds.
pub starts_with-append :
    (p q : String) → is_absolute p ≡ true → starts_with (p <> ("/" <> q)) p ≡ true
unfolding starts_with
starts_with-append p q h =
    rw (components-append p q h) (is_prefix-append (components p) (body (split q)))

pub is_absolute_continued :
    (p q : String) → is_absolute p ≡ true → is_absolute (p <> ("/" <> q)) ≡ true
is_absolute_continued p q = is_absolute-append p ("/" <> q)

-- A continuation that begins by `..` keeps it as a component.
pub components-dot_dot :
    (p q : String)
    → is_absolute p ≡ true
    → components (p <> ("/" <> (".." <> ("/" <> q)))) ≡ components p ++ parent_dir ∷ body (split q)
unfolding body split
components-dot_dot p q h = rw (components-append p (".." <> ("/" <> q)) h, split-append ".." q) refl

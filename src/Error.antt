-- ===== src/Error.antt =====
-- src/error.rs: `RelayError`, its constructors and `RelayResult`. A third outcome stands for a panic
-- of the running task, which the addition of a time and a duration raises when it leaves the range.
use rust_supervisor_relay.Base.{
  ◌≡◌, refl, ◌⊎◌, inl, inr, Bool, true, false, Option, none, some, String,
}

pub record RelayError : Type 0 where
  pub code : String
  pub stage : String
  pub target_id : Option String
  pub message : String
  pub retryable : Bool

pub data RelayResult {ℓ} (A : Type ℓ) : Type ℓ where
  ok : A → RelayResult A
  err : RelayError → RelayResult A
  panic : RelayResult A

-- `RelayError::new`
abbrev pub new : String → String → Option String → String → Bool → RelayError
new code stage target_id message retryable = record {
  code = code;
  stage = stage;
  target_id = target_id;
  message = message;
  retryable = retryable;
}

-- `RelayError::for_target`
abbrev pub for_target : String → String → String → String → Bool → RelayError
for_target code stage target_id message retryable =
    new code stage (some target_id) message retryable

-- The operator `?`.
infixl 5 ◌>>=◌ ◌>>◌
abbrev pub ◌>>=◌ {ℓ κ} :
    {A : Type ℓ} {B : Type κ} → RelayResult A → (A → RelayResult B) → RelayResult B
ok a >>= f = f a
err e >>= f = err e
panic >>= f = panic

abbrev pub ◌>>◌ {ℓ} : {B : Type ℓ} → RelayResult (Unit {0}) → RelayResult B → RelayResult B
m >> k = m >>= λ _. k

-- `if bad { return Err(e); }`
abbrev pub reject_if : Bool → RelayError → RelayResult (Unit {0})
reject_if true e = err e
reject_if false e = ok tt

-- `ok_or_else`
abbrev pub ok_or {ℓ} : {A : Type ℓ} → Option A → RelayError → RelayResult A
ok_or none e = err e
ok_or (some a) e = ok a

-- `map_err`, on the text of a library's error.
abbrev pub map_err : {A : Type 0} → (String → RelayError) → String ⊎ A → RelayResult A
map_err failure (inl error) = err (failure error)
map_err failure (inr a) = ok a

-- An addition of times that may leave the range.
abbrev pub or_panic {ℓ} : {A : Type ℓ} → Option A → RelayResult A
or_panic none = panic
or_panic (some a) = ok a

abbrev pub is_ok {ℓ} : {A : Type ℓ} → RelayResult A → Bool
is_ok (ok _) = true
is_ok _ = false

pub RelayResult-cases {ℓ} :
    {A : Type ℓ} (r : RelayResult A)
    → ((a : A) × (r ≡ ok a)) ⊎ ((e : RelayError) × (r ≡ err e)) ⊎ (r ≡ panic)
RelayResult-cases (ok a) = inl (a, refl)
RelayResult-cases (err e) = inr (inl (e, refl))
RelayResult-cases panic = inr (inr refl)

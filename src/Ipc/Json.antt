-- ===== src/Ipc/Json.antt =====
-- What the relay uses of `serde_json::Value`. The type of values belongs to the crate.
use rust_supervisor_relay.Base.{ℕ, ◌≡◌, Bool, Option, some, String, HashMap, lookup}

pub record Json (Value : Type 0) : Type 0 where
  pub get : String → Value → Option Value
  pub as_str : Value → Option String
  pub as_bool : Value → Option Bool
  pub as_u64 : Value → Option ℕ
  -- The macro `json!`.
  pub object : HashMap Value → Value
  pub of_str : String → Value
  pub of_bool : Bool → Value
  pub of_u64 : ℕ → Value
  pub null : Value

-- What is put into a value is read from it.
pub record IsLawful {Value : Type 0} (json : Json Value) : Type 0 where
  pub get_object :
      (key : String) (fields : HashMap Value)
      → json.get key (json.object fields) ≡ lookup key fields
  pub as_str_of_str : (s : String) → json.as_str (json.of_str s) ≡ some s
  pub as_bool_of_bool : (b : Bool) → json.as_bool (json.of_bool b) ≡ some b
  pub as_u64_of_u64 : (n : ℕ) → json.as_u64 (json.of_u64 n) ≡ some n

-- ===== src/Registration/Peers.antt =====
-- `owner_identity_from_stream` of src/registration.rs: which peers have the same identity.
use Prim.Native.Nat.{◌/◌}
use Prim.Native.Char.{code}
use native.Mathlib.Numerals.{unary_clauses}
use text.Mathlib.TextLemmas.{append_cancel_left, nil-append, cons-append}
use rust_supervisor_relay.Base.{
  ℕ, zero, suc, ◌+◌, ◌*◌, ◌^◌, ◌%◌, ◌<◌, ◌-◌, ◌≡◌, ◌≢◌, refl, sym, ap, ◌∙◌, inl, inr, Bool, true,
  false, ◌&&◌, Option, none, some, String, ◌<>◌, arith, Bool-cases, leb, ltb,
}
use rust_supervisor_relay.Registration.{digit, decimal, owner_identity_from_stream}

-- The number that a numeral behind another stands for.
read_digits : ℕ → String → ℕ
read_digits n String.[] = n
read_digits n (String.◌∷◌ c s) = read_digits (n * 10 + (code c - b'0')) s

is_numeral : String → Bool
is_numeral String.[] = true
is_numeral (String.◌∷◌ c s) = leb b'0' (code c) && leb (code c) b'9' && is_numeral s

read_digits-append :
    (n : ℕ) (s t : String) → read_digits n (s <> t) ≡ read_digits (read_digits n s) t
unfolding read_digits
read_digits-append n String.[] t = rw (nil-append t) refl
read_digits-append n (String.◌∷◌ c s) t =
    rw (cons-append c s t) (read_digits-append (n * 10 + (code c - b'0')) s t)

is_numeral-append :
    (s t : String) → is_numeral s ≡ true → is_numeral t ≡ true → is_numeral (s <> t) ≡ true
unfolding is_numeral
is_numeral-append String.[] t h k = rw (nil-append t) k
is_numeral-append (String.◌∷◌ c s) t h k =
    rw (cons-append c s t) (ground (arith, is_numeral-append s t))

-- What a digit reads as behind a numeral, and that it is one.
digit_lem :
    (m n : ℕ) → n < 10 → (read_digits m (digit n) ≡ m * 10 + n) × (is_numeral (digit n) ≡ true)
unfolding read_digits is_numeral digit
digit_lem m zero h = (omega arith, refl)
digit_lem m (suc zero) h = (omega arith, refl)
digit_lem m (suc (suc zero)) h = (omega arith, refl)
digit_lem m (suc (suc (suc zero))) h = (omega arith, refl)
digit_lem m (suc (suc (suc (suc zero)))) h = (omega arith, refl)
digit_lem m (suc (suc (suc (suc (suc zero))))) h = (omega arith, refl)
digit_lem m (suc (suc (suc (suc (suc (suc zero)))))) h = (omega arith, refl)
digit_lem m (suc (suc (suc (suc (suc (suc (suc zero))))))) h = (omega arith, refl)
digit_lem m (suc (suc (suc (suc (suc (suc (suc (suc zero)))))))) h = (omega arith, refl)
digit_lem m (suc (suc (suc (suc (suc (suc (suc (suc (suc zero))))))))) h = (omega arith, refl)
digit_lem m (suc (suc (suc (suc (suc (suc (suc (suc (suc (suc n)))))))))) h = absurd (omega arith)

-- A numeral of enough digits reads as the number that it was made from.
decimal_lem :
    (digits n : ℕ)
    → n < 10 ^ digits
    → (read_digits 0 (decimal digits n) ≡ n) × (is_numeral (decimal digits n) ≡ true)
unfolding decimal read_digits is_numeral
decimal_lem zero n h = (omega arith, refl)
decimal_lem (suc digits) n h = elim (Bool-cases (ltb n 10)) [
  | inl e ↦ let (r, m) = digit_lem 0 n (ground arith) in rw e (r ∙ omega arith, m)
  | inr e ↦
      let (r, m) = decimal_lem digits (n / 10) (omega (arith, simp unary_clauses at h)) in
      let (q, d) = digit_lem (n / 10) (n % 10) (omega arith) in
      rw e (
        read_digits-append 0 (decimal digits (n / 10)) (digit (n % 10))
            ∙ ap (λ x. read_digits x (digit (n % 10))) r
            ∙ q
            ∙ omega arith,
        is_numeral-append (decimal digits (n / 10)) (digit (n % 10)) m d,
      )
]

-- The user id of a peer is a `u32`.
abbrev pub IsUid : Option ℕ → Type 0
IsUid none = Unit
IsUid (some uid) = uid < 2 ^ 32

decimal_injective : (m n : ℕ) → m < 2 ^ 32 → n < 2 ^ 32 → decimal 10 m ≡ decimal 10 n → m ≡ n
decimal_injective m n h k e =
    sym (decimal_lem 10 m (omega (arith, h))).0
    ∙ ap (read_digits 0) e
    ∙ (decimal_lem 10 n (omega (arith, k))).0

decimal-ne-unknown : (n : ℕ) → n < 2 ^ 32 → decimal 10 n ≢ "unknown"
unfolding is_numeral
decimal-ne-unknown n h e =
    let m = (decimal_lem 10 n (omega (arith, h))).1 in
    let f : false ≡ true = rw e at m in absurd (ground arith)

-- Peers with the same identity have the same user id, or neither has one.
pub owner_identity_from_stream_injective :
    (m n : Option ℕ)
    → IsUid m
    → IsUid n
    → owner_identity_from_stream m ≡ owner_identity_from_stream n
    → m ≡ n
unfolding owner_identity_from_stream
owner_identity_from_stream_injective none none h k e = refl
owner_identity_from_stream_injective none (some n) h k e =
    absurd
      (decimal-ne-unknown n k (sym (append_cancel_left "unix_uid:" "unknown" (decimal 10 n) e)))
owner_identity_from_stream_injective (some m) none h k e =
    absurd (decimal-ne-unknown m h (append_cancel_left "unix_uid:" (decimal 10 m) "unknown" e))
owner_identity_from_stream_injective (some m) (some n) h k e =
    ap some
      (decimal_injective m n h k (append_cancel_left "unix_uid:" (decimal 10 m) (decimal 10 n) e))

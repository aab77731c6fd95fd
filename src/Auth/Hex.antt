-- ===== src/Auth/Hex.antt =====
-- `as_bytes` and `lowercase_hex` of src/auth.rs.
use Prim.Native.Nat.{◌/◌}
use Prim.Native.Char.{code}
use rust_supervisor_relay.Base.{
  ℕ, zero, suc, ◌+◌, ◌%◌, ◌≡◌, refl, String, ◌<>◌, List, [], ◌∷◌, ◌++◌, ltb, if◌then◌else◌,
}

-- The UTF-8 encoding of a character.
utf8 : ℕ → List ℕ
utf8 c =
    if ltb c 0x80
    then c ∷ []
    else if ltb c 0x800
    then (0xc0 + c / 64) ∷ (0x80 + c % 64) ∷ []
    else if ltb c 0x10000
    then (0xe0 + c / 4096) ∷ (0x80 + c / 64 % 64) ∷ (0x80 + c % 64) ∷ []
    else (0xf0 + c / 262144) ∷ (0x80 + c / 4096 % 64) ∷ (0x80 + c / 64 % 64) ∷ (0x80 + c % 64) ∷ []

-- `str::as_bytes`
unfoldable pub as_bytes : String → List ℕ
unfolding utf8
as_bytes String.[] = []
as_bytes (String.◌∷◌ c s) = utf8 (code c) ++ as_bytes s

digit_at : ℕ → List String → String
digit_at n [] = ""
digit_at zero (d ∷ ds) = d
digit_at (suc n) (d ∷ ds) = digit_at n ds

hex_digit : ℕ → String
unfolding digit_at
hex_digit n = digit_at n (
    "0" ∷ "1" ∷ "2" ∷ "3" ∷ "4" ∷ "5" ∷ "6" ∷ "7" ∷ "8" ∷ "9" ∷ "a" ∷ "b" ∷ "c" ∷ "d" ∷ "e" ∷ "f"
    ∷ [])

-- Each byte as two digits.
unfoldable pub lowercase_hex : List ℕ → String
unfolding hex_digit
lowercase_hex [] = ""
lowercase_hex (byte ∷ bytes) =
    (hex_digit (byte / 16) <> hex_digit (byte % 16)) <> lowercase_hex bytes

lowercase_hex_example : lowercase_hex (0 ∷ 171 ∷ []) ≡ "00ab"
unfolding lowercase_hex
lowercase_hex_example = refl

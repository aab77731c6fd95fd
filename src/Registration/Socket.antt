-- ===== src/Registration/Socket.antt =====
-- `RegistrationListener::bind` of src/registration.rs. The calls of the file system and of the socket
-- are parameters; `u32::from_str_radix` and `trim_start_matches` are the standard library's.
use Prim.Native.Char.{code}
use rust_supervisor_relay.Base.{
  ℕ, zero, suc, ◌+◌, ◌-◌, ◌*◌, ◌^◌, ◌≡◌, refl, ◌⊎◌, inl, inr, Bool, true, false, ◌&&◌, Option, none,
  some, String, ◌<>◌, leb, ltb, eqb, if◌then◌else◌, arith, ap, ◌∙◌,
}
use rust_supervisor_relay.Error.{RelayError, ok, err, new}
use rust_supervisor_relay.Effect.{M, pure, gets, modify, ◌>>=◌, ◌>>◌}
use rust_supervisor_relay.Config.{RegistrationPolicy}

-- `trim_start_matches('0')`
trim_zeros : String → String
trim_zeros String.[] = String.[]
trim_zeros (String.◌∷◌ c s) = if eqb (code c) b'0' then trim_zeros s else String.◌∷◌ c s

-- The digits behind a value; a value outside `u32` is an error.
octal_digits : ℕ → String → Option ℕ
octal_digits value String.[] = some value
octal_digits value (String.◌∷◌ c s) =
    let next = value * 8 + (code c - b'0') in
    let rest = octal_digits next s in
    if leb b'0' (code c) && leb (code c) b'7'
    then (if ltb next (2 ^ 32) then rest else none)
    else none

-- `u32::from_str_radix(text, 8)`, which lets a plus sign stand in front.
unfoldable pub from_octal : String → Option ℕ
unfolding octal_digits
from_octal String.[] = none
from_octal (String.◌∷◌ c String.[]) = octal_digits 0 (String.◌∷◌ c String.[])
from_octal (String.◌∷◌ c (String.◌∷◌ d s)) =
    if eqb (code c) b'+'
    then octal_digits 0 (String.◌∷◌ d s)
    else octal_digits 0 (String.◌∷◌ c (String.◌∷◌ d s))

-- The mode that the text of a policy stands for.
unfoldable pub mode_of : String → Option ℕ
unfolding trim_zeros from_octal
mode_of permissions = from_octal (trim_zeros permissions)

-- The calls, on the state of the system; a failed call gives its error as text.
pub record Sockets (World : Type 0) : Type 0 where
  pub exists : String → World → Bool
  pub remove_file : String → World → (String ⊎ Unit {0}) × World
  pub bind : String → World → (String ⊎ Unit {0}) × World
  -- Whose result is dropped.
  pub set_permissions : String → ℕ → World → World

abbrev remove_failed : String → RelayError
remove_failed error =
    new "registration_socket_remove_failed" "registration_bind" none
      ("old registration socket could not be removed: " <> error) true

abbrev bind_failed : String → RelayError
bind_failed error =
    new "registration_bind_failed" "registration_bind" none
      ("registration socket could not be bound: " <> error) true

module _ {World : Type 0} (sockets : Sockets World) where
  abbrev pub attempt :
      (String → RelayError) → (World → (String ⊎ Unit {0}) × World) → M World (Unit {0})
  attempt failure m w =
      let (r, w') = m w in elim r [ inl error ↦ (err (failure error), w') | inr _ ↦ (ok tt, w') ]

  abbrev set_mode : String → Option ℕ → World → World
  set_mode path none w = w
  set_mode path (some mode) w = sockets.set_permissions path mode w

  unfoldable pub bind_listener : RegistrationPolicy → M World (Unit {0})
  unfolding mode_of
  bind_listener p = do
    present ← gets (sockets.exists p.listen_path)
    if present then attempt remove_failed (sockets.remove_file p.listen_path) else pure tt
    attempt bind_failed (sockets.bind p.listen_path)
    modify (set_mode p.listen_path (mode_of p.permissions))

-- As many zeros.
abbrev pub zeros : ℕ → String
zeros zero = ""
zeros (suc n) = String.◌∷◌ "0" (zeros n)

trim_zeros-zeros : (n : ℕ) → trim_zeros (zeros n) ≡ ""
unfolding trim_zeros
trim_zeros-zeros zero = refl
trim_zeros-zeros (suc n) = trim_zeros-zeros n

mode_of-zeros : (n : ℕ) → mode_of (zeros n) ≡ none
unfolding mode_of from_octal
mode_of-zeros n = rw (trim_zeros-zeros n) refl

module _ {World : Type 0} (sockets : Sockets World) where
  -- Where no old socket stands at the path and binding succeeds, a policy whose permissions are
  -- written by zeros alone binds the socket without ever setting its mode.
  pub bind_listener-zeros :
      (p : RegistrationPolicy) (n : ℕ) (w w' : World)
      → p.permissions ≡ zeros n
      → sockets.exists p.listen_path w ≡ false
      → sockets.bind p.listen_path w ≡ (inr tt, w')
      → bind_listener sockets p w ≡ (ok tt, w')
  unfolding bind_listener
  bind_listener-zeros p n w w' z e b =
      let unset = ap mode_of z ∙ mode_of-zeros n in ground (arith, unset)

  -- A socket that is bound where an old one stands replaces it, and gets the mode that the text of
  -- the policy stands for, where it stands for one.
  pub bind_listener_lem :
      (p : RegistrationPolicy) (mode : ℕ) (w v u : World)
      → mode_of p.permissions ≡ some mode
      → sockets.exists p.listen_path w ≡ true
      → sockets.remove_file p.listen_path w ≡ (inr tt, v)
      → sockets.bind p.listen_path v ≡ (inr tt, u)
      → bind_listener sockets p w ≡ (ok tt, sockets.set_permissions p.listen_path mode u)
  unfolding bind_listener
  bind_listener_lem p mode w v u m e r b = ground arith

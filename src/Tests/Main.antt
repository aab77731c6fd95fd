-- ===== src/Tests/Main.antt =====
-- Runs of the command line and of the registration loop.
use rust_supervisor_relay.Base.{
  ℕ, ◌+◌, ◌≡◌, refl, ◌⊎◌, inl, inr, Bool, true, false, none, some, String, List, [], ◌∷◌, ◌++◌, In,
  ◌==◌, if◌then◌else◌, Option, ◌≢◌, ◌∙◌, subst, arith, lookup,
}
use rust_supervisor_relay.Error.{RelayError, ok, new}
use rust_supervisor_relay.Registration.{
  RegistrationRequest, accept_registration, owner_identity_from_stream, decode_registration_line,
}
use rust_supervisor_relay.Main.Registrations.{
  Turn, run_registration_loop, run_registration_loop_ends,
}
use rust_supervisor_relay.Main.Foreign.{Untouched, IsForeign, run_registration_loop-Untouched}
use rust_supervisor_relay.Registration.Peers.{IsUid}
use rust_supervisor_relay.Config.{RegistrationPolicy}
use rust_supervisor_relay.Registration.Socket.{Sockets, bind_listener, bind_listener-zeros}
use rust_supervisor_relay.Tests.Data.{clock, fs, policy, request, alpha, registry}

-- A system with no old socket, which counts the modes that are set.
abbrev pub sockets : Sockets ℕ
sockets = record {
  exists = λ _ _. false;
  remove_file = λ _ w. (inr tt, w);
  bind = λ _ w. (inr tt, w);
  set_permissions = λ _ _ w. w + 1;
}

abbrev closed_policy : RegistrationPolicy
closed_policy = record policy { permissions = "0000" }

zeros_example : bind_listener sockets closed_policy 5 ≡ (ok tt, 5)
zeros_example = bind_listener-zeros sockets closed_policy 4 5 5 refl refl refl

-- Only the text `alpha` decodes.
abbrev pub from_str : String → String ⊎ RegistrationRequest
from_str s = if s == "alpha" then inr request else inl "expected value"

abbrev pub good_turn : Turn
good_turn = record {
  incoming = inr (record { peer_uid = some 501; line = inr "alpha" });
  now = 1;
  to_vec = λ _. inr "{}";
  write_all = λ _. inr tt;
}

abbrev pub bad_turn : Turn
bad_turn = record {
  incoming = inr (record { peer_uid = some 501; line = inr "not json" });
  now = 2;
  to_vec = λ _. inr "{}";
  write_all = λ _. inr tt;
}

abbrev undecodable : RelayError
undecodable =
    new "invalid_registration_json" "registration_parse" none
      "registration line could not be parsed: expected value" false

ended_example :
    run_registration_loop clock fs from_str (good_turn ∷ bad_turn ∷ good_turn ∷ []) [] registry
    ≡ run_registration_loop clock fs from_str (good_turn ∷ bad_turn ∷ []) [] registry
unfolding accept_registration rust_supervisor_relay.Registration.read_registration_request
    decode_registration_line rust_supervisor_relay.Base.trim
ended_example =
    run_registration_loop_ends clock fs from_str (good_turn ∷ []) (good_turn ∷ []) bad_turn []
      registry undecodable refl

-- Another user, and a peer that is not known, name the target of user 501.
abbrev foreign_turn : Option ℕ → Turn
foreign_turn uid = record good_turn {
  incoming = inr (record { peer_uid = uid; line = inr "alpha" });
}

foreign_turn-IsForeign :
    (uid : Option ℕ)
    → IsUid uid
    → uid ≢ some 501
    → IsForeign clock fs from_str "alpha" 501 (foreign_turn uid)
foreign_turn-IsForeign uid fits other = record {
  user = λ c q i e named.
      let p : uid ≡ c.peer_uid = ground arith in (subst IsUid p fits, λ h. other (p ∙ h));
}

foreign_example :
    Untouched "alpha" registry
      (run_registration_loop clock fs from_str
        (foreign_turn (some 502) ∷ foreign_turn none ∷ [])
        []
        registry).registry
unfolding owner_identity_from_stream lookup
foreign_example =
    run_registration_loop-Untouched clock fs from_str "alpha" alpha 501 (omega arith) refl
      (foreign_turn (some 502) ∷ foreign_turn none ∷ []) [] registry refl
      (
        foreign_turn-IsForeign (some 502) (omega arith) (λ h. ground arith),
        (foreign_turn-IsForeign none tt (λ h. ground arith), tt),
      )

-- ===== src/Ipc/Answers.antt =====
-- What the relay makes of the answers of a target (src/ipc_client.rs).
use rust_supervisor_relay.Base.{
  ℕ, ◌≡◌, refl, ◌↔◌, true, false, some, String, List, [], ◌∷◌, arith, lookup, unwrap_or, inl, inr,
  Option-cases,
}
use rust_supervisor_relay.Error.{ok, RelayResult-cases}
use rust_supervisor_relay.Time.{OffsetDateTime}
use rust_supervisor_relay.Command.{PreparedCommand, ControlCommandResult}
use rust_supervisor_relay.Registry.{TargetProcessRegistration}
use rust_supervisor_relay.Ipc.Json.{Json, IsLawful}
use rust_supervisor_relay.Ipc.Client.{
  Transport, bool_at, response_result, read_state, read_command_result,
}
use rust_supervisor_relay.Ipc.Unix.{
  request_json_blocking, forward_command_request, connect_state, forward_command, state_request,
}

module _ {Value : Type 0} (json : Json Value) where
  -- A response is a success exactly when its `ok` is true and it has a `result`, which is then what
  -- the relay goes on with.
  pub response_result_iff :
      (response result : Value)
      → (response_result json response ≡ ok result)
        ↔ ((bool_at json "ok" response ≡ some true) × (json.get "result" response ≡ some result))
  unfolding response_result
  response_result_iff response result = (λ h. (ground arith, ground arith), λ (a, b). ground arith)

-- The response of a target that reports its state.
abbrev pub state_response : {Value : Type 0} → Json Value → String → Value → Value
state_response json target_id state = json.object (
    ("ok", json.of_bool true)
    ∷ ("result", json.object (("target_id", json.of_str target_id) ∷ ("state", state) ∷ []))
    ∷ [])

module _ {Value : Type 0} (json : Json Value) (l : IsLawful json) where
  response_fields :
      (target_id : String) (state : Value)
      → let response = state_response json target_id state in
        let result = json.object (("target_id", json.of_str target_id) ∷ ("state", state) ∷ []) in
        (json.get "ok" response ≡ some (json.of_bool true))
        × (json.get "result" response ≡ some result)
  unfolding lookup
  response_fields target_id state = (rw (l.get_object "ok") refl, rw (l.get_object "result") refl)

  state_response-result :
      (target_id : String) (state : Value)
      → response_result json (state_response json target_id state)
        ≡ ok (json.object (("target_id", json.of_str target_id) ∷ ("state", state) ∷ []))
  state_response-result target_id state =
      let (succeeded, result) = response_fields target_id state in
      (response_result_iff json (state_response json target_id state) _).1
        (ground (arith, succeeded, l.as_bool_of_bool true), result)

  reported_fields :
      (target_id : String) (state : Value)
      → let result = json.object (("target_id", json.of_str target_id) ∷ ("state", state) ∷ []) in
        (json.get "target_id" result ≡ some (json.of_str target_id))
        × (json.get "state" result ≡ some state)
  unfolding lookup
  reported_fields target_id state =
      (rw (l.get_object "target_id") refl, rw (l.get_object "state") refl)

  read_state-reported :
      (r : TargetProcessRegistration) (now : OffsetDateTime) (target_id : String) (generation : ℕ)
      → (fields : List (String × Value))
      → lookup "state_generation" fields ≡ some (json.of_u64 generation)
      → read_state json r now
          (json.object (("target_id", json.of_str target_id) ∷ ("state", json.object fields) ∷ []))
        ≡ ok (record {
          target_id = target_id;
          state_generation = generation;
          generated_at = now;
          payload = json.object fields;
        })
  unfolding read_state
  read_state-reported r now target_id generation fields g =
      let (named, stated) = reported_fields target_id (json.object fields) in
      ground (
        arith,
        named,
        stated,
        l.get_object "state_generation" fields,
        g,
        l.as_str_of_str target_id,
        l.as_u64_of_u64 generation,
      )

module _ {Value World : Type 0} (json : Json Value) (transport : Transport Value World) where
  -- With a JSON library that reads back what was put in: where a target answers the request for its
  -- state with an object that holds a generation, that object arrives as the payload, with the
  -- generation and under the target id that the response names, whichever target was asked.
  pub connect_state_reported :
      IsLawful json
      → (r : TargetProcessRegistration) (now : OffsetDateTime) (w w' : World)
      → (target_id : String) (generation : ℕ) (fields : List (String × Value))
      → lookup "state_generation" fields ≡ some (json.of_u64 generation)
      → (let (id, asked) = transport.new_v4 w in
          request_json_blocking json transport r.ipc_path
            (state_request json transport id r.target_id)
            asked)
        ≡ (ok (state_response json target_id (json.object fields)), w')
      → connect_state json transport r now w ≡ (
        ok (record {
          target_id = target_id;
          state_generation = generation;
          generated_at = now;
          payload = json.object fields;
        }),
        w',
      )
  unfolding connect_state
  connect_state_reported l r now w w' target_id generation fields g h = ground (
    arith,
    state_response-result json l target_id (json.object fields),
    read_state-reported json l r now target_id generation fields g,
    h,
  )

  -- An answer of a target to a command counts as accepted only where the target says so, and who
  -- requested the command and when it was completed is never taken from the target.
  pub forward_command_lem :
      (r : TargetProcessRegistration) (p : PreparedCommand) (now : OffsetDateTime) (w w' : World)
      → (answer : ControlCommandResult) → forward_command json transport r p now w ≡ (ok answer, w')
      → (answer.requested_by ≡ p.requested_by)
        × (answer.completed_at ≡ now)
        × ((response result said : Value) × (forward_command_request json transport r p now w
              ≡ (ok response, w'))
            × (response_result json response ≡ ok result)
            × (json.get "result" result ≡ some said)
            × (answer.accepted ≡ unwrap_or (bool_at json "accepted" said) false))
  unfolding forward_command read_command_result
  forward_command_lem r p now w w' answer h =
      elim (RelayResult-cases (forward_command_request json transport r p now w).0) [
        | inr (inl (e, a)) ↦ absurd (ground arith)
        | inr (inr a) ↦ absurd (ground arith)
        | inl (response, a) ↦ elim (RelayResult-cases (response_result json response)) [
          | inr (inl (e, b)) ↦ absurd (ground arith)
          | inr (inr b) ↦ absurd (ground arith)
          | inl (result, b) ↦ elim (Option-cases (json.get "result" result)) [
            | inl n ↦ absurd (ground arith)
            | inr (said, n) ↦ (
              ground arith,
              ground arith,
              (response, result, said, ground arith, b, n, ground arith),
            )
          ]
        ]
      ]

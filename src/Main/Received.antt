-- ===== src/Main/Received.antt =====
-- The texts that a dashboard connection of src/main.rs reads.
use rust_supervisor_relay.Base.{
  ◌≡◌, refl, ◌∙◌, sym, ap, inl, inr, ℕ, none, some, String, List, [], ◌∷◌, arith,
}
use rust_supervisor_relay.Error.{RelayResult, ok, ok_or}
use rust_supervisor_relay.Effect.{lift}
use rust_supervisor_relay.Effect.Ends.{Ends, Ends->>=, Ends-weaker, Ends-returned}
use rust_supervisor_relay.Ipc.{TargetIpcPort}
use rust_supervisor_relay.Session.{ClientMessage}
use rust_supervisor_relay.Main.WebSocket.{
  text, binary, ping, pong, frame, close, Incoming, next_text_message, Runtime,
}
use rust_supervisor_relay.Main.Dashboard.{hello_required, Task, on_incoming, receive_first}

-- The texts that a client sends before its stream closes or fails.
unfoldable pub received : Incoming → List String
received [] = []
received (inl error ∷ items) = []
received (inr close ∷ items) = []
received (inr (text (inl error)) ∷ items) = []
received (inr (text (inr t)) ∷ items) = t ∷ received items
received (inr (binary (inl error)) ∷ items) = []
received (inr (binary (inr t)) ∷ items) = t ∷ received items
received (inr ping ∷ items) = received items
received (inr pong ∷ items) = received items
received (inr frame ∷ items) = received items

pub received-some :
    (items : Incoming) (raw : String)
    → (next_text_message items).0 ≡ ok (some raw)
    → received items ≡ raw ∷ received (next_text_message items).1
unfolding received next_text_message
received-some [] raw h = ground arith
received-some (inl error ∷ items) raw h = ground arith
received-some (inr close ∷ items) raw h = ground arith
received-some (inr (text (inl error)) ∷ items) raw h = ground arith
received-some (inr (text (inr t)) ∷ items) raw h = ground arith
received-some (inr (binary (inl error)) ∷ items) raw h = ground arith
received-some (inr (binary (inr t)) ∷ items) raw h = ground arith
received-some (inr ping ∷ items) raw h = received-some items raw h
received-some (inr pong ∷ items) raw h = received-some items raw h
received-some (inr frame ∷ items) raw h = received-some items raw h

pub received-none : (items : Incoming) → (next_text_message items).0 ≡ ok none → received items ≡ []
unfolding received next_text_message
received-none [] h = refl
received-none (inl error ∷ items) h = refl
received-none (inr close ∷ items) h = refl
received-none (inr (text (inl error)) ∷ items) h = refl
received-none (inr (text (inr t)) ∷ items) h = absurd (ground arith)
received-none (inr (binary (inl error)) ∷ items) h = refl
received-none (inr (binary (inr t)) ∷ items) h = absurd (ground arith)
received-none (inr ping ∷ items) h = received-none items h
received-none (inr pong ∷ items) h = received-none items h
received-none (inr frame ∷ items) h = received-none items h

-- The first text, and what was read for it.
pub record Hears {Value World : Type 0} (decode : String → RelayResult ClientMessage)
    (t : Task Value World) (first : ClientMessage) (t' : Task Value World) : Type 0 where
  pub raw : String
  pub texts : received t.incoming ≡ raw ∷ received t'.incoming
  pub decoded : decode raw ≡ ok first
  pub kept : t'.context ≡ t.context

module _ {Value World : Type 0} (runtime : Runtime Value World) (port : TargetIpcPort Value World)
    (decode : String → RelayResult ClientMessage) (new_v4 : ℕ → String) where
  pub receive_first-Hears :
      (t : Task Value World)
      → Ends
          (Hears decode t)
          (λ _ t'. t'.context ≡ t.context)
          (λ t'. t'.context ≡ t.context)
          (receive_first runtime port decode new_v4 t)
  unfolding receive_first
  receive_first-Hears t =
      let Same = λ (t' : Task Value World). t'.context ≡ t.context in
      let next = on_incoming {Value = Value} {World = World} next_text_message t in
      Ends->>= (λ received t'. (next.0 ≡ ok received) × (t' ≡ next.1))
        (on_incoming next_text_message) _ t
        (Ends-weaker next (Ends-returned next) (λ o t' h. h) (λ e t' i. ap (λ x. x.context) i)
          (λ t' i. ap (λ x. x.context) i))
        λ o t' (q, i).
          Ends->>= (λ raw t''. (ok_or o hello_required ≡ ok raw) × (t'' ≡ t'))
            (lift (ok_or o hello_required)) (λ raw. lift (decode raw)) t'
            (Ends-weaker (lift (ok_or o hello_required) t')
              (Ends-returned (lift (ok_or o hello_required) t')) (λ raw t'' h. h)
              (λ e t'' j. ap (λ x. x.context) (j ∙ i)) (λ t'' j. ap (λ x. x.context) (j ∙ i)))
            λ raw t'' (x, j).
              Ends-weaker (lift (decode raw) t'') (Ends-returned (lift (decode raw) t''))
                (λ first t3 (d, k). record {
                  raw = raw;
                  texts =
                      received-some t.incoming raw (ground arith)
                      ∙ ap (λ s. raw ∷ received s.incoming) (sym (k ∙ j ∙ i));
                  decoded = d;
                  kept = ap (λ x. x.context) (k ∙ j ∙ i);
                })
                (λ e t3 k. ap (λ x. x.context) (k ∙ j ∙ i))
                (λ t3 k. ap (λ x. x.context) (k ∙ j ∙ i))

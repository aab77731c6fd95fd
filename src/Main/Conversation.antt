-- ===== src/Main/Conversation.antt =====
-- All that a dashboard connection of src/main.rs says, from the greeting to the last answer.
use rust_supervisor_relay.Base.{
  ◌≡◌, ◌≢◌, refl, ℕ, Bool, true, false, String, List, [], ◌∷◌, ◌++◌, map,
}
use rust_supervisor_relay.Error.{RelayError, RelayResult, ok, err, panic}
use rust_supervisor_relay.Effect.{M}
use rust_supervisor_relay.Effect.Ends.{Ending, Ends}
use rust_supervisor_relay.Ipc.{TargetIpcPort}
use rust_supervisor_relay.Session.{ClientMessage, client_hello, ClientHello, ServerMessage}
use rust_supervisor_relay.Session.Context.{Context}
use rust_supervisor_relay.Session.Protocol.{AreAnswers}
use rust_supervisor_relay.Session.Queue.{IsMute}
use rust_supervisor_relay.Main.WebSocket.{Runtime}
use rust_supervisor_relay.Main.Dashboard.{hello_first, hello_once, Task, on_context}
use rust_supervisor_relay.Main.Wire.{IsWire, frames, IsCut, IsCut-nothing, IsCut-later}
use rust_supervisor_relay.Main.Opening.{IsOpening}

-- A conversation, by what the texts of the client decode to: the greeting comes first; a client that
-- does not say hello gets one error and no more; to a hello the relay says the opening, and then the
-- answers to the texts behind it, in their order.
pub data IsConversation {Value : Type 0} (greeting : ServerMessage Value)
    : List (RelayResult ClientMessage) → List (ServerMessage Value) → Type 0 where
  greeted : IsConversation greeting [] (greeting ∷ [])
  turned_away :
      (first : ClientMessage) (texts : List (RelayResult ClientMessage))
      → ((hello : ClientHello) → first ≢ client_hello hello)
      → IsConversation greeting (ok first ∷ texts) (greeting ∷ ServerMessage.error hello_first ∷ [])
  held :
      {texts : List (RelayResult ClientMessage)} {opening answers : List (ServerMessage Value)}
      → (hello : ClientHello) → IsOpening opening
      → AreAnswers hello_once texts answers
      → IsConversation greeting (ok (client_hello hello) ∷ texts) (greeting ∷ (opening ++ answers))

module _ {Value World A : Type 0} (Q : A → Context Value World → Type 0)
    (E : RelayError → Context Value World → Type 0) (Z : Context Value World → Type 0) where
  on_context-Ending :
      (r : RelayResult A) (c : Context Value World) (t : Task Value World)
      → Ending Q E Z r c
      → Ending
          (λ a t'. Q a t'.context × (t'.incoming ≡ t.incoming))
          (λ e t'. E e t'.context)
          (λ t'. Z t'.context)
          r
          (record t { context = c })
  on_context-Ending (ok a) c t h = (h, refl)
  on_context-Ending (err e) c t h = h
  on_context-Ending panic c t h = h

  -- A step on the context leaves what arrives.
  pub on_context_ends :
      (m : M (Context Value World) A) (t : Task Value World)
      → Ends Q E Z (m t.context)
      → Ends
          (λ a t'. Q a t'.context × (t'.incoming ≡ t.incoming))
          (λ e t'. E e t'.context)
          (λ t'. Z t'.context)
          (on_context m t)
  on_context_ends m t h = record { so = on_context-Ending (m t.context).0 (m t.context).1 t h.so }

module _ {Value World : Type 0} (runtime : Runtime Value World) (wire : World → List String)
    (decode : String → RelayResult ClientMessage) (greeting : ServerMessage Value)
    (b : List String) where
  -- The beginning of a conversation is written, for some of the texts.
  pub record IsSaid (texts : List String) (w : World) : Type 0 where
    pub read : List String
    pub unread : List String
    pub heard : texts ≡ read ++ unread
    pub messages : List (ServerMessage Value)
    pub meant : IsConversation greeting (map decode read) messages
    pub cut : IsCut runtime wire b messages w

  -- A whole conversation is written, for all the texts.
  pub record IsAllSaid (texts : List String) (w : World) : Type 0 where
    pub messages : List (ServerMessage Value)
    pub meant : IsConversation greeting (map decode texts) messages
    pub written : wire w ≡ b ++ frames runtime messages

  abbrev pub Talked : List String → Bool → Task Value World → Type 0
  Talked texts true t = IsAllSaid texts t.context.world
  Talked texts false t = IsSaid texts t.context.world

  abbrev pub Said : List String → Task Value World → Type 0
  Said texts t = IsSaid texts t.context.world

  abbrev pub Talks : List String → RelayResult Bool × Task Value World → Type 0
  Talks texts = Ends (Talked texts) (λ _. Said texts) (Said texts)

module _ {Value World : Type 0} (runtime : Runtime Value World) (greeting : ServerMessage Value)
    (b : List String) where
  abbrev pub after_greeting : List String
  after_greeting = b ++ frames runtime (greeting ∷ [])

module _ {Value World : Type 0} (runtime : Runtime Value World) (wire : World → List String)
    (true_wire : IsWire runtime wire) (port : TargetIpcPort Value World) (mute : IsMute port wire)
    (decode : String → RelayResult ClientMessage) (new_v4 : ℕ → String)
    (greeting : ServerMessage Value) (b : List String) where
  pub IsSaid-greeting :
      (texts : List String) (w : World)
      → IsCut runtime wire b (greeting ∷ []) w
      → IsSaid runtime wire decode greeting b texts w
  IsSaid-greeting texts w h = record {
    read = [];
    unread = texts;
    heard = refl;
    messages = greeting ∷ [];
    meant = greeted;
    cut = h;
  }

  pub only_greeted :
      (texts : List String) (w : World)
      → wire w ≡ (after_greeting runtime greeting b)
      → IsSaid runtime wire decode greeting b texts w
  only_greeted texts w h = IsSaid-greeting texts w (
      IsCut-later runtime wire true_wire b (greeting ∷ []) [] w
        (IsCut-nothing runtime wire true_wire (after_greeting runtime greeting b) [] w h))

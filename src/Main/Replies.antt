-- ===== src/Main/Replies.antt =====
-- What the whole loop of `run_dashboard_session` in src/main.rs answers, text by text.
use rust_supervisor_relay.Base.{
  ◌≡◌, refl, ◌∙◌, sym, ap, inl, inr, ℕ, zero, suc, Bool, true, false, none, some, String, List, [],
  ◌∷◌, ◌++◌, map, subst,
}
use mathlib.Core.List.{append-nil, append_assoc, map-append}
use rust_supervisor_relay.Error.{RelayResult, RelayResult-cases, ok, err, panic}
use rust_supervisor_relay.Effect.Ends.{Ending, Ends, Ends-weaker}
use rust_supervisor_relay.Ipc.{TargetIpcPort}
use rust_supervisor_relay.Session.{ClientMessage, ServerMessage}
use rust_supervisor_relay.Session.Context.{Context}
use rust_supervisor_relay.Session.Protocol.{IsAnswer, AreAnswers, none_left, one_more}
use rust_supervisor_relay.Session.Queue.{IsMute, At}
use rust_supervisor_relay.Main.WebSocket.{Incoming, next_text_message, Runtime}
use rust_supervisor_relay.Main.Dashboard.{hello_once, Task, serve, serve_loop}
use rust_supervisor_relay.Main.Received.{received, received-some, received-none}
use rust_supervisor_relay.Main.Wire
use rust_supervisor_relay.Main.Wire.{IsWire, frames, IsCut, IsCut-nothing, IsCut-later}
use rust_supervisor_relay.Main.Answers.{IsAnswered, IsBroken, serve_answers}

module _ {Value World : Type 0} (runtime : Runtime Value World) (wire : World → List String)
    (decode : String → RelayResult ClientMessage) where
  -- Some of the texts were read, and their answers are written, the last perhaps in part.
  pub record IsBegun (b : List String) (texts : List String) (t : Task Value World) : Type 0 where
    pub read : List String
    pub unread : List String
    pub heard : texts ≡ read ++ unread
    pub answers : List (ServerMessage Value)
    pub meant : AreAnswers hello_once (map decode read) answers
    pub cut : IsCut runtime wire b answers t.context.world

  -- Every text was read and its answer is written.
  pub record IsOver (b : List String) (texts : List String) (t : Task Value World) : Type 0 where
    pub answers : List (ServerMessage Value)
    pub meant : AreAnswers hello_once (map decode texts) answers
    pub written : wire t.context.world ≡ b ++ frames runtime answers

  -- What a loop that returns has said: all, if it came to the end of the stream.
  abbrev pub Spoken : List String → List String → Bool → Task Value World → Type 0
  Spoken b texts true t = IsOver b texts t
  Spoken b texts false t = IsBegun b texts t

module _ {Value World : Type 0} (runtime : Runtime Value World) (wire : World → List String)
    (true_wire : IsWire runtime wire) (decode : String → RelayResult ClientMessage) where
  IsBegun-nothing :
      (b texts : List String) (t : Task Value World)
      → wire t.context.world ≡ b
      → IsBegun runtime wire decode b texts t
  IsBegun-nothing b texts t h = record {
    read = [];
    unread = texts;
    heard = refl;
    answers = [];
    meant = none_left;
    cut = IsCut-nothing runtime wire true_wire b [] t.context.world h;
  }

  IsBegun-later :
      (b texts : List String) (raw : String) (answer : List (ServerMessage Value))
      → (t : Task Value World) → IsAnswer hello_once (decode raw) answer
      → IsBegun runtime wire decode (b ++ frames runtime answer) texts t
      → IsBegun runtime wire decode b (raw ∷ texts) t
  IsBegun-later b texts raw answer t a h = record {
    read = raw ∷ h.read;
    unread = h.unread;
    heard = ap (λ x. raw ∷ x) h.heard;
    answers = answer ++ h.answers;
    meant = one_more a h.meant;
    cut = IsCut-later runtime wire true_wire b answer h.answers t.context.world h.cut;
  }

  Spoken-later :
      (b texts : List String) (raw : String) (answer : List (ServerMessage Value))
      → IsAnswer hello_once (decode raw) answer
      → (ended : Bool) (t : Task Value World)
      → Spoken runtime wire decode (b ++ frames runtime answer) texts ended t
      → Spoken runtime wire decode b (raw ∷ texts) ended t
  Spoken-later b texts raw answer a true t h = record {
    answers = answer ++ h.answers;
    meant = one_more a h.meant;
    written =
        h.written
        ∙ append_assoc b (frames runtime answer) (frames runtime h.answers)
        ∙ ap (λ x. b ++ x) (sym (map-append (Wire.frame runtime) answer h.answers));
  }
  Spoken-later b texts raw answer a false t h = IsBegun-later b texts raw answer t a h

  module _ (port : TargetIpcPort Value World) (mute : IsMute port wire) (new_v4 : ℕ → String) where
    -- A session that ends within the answer to a text.
    broken :
        (b texts : List String) (raw : String) (t : Task Value World)
        → IsBroken runtime wire b (decode raw) t.context
        → IsBegun runtime wire decode b (raw ∷ texts) t
    broken b texts raw t h = elim h.meant [
      | inl a ↦ record {
        read = raw ∷ [];
        unread = texts;
        heard = refl;
        answers = h.answer ++ [];
        meant = one_more a none_left;
        cut = subst (λ x. IsCut runtime wire b x t.context.world) (sym (append-nil h.answer)) h.cut;
      }
      | inr e ↦ record {
        read = [];
        unread = raw ∷ texts;
        heard = refl;
        answers = [];
        meant = none_left;
        cut = subst (λ x. IsCut runtime wire b x t.context.world) e h.cut;
      }
    ]

    -- What follows a text that was served.
    served_on :
        (fuel : ℕ) (b : List String) (raw : String) (items : Incoming)
        → ((b : List String) (t : Task Value World)
            → At wire b [] t.context
            → Ends
                (Spoken runtime wire decode b (received t.incoming))
                (λ _. IsBegun runtime wire decode b (received t.incoming))
                (IsBegun runtime wire decode b (received t.incoming))
                (serve_loop runtime port decode new_v4 fuel t))
        → (r : RelayResult (Unit {0})) (c : Context Value World)
        → Ending
            (λ _. IsAnswered runtime wire b (decode raw))
            (λ _. IsBroken runtime wire b (decode raw))
            (IsBroken runtime wire b (decode raw))
            r
            c
        → let texts = raw ∷ received items in
          let t' : Task Value World = record { context = c; incoming = items } in
          Ends
            (Spoken runtime wire decode b texts)
            (λ _. IsBegun runtime wire decode b texts)
            (IsBegun runtime wire decode b texts)
            (elim r as (λ _. RelayResult Bool × Task Value World) [
              | err e ↦ (err e, t')
              | panic ↦ (panic, t')
              | ok _ ↦ serve_loop runtime port decode new_v4 fuel t'
            ])
    served_on fuel b raw items rest (ok u) c (answer, a, s) =
        let texts = received items in
        Ends-weaker _
          (rest (b ++ frames runtime answer) (record { context = c; incoming = items }) s)
          (Spoken-later b texts raw answer a) (λ e t h. IsBegun-later b texts raw answer t a h)
          (λ t h. IsBegun-later b texts raw answer t a h)
    served_on fuel b raw items rest (err e) c h = record {
      so = broken b (received items) raw (record { context = c; incoming = items }) h;
    }
    served_on fuel b raw items rest panic c h = record {
      so = broken b (received items) raw (record { context = c; incoming = items }) h;
    }

    -- Every text is answered before the next is read, and nothing but the answers is written.
    pub serve_loop_answers :
        (fuel : ℕ) (b : List String) (t : Task Value World)
        → At wire b [] t.context
        → Ends
            (Spoken runtime wire decode b (received t.incoming))
            (λ _. IsBegun runtime wire decode b (received t.incoming))
            (IsBegun runtime wire decode b (received t.incoming))
            (serve_loop runtime port decode new_v4 fuel t)
    unfolding serve_loop
    serve_loop_answers zero b t s = record { so = IsBegun-nothing b _ t s.written }
    serve_loop_answers (suc fuel) b t s =
        elim (RelayResult-cases (next_text_message t.incoming).0) [
          | inr (inl (e, q)) ↦ rw (serve_loop, q) (record { so = IsBegun-nothing b _ _ s.written })
          | inr (inr q) ↦ rw (serve_loop, q) (record { so = IsBegun-nothing b _ _ s.written })
          | inl (none, q) ↦
              rw (serve_loop, q, received-none t.incoming q)
                (record {
                  so = record {
                    answers = [];
                    meant = none_left;
                    written = s.written ∙ sym (append-nil b);
                  };
                })
          | inl (some raw, q) ↦
              let r = serve runtime port decode new_v4 (decode raw) t.context in
              rw (serve_loop, q, received-some t.incoming raw q)
                (served_on fuel b raw (next_text_message t.incoming).1 (serve_loop_answers fuel) r.0
                  r.1
                  (serve_answers runtime wire true_wire port mute decode new_v4 b (decode raw)
                    t.context s).so)
        ]

-- ===== src/Collector/Commit.antt =====
-- What the collector acknowledges, and what it leaves when it does not.
use mathlib.Core.Path.{subst}
use ad_pulse.Prelude.{
  ℕ, suc, ◌+◌, String, ◌≡◌, refl, ap, Bool, true, false, ◌||◌, not, List, [], ◌∷◌, Option, arith,
  length, Result, ok, raise, http_error, ◌==◌, nat_eq, if◌then◌else◌,
}
use ad_pulse.Json.{Value, canonical}
use ad_pulse.Collector.Writer.{
  Producer, Flushed, World, Packet, Acknowledgement, Call, then_call, throw, produce_all,
  packets_from, receipt_ids, errors_of, delivery_of, manifest_of, transaction, conclude, accept,
  has_text,
}
use ad_pulse.Collector.Handler.{Bytes, parse_request, reply, respond, post_events}
use Prim.Native.String.{◌++◌}

length-packets_from :
    (batch_id client : String) (received_at i : ℕ) (events : List Value)
    → length (packets_from batch_id client received_at i events) ≡ length events
unfolding packets_from
length-packets_from batch_id client received_at i [] = refl
length-packets_from batch_id client received_at i (e ∷ l) =
    ap suc (length-packets_from batch_id client received_at (suc i) l)

module _ {B : Type 0} where
  then_call-eq-ok :
      {A C : Type 0} (x : B × Result A) (k : A → Call B C) {b' : B} {c : C}
      → then_call x k ≡ (b', ok c)
      → (a : A) × (b : B) × (x ≡ (b, ok a)) × (k a b ≡ (b', ok c))
  then_call-eq-ok (b, ok a) k e = (a, b, refl, e)
  then_call-eq-ok (b, raise x) k e = absurd (cc)

  guarded :
      {A : Type 0} (t : Bool) (message : String) (b : B) (y : B × Result A) {b' : B} {a : A}
      → (if t then throw message b else y) ≡ (b', ok a)
      → (t ≡ false) × (y ≡ (b', ok a))
  guarded true message b y e = absurd (cc)
  guarded false message b y e = (refl, e)

no_errors : (l : List String) → has_text l ≡ false → l ≡ []
no_errors [] e = refl
no_errors (x ∷ l) e = absurd (cc)

-- The guard after the flush.
flush_guard :
    (remaining n m : ℕ) (errors : List String)
    → (not (remaining == 0) || (has_text errors || not (n == m))) ≡ false
    → (remaining ≡ 0) × (errors ≡ []) × (n ≡ m)
flush_guard remaining n m errors e = (ground arith, no_errors errors (ground arith), ground arith)

module _ {B : Type 0} (producer : Producer B) (sha256 : String → String) (text_of : Value → String)
    (prefix : String) where
  -- The calls of a transaction that went through: all packets were produced and, by the reports of
  -- the flush, delivered; then their manifest was produced, and the last call is the commit.
  abbrev pub IsCommitted : String → String → ℕ → List Packet → B → B → Type 0
  IsCommitted batch_id client received_at packets b b' =
      (f : Flushed) × (b₀ : B) × (b₁ : B) × (b₂ : B) × (b₃ : B) × (producer.begin_transaction b
        ≡ (b₀, ok tt))
      × (produce_all producer sha256 text_of prefix packets b₀ ≡ (b₁, ok tt))
      × (producer.flush b₁ ≡ (b₂, ok f))
      × (f.remaining ≡ 0)
      × (errors_of f.reports ≡ [])
      × (length (delivery_of sha256 packets f.reports) ≡ length packets)
      × (producer.produce (prefix ++ ".receipts") batch_id
            (canonical (
              manifest_of batch_id client received_at packets
                (delivery_of sha256 packets f.reports)))
            b₂
          ≡ (b₃, ok tt))
      × (producer.commit_transaction b₃ ≡ (b', ok tt))

  transaction-IsCommitted :
      (batch_id client : String) (received_at : ℕ) (packets : List Packet) (b : B) {b' : B}
      {m : Value}
      → transaction producer sha256 text_of prefix batch_id client received_at packets b
        ≡ (b', ok m)
      → IsCommitted batch_id client received_at packets b b'
  unfolding transaction
  transaction-IsCommitted batch_id client received_at packets b {b'} {m} e =
      let (_, b₀, e₀, r₀) = then_call-eq-ok (producer.begin_transaction b) _ e in
      let (_, b₁, e₁, r₁) =
        then_call-eq-ok (produce_all producer sha256 text_of prefix packets b₀) _ r₀ in
      let (f, b₂, e₂, r₂) = then_call-eq-ok (producer.flush b₁) _ r₁ in
      let (passed, r₃) = guarded _ _ b₂ _ r₂ in
      let (_, b₃, e₃, r₄) =
        then_call-eq-ok (producer.produce (prefix ++ ".receipts") batch_id _ b₂) _ r₃ in
      let (_, b₄, e₄, r₅) = then_call-eq-ok (producer.commit_transaction b₃) _ r₄ in
      let (left, errors, all) = flush_guard f.remaining _ _ (errors_of f.reports) passed in
      (
        f,
        b₀,
        b₁,
        b₂,
        b₃,
        e₀,
        e₁,
        e₂,
        left,
        errors,
        all,
        e₃,
        subst (λ x. producer.commit_transaction b₃ ≡ (x, ok tt))
            (ap (λ (p : B × Result Value). p.0) r₅) e₄,
      )

  -- The records that an acknowledged request stands for.
  abbrev pub IsAcknowledged :
      String → ℕ → List Value → String → World B → World B → Acknowledgement → Type 0
  IsAcknowledged batch_id received_at events client w w' a =
      let packets = packets_from batch_id client received_at 0 events in
      IsCommitted batch_id client received_at packets w.broker w'.broker
      × (a.accepted ≡ length events)
      × (a.receipt_ids ≡ receipt_ids packets)
      × (w'.accepted ≡ w.accepted + length events)
      × (w'.failed ≡ w.failed)

  -- A transaction that was given up: the broker is what the abort made of some broker.
  abbrev pub IsAborted : World B → World B → Type 0
  IsAborted w w' =
      ((b : B) × (w'.broker ≡ (producer.abort_transaction b).0))
      × (w'.accepted ≡ w.accepted)
      × (w'.failed ≡ w.failed + 1)

  -- How a call of the writer ends.
  abbrev Accepted :
      String → ℕ → List Value → String → World B → World B × Result Acknowledgement → Type 0
  Accepted batch_id received_at events client w (w', ok a) =
      IsAcknowledged batch_id received_at events client w w' a
  Accepted batch_id received_at events client w (w', raise e) = IsAborted w w'

  conclude-Accepted :
      (batch_id : String) (received_at : ℕ) (events : List Value) (client : String) (w : World B)
      (t : B × Result Value)
      → transaction producer sha256 text_of prefix batch_id client received_at
          (packets_from batch_id client received_at 0 events)
          w.broker
        ≡ t
      → Accepted batch_id received_at events client w (
          conclude producer sha256 text_of prefix batch_id received_at
            (packets_from batch_id client received_at 0 events)
            client
            w
            t)
  unfolding conclude
  conclude-Accepted batch_id received_at events client w (b, ok m) e = (
    transaction-IsCommitted batch_id client received_at
        (packets_from batch_id client received_at 0 events) w.broker e,
    length-packets_from batch_id client received_at 0 events,
    refl,
    ap (λ n. w.accepted + n) (length-packets_from batch_id client received_at 0 events),
    refl,
  )
  conclude-Accepted batch_id received_at events client w (b, raise x) e = ((b, refl), refl, refl)

  -- How the handler ends on a request that it parses.
  abbrev pub IsReply :
      String → ℕ → List Value → String → World B → World B × Result Acknowledgement → Type 0
  IsReply batch_id received_at events client w (w', ok a) =
      IsAcknowledged batch_id received_at events client w w' a
  IsReply batch_id received_at events client w (w', raise e) =
      IsAborted w w'
      × (e ≡ http_error 503 "Kafka commit not confirmed; retry with the same business event IDs")

  reply-IsReply :
      (batch_id : String) (received_at : ℕ) (events : List Value) (client : String) (w : World B)
      (r : World B × Result Acknowledgement)
      → Accepted batch_id received_at events client w r
      → IsReply batch_id received_at events client w (reply r)
  unfolding reply
  reply-IsReply batch_id received_at events client w (w', ok a) h = h
  reply-IsReply batch_id received_at events client w (w', raise e) h = (h, refl)

  -- How the handler ends, by what it parses.
  abbrev pub IsHandled :
      String
      → ℕ
      → World B
      → Result (List Value × String)
      → World B × Result Acknowledgement
      → Type 0
  IsHandled batch_id received_at w (raise e) r = r ≡ (w, raise e)
  IsHandled batch_id received_at w (ok (events, client)) r =
      IsReply batch_id received_at events client w r

  respond-IsHandled :
      (batch_id : String) (received_at : ℕ) (p : Result (List Value × String)) (w : World B)
      → IsHandled batch_id received_at w p
          (respond producer sha256 text_of prefix batch_id received_at p w)
  unfolding respond accept
  respond-IsHandled batch_id received_at (raise e) w = refl
  respond-IsHandled batch_id received_at (ok (events, client)) w =
      reply-IsReply batch_id received_at events client w _
        (conclude-Accepted batch_id received_at events client w _ refl)

  -- If the request is refused, then nothing changes and the error is the refusal's. Otherwise, an
  -- acknowledgement counts all of the events and names their receipts, and the calls before it were
  -- those of a transaction: all packets were produced and reported as delivered, without an error or
  -- a message left in the queue, then their manifest was produced, and the commit returned; and
  -- without an acknowledgement, the transaction was aborted, the failure is counted, and the status
  -- is 503.
  pub post_events_lem :
      (loads : Bytes → Option Value) (batch_id : String) (received_at : ℕ) (stream : List Bytes)
      (w : World B)
      → IsHandled batch_id received_at w
          (parse_request loads stream)
          (post_events producer sha256 text_of prefix loads batch_id received_at stream w)
  unfolding post_events
  post_events_lem loads batch_id received_at stream w =
      respond-IsHandled batch_id received_at (parse_request loads stream) w

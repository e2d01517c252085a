-- ===== src/Worker/Sink.antt =====
-- The sink role: `write_batch` as the target of the loop.
use ad_pulse.Prelude.{
  ℕ, zero, suc, String, ◌≡◌, refl, sym, ap, ◌∙◌, Bool, true, false, not, ltb, List, [], ◌∷◌, Option,
  none, some, string_eq, nat_eq, pair_eq, length, Result, ok, raise, ◌>>=◌, >>=-eq-ok, type_error,
  ok-injective, arith, Result-cases, inl, inr, IsAmong, IsAmong-All,
}
use mathlib.Core.Path.{subst}
use ad_pulse.Prelude.Dict.{lookup}
use ad_pulse.Json.{obj, digest}
use ad_pulse.Storage.Sink.{
  Tables, Batch, Write, write_batch, after, identity_of, writes_of, apply_write, batch_from,
  empty_batch, differs, hash_of,
}
use ad_pulse.Storage.Sink as Sink
use ad_pulse.Storage.Sink.Safety.{write_batch_safety, write_batch_keeps}
use ad_pulse.Storage.Sink.Shown.{IsShown, shown_later, after-IsShown, batch_from-Shows}
use ad_pulse.Worker.{Message, Target}

-- `json.loads(m.value())`; what is no object has no `get`.
abbrev pub parsed : Message → Result Sink.Message
parsed m = elim m.value [
  | obj fs ↦
      ok (record { topic = m.topic; partition = m.partition; offset = m.offset; payload = fs })
  | _ ↦ raise (type_error "get")
]

unfoldable pub parse_batch : List Message → Result (List Sink.Message)
parse_batch [] = ok []
parse_batch (m ∷ l) = do one ← parsed m; rest ← parse_batch l; ok (one ∷ rest)

-- The inserts that take effect, and whether that is all of them; one of no rows counts too.
abbrev write_some : Option ℕ → List Write → Tables → Tables × Bool
write_some none writes t = (after (length writes) writes t, true)
write_some (some n) writes t = (after n writes t, not (ltb n (length writes)))

abbrev after_plan : Option ℕ → Tables → Result (List Write) → Tables × Bool
after_plan fault t (raise e) = (t, false)
after_plan fault t (ok writes) = write_some fault writes t

module _ (sha256 : String → String) (prefix : String) where
  -- `target.write_batch(batch)`, with what it leaves if a request raises.
  unfoldable pub write_rows : Option ℕ → List Message → Tables → Tables × Bool
  unfolding parse_batch write_batch
  write_rows fault batch t =
      after_plan fault t (parse_batch batch >>= λ messages. write_batch sha256 prefix t messages)

  -- The hash of the message is among the deliveries and its row is shown.
  abbrev pub IsWritten : Message → Tables → Type 0
  IsWritten m t =
      (p : Sink.Message) × (parsed m ≡ ok p)
      × (lookup (identity_of p) t.deliveries ≡ some (digest sha256 (obj p.payload)))
      × IsShown p t.results t.quality t.receipts

  parse_batch-parsed :
      (batch : List Message) {messages : List Sink.Message}
      → parse_batch batch ≡ ok messages
      → (m : Message) → IsAmong m batch
      → (p : Sink.Message) × (parsed m ≡ ok p) × IsAmong p messages
  unfolding parse_batch
  parse_batch-parsed [] h m among = absurd among
  parse_batch-parsed (k ∷ l) h m among =
      let (one, e₁, r₁) = >>=-eq-ok (parsed k) _ h in
      let (rest, e₂, r₂) = >>=-eq-ok (parse_batch l) _ r₁ in
      elim among [
        | inl q ↦ (
          one,
          ap parsed q ∙ e₁,
          subst (λ (r : List Sink.Message). IsAmong one r) (ok-injective r₂) (inl refl),
        )
        | inr later ↦
            let (p, e, a) = parse_batch-parsed l e₂ m later in
            (p, e, subst (λ (r : List Sink.Message). IsAmong p r) (ok-injective r₂) (inr a))
      ]

  after-all :
      (n : ℕ) (writes : List Write) (t : Tables)
      → ltb n (length writes) ≡ false
      → after n writes t ≡ after (length writes) writes t
  unfolding after
  after-all zero [] t h = refl
  after-all zero (w ∷ l) t h = absurd (ground arith)
  after-all (suc n) [] t h = refl
  after-all (suc n) (w ∷ l) t h = after-all n l (apply_write w t) (ground arith)

  -- A plan that is carried out writes each of its messages.
  plan-IsWritten :
      (messages : List Sink.Message) (t : Tables) {writes : List Write}
      → write_batch sha256 prefix t messages ≡ ok writes
      → (p : Sink.Message) → IsAmong p messages
      → (lookup (identity_of p) (after (length writes) writes t).deliveries
          ≡ some (digest sha256 (obj p.payload)))
        × IsShown p
            (after (length writes) writes t).results
            (after (length writes) writes t).quality
            (after (length writes) writes t).receipts
  unfolding write_batch writes_of after apply_write
  plan-IsWritten messages t {writes} h p among =
      let (b, e₁, e₂) = >>=-eq-ok (batch_from sha256 prefix t messages empty_batch) _ h in
      let all : length (writes_of b) ≡ length writes =
        ap (λ (l : List Write). length l) (ok-injective e₂) in
      (
        subst
            (λ (n : ℕ).
              lookup (identity_of p) (after n writes t).deliveries
              ≡ some (digest sha256 (obj p.payload)))
            all
            (IsAmong-All
              (λ (q : Sink.Message).
                lookup (identity_of q) (after 5 writes t).deliveries
                ≡ some (digest sha256 (obj q.payload)))
              p messages (write_batch_safety sha256 prefix t messages 4 h).1 among),
        subst
            (λ (l : List Write).
              IsShown p (after (length l) l t).results (after (length l) l t).quality
                (after (length l) l t).receipts)
            (ok-injective e₂)
            (shown_later p t.results b.results t.quality b.quality t.receipts b.receipts
              ((batch_from-Shows sha256 prefix t messages empty_batch e₁).1 p among)),
      )

  after_plan-IsWritten :
      (fault : Option ℕ) (messages : List Sink.Message) (t : Tables) (r : Result (List Write))
      → write_batch sha256 prefix t messages ≡ r
      → (after_plan fault t r).1 ≡ true
      → (p : Sink.Message) → IsAmong p messages
      → (lookup (identity_of p) (after_plan fault t r).0.deliveries
          ≡ some (digest sha256 (obj p.payload)))
        × IsShown p
            (after_plan fault t r).0.results
            (after_plan fault t r).0.quality
            (after_plan fault t r).0.receipts
  after_plan-IsWritten fault messages t (raise e) h returned p among = absurd (cc)
  after_plan-IsWritten none messages t (ok writes) h returned p among =
      plan-IsWritten messages t h p among
  after_plan-IsWritten (some n) messages t (ok writes) h returned p among =
      let all = after-all n writes t (ground arith) in
      subst
        (λ (t' : Tables).
          (lookup (identity_of p) t'.deliveries ≡ some (digest sha256 (obj p.payload)))
          × IsShown p t'.results t'.quality t'.receipts)
        (sym all) (plan-IsWritten messages t h p among)

  after_plan-keeps :
      (fault : Option ℕ) (messages : List Sink.Message) (t : Tables) (r : Result (List Write))
      → write_batch sha256 prefix t messages ≡ r
      → (p : Sink.Message)
      → lookup (identity_of p) t.deliveries ≡ some (digest sha256 (obj p.payload))
      → IsShown p t.results t.quality t.receipts
      → (lookup (identity_of p) (after_plan fault t r).0.deliveries
          ≡ some (digest sha256 (obj p.payload)))
        × IsShown p
            (after_plan fault t r).0.results
            (after_plan fault t r).0.quality
            (after_plan fault t r).0.receipts
  after_plan-keeps fault messages t (raise e) h p d s = (d, s)
  after_plan-keeps none messages t (ok writes) h p d s = (
    write_batch_keeps sha256 prefix t messages (length writes) h _ _ d,
    after-IsShown p (length writes) writes t s,
  )
  after_plan-keeps (some n) messages t (ok writes) h p d s =
      (write_batch_keeps sha256 prefix t messages n h _ _ d, after-IsShown p n writes t s)

  pub write_rows-IsWritten :
      (fault : Option ℕ) (batch : List Message) (t : Tables)
      → (write_rows fault batch t).1 ≡ true
      → (m : Message) → IsAmong m batch
      → IsWritten m (write_rows fault batch t).0
  unfolding write_rows
  write_rows-IsWritten fault batch t = elim (Result-cases (parse_batch batch)) [
    | inl (e, h) ↦ rw h (λ returned. absurd (cc))
    | inr (messages, h) ↦ rw h (λ returned m among.
        let (p, e, a) = parse_batch-parsed batch h m among in
        let (d, s) =
          after_plan-IsWritten fault messages t (write_batch sha256 prefix t messages) refl returned
            p a in
        (p, e, d, s))
  ]

  pub write_rows-keeps :
      (fault : Option ℕ) (batch : List Message) (t : Tables) (m : Message)
      → IsWritten m t
      → IsWritten m (write_rows fault batch t).0
  unfolding write_rows
  write_rows-keeps fault batch t m (p, e, d, s) = elim (Result-cases (parse_batch batch)) [
    | inl (x, h) ↦ rw h (p, e, d, s)
    | inr (messages, h) ↦
        let (d', s') =
          after_plan-keeps fault messages t (write_batch sha256 prefix t messages) refl p d s in
        rw h (p, e, d', s')
  ]

  -- The laws of the interface, for the sink.
  abbrev pub sink : Target Tables
  sink = record {
    persist = write_rows;
    holds = IsWritten;
    persists = write_rows-IsWritten;
    keeps = write_rows-keeps;
  }

-- ===== src/Tests/Collector.antt =====
-- adpulse/collector.py over a broker that keeps the messages of the open transaction.
use ad_pulse.Prelude.{
  ℕ, zero, suc, ◌+◌, String, ◌≡◌, refl, List, [], ◌∷◌, Option, none, some, ok, ℕ_discrete,
  String_discrete,
}
use ad_pulse.Json.{Value, arr, obj, end, field, nil, cons, num}
use ad_pulse.Collector.Writer.{Producer, Report, World}
use ad_pulse.Collector.Handler.{Bytes, parse_request, post_events}
use ad_pulse.Collector.Commit.{post_events_lem, IsHandled}

-- The number of messages in the open transaction, and the number of those committed.
abbrev Broker : Type 0
Broker = ℕ × ℕ

reports_of : ℕ → List Report
reports_of zero = []
reports_of (suc n) =
    record { message = n; error = none; topic = "adpulse.raw"; partition = 0; offset = n }
    ∷ reports_of n

abbrev producer : Producer Broker
producer = record {
  begin_transaction = λ b. ((0, b.1), ok tt);
  produce = λ topic key value b. ((b.0 + 1, b.1), ok tt);
  flush = λ b. (b, ok (record { remaining = 0; reports = reports_of b.0 }));
  commit_transaction = λ b. ((0, b.1 + b.0), ok tt);
  abort_transaction = λ b. ((0, b.1), ok tt);
}

abbrev hash : String → String
hash s = s

abbrev text_of : Value → String
text_of v = "event"

abbrev loads : Bytes → Option Value
loads body = some (obj (field "events" (arr (cons (num 1) (cons (obj end) nil))) end))

abbrev world : World Broker
world = record { broker = (0, 0); accepted = 0; failed = 0 }

abbrev body : List Bytes
body = (123 ∷ []) ∷ (125 ∷ []) ∷ []

post_events_lem_example :
    IsHandled producer hash text_of "adpulse" "b" 1000 world
      (parse_request loads body)
      (post_events producer hash text_of "adpulse" loads "b" 1000 body world)
post_events_lem_example = post_events_lem producer hash text_of "adpulse" loads "b" 1000 body world

both_committed :
    (post_events producer hash text_of "adpulse" loads "b" 1000 body world).0.broker ≡ (0, 3)
unfolding post_events reports_of ℕ_discrete String_discrete
both_committed = refl

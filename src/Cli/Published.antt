-- ===== src/Cli/Published.antt =====
-- What the publication of a replay may do to the releases.

use ad_pulse.Prelude.{
  String, ◌≡◌, refl, sym, ap, Bool, not, List, Option, if◌then◌else◌, string_eq, nat_eq, option_eq,
  Result, ok, raise, raise_if-eq-ok, ok-injective, if_both, runtime_error,
}
use ad_pulse.Prelude.Dict.{contains}
use ad_pulse.Json.{Value}
use ad_pulse.Oracle.Event.{Rules}
use ad_pulse.Oracle.Metrics.{Metric}
use ad_pulse.Oracle.Compare.{Snapshot}
use ad_pulse.Releases.{Db, replay as replay_kind, register, mark_failed, topic_of, topic_taken}
use ad_pulse.Names.{valid_release}
use ad_pulse.Releases.Publish.{
  Published, Message, messages, with_retractions, transact, publish_snapshot,
}

register-active_release :
    (sha256 : String → String) (prefix release : String) (rules : Value) (hash : Option String)
    (db : Db) {p : String × Db}
    → register sha256 prefix release rules replay_kind hash 3 db ≡ ok p
    → p.1.active_release ≡ db.active_release
unfolding register
register-active_release sha256 prefix release rules hash db h =
    let (_, r₁) = raise_if-eq-ok (not (valid_release release)) _ _ h in
    let (_, r₂) = raise_if-eq-ok (contains release db.releases) _ _ r₁ in
    let (_, r₃) = raise_if-eq-ok (topic_taken (topic_of prefix release) db.releases) _ _ r₂ in
    sym (ap (λ (p : String × Db). p.1.active_release) (ok-injective r₃))

-- A publication leaves the active release, and what it publishes are the final rows.
abbrev pub Publishes : Db → Snapshot → Published → Type 0
Publishes db final p =
    (p.db.active_release ≡ db.active_release)
    × ((topic : String) → p.result ≡ ok topic → p.snapshot ≡ final)

-- `publish_snapshot` after the registration
abbrev registered :
    Bool
    → (List Message → Bool)
    → (String → String)
    → String
    → String
    → Snapshot
    → Snapshot
    → Db
    → Result (String × Db)
    → Published
registered created commits sha256 prefix release snapshot final db (raise e) = record {
  result = raise e;
  snapshot = snapshot;
  db = db;
}
registered created commits sha256 prefix release snapshot final db (ok (topic, db')) =
    if not created
    then record { result = raise (runtime_error "topic"); snapshot = snapshot; db = db' }
    else transact sha256 prefix created commits release topic final db'

registered-Publishes :
    (created : Bool) (commits : List Message → Bool) (sha256 : String → String)
    (prefix release : String) (snapshot final : Snapshot) (db : Db) (r : Result (String × Db))
    → ((p : String × Db) → r ≡ ok p → p.1.active_release ≡ db.active_release)
    → Publishes db final (registered created commits sha256 prefix release snapshot final db r)
unfolding transact mark_failed
registered-Publishes created commits sha256 prefix release snapshot final db (raise e) k =
    (refl, λ topic h. absurd (cc))
registered-Publishes created commits sha256 prefix release snapshot final db (ok (topic, db')) k =
    let same = k (topic, db') refl in
    if_both (Publishes db final) (not created) _ _ (λ _. (same, λ topic h. absurd (cc)))
      (λ _.
        if_both (Publishes db final) (commits (messages topic final)) _ _
          (λ _. (same, λ topic h. refl)) (λ _. (same, λ topic h. absurd (cc))))

pub publish_snapshot-Publishes :
    (sha256 : String → String) (prefix : String) (created : Bool) (commits : List Message → Bool)
    (release : String) (rules : Rules) (hash : Option String) (baseline : List Metric)
    (snapshot : Snapshot) (db : Db)
    → Publishes db
        (with_retractions release rules baseline snapshot)
        (publish_snapshot sha256 prefix created commits release rules hash baseline snapshot db)
unfolding publish_snapshot
publish_snapshot-Publishes sha256 prefix created commits release rules hash baseline snapshot db =
    registered-Publishes created commits sha256 prefix release snapshot
      (with_retractions release rules baseline snapshot) db
      (register sha256 prefix release rules.document replay_kind hash 3 db)
      (λ p h. register-active_release sha256 prefix release rules.document hash db h)

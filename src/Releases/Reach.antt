-- ===== src/Releases/Reach.antt =====
-- Histories of the release tables: any sequence of successful operations of any callers.
use mathlib.Core.Path.{subst}
use ad_pulse.Prelude.{
  ℕ, String, ◌≡◌, refl, Bool, true, false, ◌||◌, ◌&&◌, not, List, Option, none, some, string_eq,
  option_eq, ok, arith, Bool-cases, Result-cases, inl, inr,
}
use ad_pulse.Prelude.Dict.{lookup, lookup-insert, lookup-update}
use ad_pulse.Json.{Value}
use ad_pulse.Oracle.Event.{Rules}
use ad_pulse.Oracle.Metrics.{Metric}
use ad_pulse.Oracle.Compare.{Snapshot}
use ad_pulse.Releases.{
  building, active, failed, ReleaseKind, Validation, Release, Db, empty_db, replay, new_row,
  register, topic_of, validate_row, mark_validated, retire, Activation, activate, mark_failed,
  can_activate,
}
use ad_pulse.Releases.Consistent.{
  IsConsistent, empty-IsConsistent, register-IsConsistent, mark_validated-IsConsistent,
  activate-IsConsistent, lookup-set_status, lookup-retire, status_of,
}
use ad_pulse.Releases.Publish.{Message, messages, transact, publish_snapshot, with_retractions}

module _ (sha256 : String → String) (prefix : String) where
  -- One operation. `published` is a call of `publish_snapshot`, however it ends.
  pub data Step (db : Db) : Db → Type 0 where
    registered :
        (release : String) (rules : Value) (kind : ReleaseKind) (manifest : Option String) (n : ℕ)
        {t : String} {db' : Db}
        → register sha256 prefix release rules kind manifest n db ≡ ok (t, db')
        → Step db db'
    marked :
        (release : String) (report : Validation) {db' : Db}
        → mark_validated release report db ≡ ok db'
        → Step db db'
    activated :
        (release reason : String) {a : Activation} {db' : Db}
        → activate release reason db ≡ ok (a, db')
        → Step db db'
    published :
        (created : Bool) (commits : List Message → Bool) (release : String) (rules : Rules)
        (manifest : Option String) (baseline : List Metric) (snapshot : Snapshot) {db' : Db}
        → (publish_snapshot sha256 prefix created commits release rules manifest baseline snapshot
            db).db
          ≡ db'
        → Step db db'

  pub data Reach : Db → Type 0 where
    here : Reach empty_db
    next : {db db' : Db} → Reach db → Step db db' → Reach db'

-- A release that the API may serve has a report that passed.
abbrev pub passing : Option Validation → Bool
passing none = false
passing (some v) = v.passed && (v.archive_complete && v.sink_complete)

abbrev pub vetted : Option Release → Bool
vetted none = true
vetted (some r) = not (can_activate (some r)) || passing r.report

-- The invariant of the histories.
pub record IsSound (db : Db) : Type 0 where
  pub consistent : IsConsistent db
  pub vetted_all : (k : String) → vetted (lookup k db.releases) ≡ true

module _ (sha256 : String → String) (prefix : String) where
  register-IsSound :
      (release : String) (rules : Value) (kind : ReleaseKind) (manifest : Option String) (n : ℕ)
      (db : Db) {t : String} {db' : Db}
      → IsSound db
      → register sha256 prefix release rules kind manifest n db ≡ ok (t, db')
      → IsSound db' × (status_of (lookup release db'.releases) ≡ some building)
  unfolding register
  register-IsSound release rules kind manifest n db h e =
      let row = new_row sha256 prefix (topic_of prefix release) rules kind manifest n in
      (
        record {
          consistent =
              register-IsConsistent sha256 prefix release rules kind manifest n db h.consistent e;
          vetted_all = λ k. ground (arith, h.vetted_all k, lookup-insert k release row db.releases);
        },
        ground (arith, lookup-insert release release row db.releases),
      )

mark_validated-IsSound :
    (release : String) (report : Validation) (db : Db) {db' : Db}
    → IsSound db
    → mark_validated release report db ≡ ok db'
    → IsSound db'
unfolding mark_validated
mark_validated-IsSound release report db h e = record {
  consistent = mark_validated-IsConsistent release report db h.consistent e;
  vetted_all = λ k.
      ground (arith, h.vetted_all k, lookup-update k release (validate_row report) db.releases);
}

activate-IsSound :
    (release reason : String) (db : Db) {a : Activation} {db' : Db}
    → IsSound db
    → activate release reason db ≡ ok (a, db')
    → IsSound db'
unfolding activate
activate-IsSound release reason db h e = record {
  consistent = activate-IsConsistent release reason db h.consistent e;
  vetted_all = λ k. ground (
    arith,
    h.vetted_all k,
    h.consistent.pointer k,
    lookup-set_status k active release (retire db.active_release db.releases),
    lookup-retire k db.active_release db.releases,
  );
}

-- A release that is being built is not the active one, so it may fail.
mark_failed-IsSound :
    (release : String) (db : Db)
    → IsSound db
    → status_of (lookup release db.releases) ≡ some building
    → IsSound (mark_failed release db)
unfolding mark_failed
mark_failed-IsSound release db h b = record {
  consistent = record {
    pointer =
        λ k. ground (arith, h.consistent.pointer k, lookup-set_status k failed release db.releases);
    trail = h.consistent.trail;
  };
  vetted_all = λ k. ground (arith, h.vetted_all k, lookup-set_status k failed release db.releases);
}

module _ (sha256 : String → String) (prefix : String) where
  transact-IsSound :
      (created : Bool) (commits : List Message → Bool) (release topic : String)
      (snapshot : Snapshot) (db : Db)
      → IsSound db
      → status_of (lookup release db.releases) ≡ some building
      → IsSound (transact sha256 prefix created commits release topic snapshot db).db
  unfolding transact
  transact-IsSound created commits release topic snapshot db h b =
      elim (Bool-cases (commits (messages topic snapshot))) [
        | inl sent ↦ rw sent h
        | inr lost ↦ rw lost (mark_failed-IsSound release db h b)
      ]

  publish_snapshot-IsSound :
      (created : Bool) (commits : List Message → Bool) (release : String) (rules : Rules)
      (manifest : Option String) (baseline : List Metric) (snapshot : Snapshot) (db : Db)
      → IsSound db
      → IsSound
          (publish_snapshot sha256 prefix created commits release rules manifest baseline snapshot
            db).db
  unfolding publish_snapshot
  publish_snapshot-IsSound created commits release rules manifest baseline snapshot db h =
      elim (Result-cases (register sha256 prefix release rules.document replay manifest 3 db)) [
        | inl (e, failed_with) ↦ rw (failed_with, publish_snapshot) h
        | inr ((topic, db'), done) ↦
            let (h', b) =
              register-IsSound sha256 prefix release rules.document replay manifest 3 db h done in
            elim (Bool-cases created) [
              | inl topic_there ↦
                  rw (done, publish_snapshot, topic_there)
                    (transact-IsSound created commits release topic
                      (with_retractions release rules baseline snapshot) db' h' b)
              | inr no_topic ↦ rw (done, publish_snapshot, no_topic) h'
            ]
      ]

  Step-IsSound : {db db' : Db} → Step sha256 prefix db db' → IsSound db → IsSound db'
  Step-IsSound {db} (registered release rules kind manifest n e) h =
      (register-IsSound sha256 prefix release rules kind manifest n db h e).0
  Step-IsSound {db} (marked release report e) h = mark_validated-IsSound release report db h e
  Step-IsSound {db} (activated release reason e) h = activate-IsSound release reason db h e
  Step-IsSound {db} (published created commits release rules manifest baseline snapshot e) h =
      subst IsSound e
        (publish_snapshot-IsSound created commits release rules manifest baseline snapshot db h)

  -- After any history of registrations, publications (failed ones too), validations and
  -- activations: a release is active exactly if the pointer names it, the audit trail leads from
  -- nothing to the pointer, each entry starting where the one before it ended, and every release
  -- that is validated, active or retired has a report that passed with a complete archive and sink.
  pub Reach-IsSound : {db : Db} → Reach sha256 prefix db → IsSound db
  unfolding lookup
  Reach-IsSound here = record { consistent = empty-IsConsistent; vetted_all = λ k. refl }
  Reach-IsSound (next r s) = Step-IsSound s (Reach-IsSound r)

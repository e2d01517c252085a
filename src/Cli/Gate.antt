-- ===== src/Cli/Gate.antt =====
-- What a replay may do to the releases, whatever the services answer.
use mathlib.Core.Path.{subst}
use mathlib.Core.Bool.{true≢false}
use ad_pulse.Prelude.{
  String, ◌≡◌, refl, sym, ap, ◌∙◌, Bool, true, false, ◌&&◌, ◌||◌, not, List, [], some,
  if◌then◌else◌, string_eq, nat_eq, option_eq, Result, ok, raise, >>=-eq-ok, raise_if-eq-ok,
  ok-injective, arith, inl, ◌⊎◌, if_both, All, Exception, raise_if,
}
use ad_pulse.Json.{Fields, Value, canonical, digest}
use Prim.Native.String.{◌++◌ as str_append}
use ad_pulse.Archive.Reconcile.Complete.{IsCovered, reconcile_complete}
use ad_pulse.Archive.Reconcile.{Archived, Coverage, manifests_of, add_all, reconcile}
use ad_pulse.Archive.Objects.{Objects, put}
use ad_pulse.Archive.Verified.{verified_records}
use ad_pulse.Dimensions.{archived_dimensions}
use ad_pulse.Oracle.Event.{Rules}
use ad_pulse.Oracle.Metrics.{Metric}
use ad_pulse.Oracle.Calculate.{Output}
use ad_pulse.Oracle.Compare.{Snapshot}
use ad_pulse.Reconciliation.Run.{receipt_ids}
use ad_pulse.Releases.{Db}
use ad_pulse.Releases.Publish.{with_retractions, publish_snapshot}
use ad_pulse.Cli.State.{Arguments, Services, World, Source, check_arguments}
use ad_pulse.Cli.Read.{is_empty, packets_of, keyed_packets, read_archive, read_source}
use ad_pulse.Cli.Release.{Report, baseline_of, publish_output, release_output, first_report}
use ad_pulse.Cli.Replay.{
  calculate_source, with_output, with_source, with_rules, when_checked, replay,
}
use ad_pulse.Cli.Gated.{IsVisible, Gated, raise-Gated, after_publication-Gated}
use ad_pulse.Cli.Published.{publish_snapshot-Publishes}

if_true : {A : Type 0} {b : Bool} (x y : A) → b ≡ true → (if b then x else y) ≡ x
if_true {b} x y h = subst (λ (c : Bool). (if c then x else y) ≡ x) (sym h) refl

published_s3 : (p s : Bool) (e : Exception) → raise_if (p && not s) e ≡ ok tt → p ≡ true → s ≡ true
published_s3 p s e h q = ground arith

published-from_s3 :
    (args : Arguments) → check_arguments args ≡ ok tt → args.publish ≡ true → args.from_s3 ≡ true
unfolding check_arguments
published-from_s3 args h p =
    let (_, r₁) =
      raise_if-eq-ok ((args.has_input && args.from_s3) || not (args.has_input || args.from_s3)) _ _
        h in
    let (_, r₂) = raise_if-eq-ok (args.activates && not args.publish) _ _ r₁ in
    published_s3 args.publish args.from_s3 _ r₂ p

module _ (sha256 : String → String) (loads : String → Result Value) (prefix : String)
    (errors : Value → List String) where
  abbrev final_of : Arguments → Rules → Output → List Metric → Snapshot
  final_of args rules output baseline =
      with_retractions args.release rules baseline
        (record { metrics = output.metrics; associations = output.associations })

  -- The snapshot with the retractions of what the active release shows has been seen.
  abbrev IsSeen : Arguments → Rules → Services → Output → Db → Type 0
  IsSeen args rules services output db =
      (baseline : List Metric) × (baseline_of services db.active_release ≡ ok baseline)
      × IsVisible (final_of args rules output baseline) services.views

  publish_output-Gated :
      (V : Type 0) (args : Arguments) (rules : Rules) (services : Services) (source : Source)
      (output : Output) (r : Result (List Metric)) (db : Db)
      → args.publish ≡ true
      → ((baseline : List Metric)
          → r ≡ ok baseline
          → IsVisible (final_of args rules output baseline) services.views
          → V)
      → Gated V args db
          (publish_output sha256 prefix args rules services source output r db).0
          (publish_output sha256 prefix args rules services source output r db).1
  unfolding publish_output
  publish_output-Gated V args rules services source output (raise e) db p v =
      raise-Gated V args db e
  publish_output-Gated V args rules services source output (ok baseline) db p v =
      let snapshot : Snapshot = record {
        metrics = output.metrics;
        associations = output.associations;
      } in
      let published =
        publish_snapshot sha256 prefix services.creates services.commits args.release rules
          (some source.manifest_hash) baseline snapshot db in
      let (same, final) =
        publish_snapshot-Publishes sha256 prefix services.creates services.commits args.release
          rules (some source.manifest_hash) baseline snapshot db in
      after_publication-Gated V args services (first_report sha256 prefix args rules source)
        published db
        (λ topic f seen.
          v baseline refl
            (subst (λ (x : Snapshot). IsVisible x services.views) (final topic f) seen))
        p same

  release_output-Gated :
      (V : Type 0) (args : Arguments) (rules : Rules) (services : Services) (source : Source)
      (output : Output) (db : Db)
      → (args.publish ≡ true → IsSeen args rules services output db → V)
      → Gated V args db
          (release_output sha256 prefix args rules services source output db).0
          (release_output sha256 prefix args rules services source output db).1
  unfolding release_output
  release_output-Gated V args rules services source output db v =
      if_both (λ (x : Result Report × Db). Gated V args db x.0 x.1) args.publish _ _
        (λ p.
          publish_output-Gated V args rules services source output
            (baseline_of services db.active_release) db p
            (λ baseline e seen. v p (baseline, e, seen)))
        (λ n. (λ h. refl, (inl refl, λ report h p. absurd (true≢false (sym p ∙ n)))))

  -- What stands behind a release that was validated: the rows that were verified, the receipts that
  -- were acknowledged, their complete coverage, and the snapshot that was computed and is visible.
  pub record IsVerified (args : Arguments) (services : Services) (w : World) : Type 0 where
    rules : Rules
    rows : List Archived
    queried : List Fields
    lineage : List Fields
    ids : List String
    coverage : Coverage
    source : Source
    output : Output
    loaded : services.rules ≡ ok rules
    verified : verified_records sha256 loads w.objects ≡ ok rows
    answered : (services.acknowledged ≡ ok queried) × (services.lineage ≡ ok lineage)
    acknowledged : receipt_ids queried ≡ ok ids
    reconciled : reconcile sha256 rows lineage (add_all ids []) ≡ ok coverage
    complete : (coverage.archive_complete ≡ true) × (coverage.lineage_complete ≡ true)
    covered : All (IsCovered sha256 rows) (manifests_of rows)
    reported : source.coverage ≡ some coverage
    calculated : calculate_source sha256 loads prefix errors args rules source ≡ ok output
    visible : IsSeen args rules services output w.db

  -- What reading the archive has shown.
  record IsRead (rules : Rules) (services : Services) (objects : Objects) (source : Source)
      : Type 0 where
    rows : List Archived
    queried : List Fields
    lineage : List Fields
    ids : List String
    coverage : Coverage
    verified : verified_records sha256 loads objects ≡ ok rows
    answered : (services.acknowledged ≡ ok queried) × (services.lineage ≡ ok lineage)
    acknowledged : receipt_ids queried ≡ ok ids
    reconciled : reconcile sha256 rows lineage (add_all ids []) ≡ ok coverage
    complete : (coverage.archive_complete ≡ true) × (coverage.lineage_complete ≡ true)
    reported : source.coverage ≡ some coverage

  read_archive-IsRead :
      (rules : Rules) (services : Services) (objects : Objects) {p : Source × Objects}
      → read_archive sha256 loads rules services objects ≡ ok p
      → IsRead rules services objects p.0
  unfolding read_archive
  read_archive-IsRead rules services objects h =
      let (rows, e₁, r₁) = >>=-eq-ok (verified_records sha256 loads objects) _ h in
      let (queried, a₁, q₁) = >>=-eq-ok services.acknowledged _ r₁ in
      let (_, r₂) = raise_if-eq-ok (is_empty queried) _ _ q₁ in
      let (ids, e₃, r₃) = >>=-eq-ok (receipt_ids queried) _ r₂ in
      let (lineage, a₂, q₂) = >>=-eq-ok services.lineage _ r₃ in
      let (coverage, e₄, r₄) = >>=-eq-ok (reconcile sha256 rows lineage (add_all ids [])) _ q₂ in
      let (complete, r₅) =
        raise_if-eq-ok (not coverage.archive_complete || not coverage.lineage_complete) _ _ r₄ in
      let (selected, _, r₆) = >>=-eq-ok (packets_of (add_all ids []) rows) _ r₅ in
      let (packets, _, r₇) = >>=-eq-ok (keyed_packets selected) _ r₆ in
      let (dimensions, _, r₈) = >>=-eq-ok (archived_dimensions loads rows) _ r₇ in
      let (objects', _, r₉) =
        >>=-eq-ok
          (put (str_append "rules/" (str_append (digest sha256 rules.document) ".json"))
            (canonical rules.document) objects)
          _ r₈ in
      record {
        rows = rows;
        queried = queried;
        lineage = lineage;
        ids = ids;
        coverage = coverage;
        verified = e₁;
        answered = (a₁, a₂);
        acknowledged = e₃;
        reconciled = e₄;
        complete = (ground arith, ground arith);
        reported = sym (ap (λ (p : Source × Objects). p.0.coverage) (ok-injective r₉));
      }

  with_output-Gated :
      (V : Type 0) (args : Arguments) (rules : Rules) (services : Services) (source : Source)
      (r : Result Output) (db : Db)
      → ((output : Output)
          → r ≡ ok output
          → args.publish ≡ true
          → IsSeen args rules services output db
          → V)
      → Gated V args db
          (with_output sha256 loads prefix errors args rules services source r db).0
          (with_output sha256 loads prefix errors args rules services source r db).1
  unfolding with_output
  with_output-Gated V args rules services source (raise e) db v = raise-Gated V args db e
  with_output-Gated V args rules services source (ok output) db v =
      release_output-Gated V args rules services source output db (v output refl)

  with_source-Gated :
      (V : Type 0) (args : Arguments) (rules : Rules) (services : Services)
      (r : Result (Source × Objects)) (w : World)
      → ((p : Source × Objects) (output : Output)
          → r ≡ ok p
          → calculate_source sha256 loads prefix errors args rules p.0 ≡ ok output
          → args.publish ≡ true
          → IsSeen args rules services output w.db
          → V)
      → Gated V args w.db
          (with_source sha256 loads prefix errors args rules services r w).0
          (with_source sha256 loads prefix errors args rules services r w).1.db
  unfolding with_source
  with_source-Gated V args rules services (raise e) w v = raise-Gated V args w.db e
  with_source-Gated V args rules services (ok (source, objects)) w v =
      with_output-Gated V args rules services source
        (calculate_source sha256 loads prefix errors args rules source) w.db
        (λ output e. v (source, objects) output refl e)

  with_rules-Gated :
      (args : Arguments) (services : Services) (r : Result Rules) (w : World)
      → services.rules ≡ r
      → (args.publish ≡ true → args.from_s3 ≡ true)
      → Gated
          (IsVerified args services w)
          args
          w.db
          (with_rules sha256 loads prefix errors args services r w).0
          (with_rules sha256 loads prefix errors args services r w).1.db
  unfolding with_rules read_source
  with_rules-Gated args services (raise e) w loaded s3 =
      raise-Gated (IsVerified args services w) args w.db e
  with_rules-Gated args services (ok rules) w loaded s3 =
      with_source-Gated (IsVerified args services w) args rules services
        (read_source sha256 loads args rules services w.objects) w
        (λ (source, objects) output e calculated published visible.
          let read =
            read_archive-IsRead rules services w.objects (sym (if_true _ _ (s3 published)) ∙ e) in
          let (_, _, covered) =
            reconcile_complete sha256 read.rows read.lineage (add_all read.ids [])
              read.reconciled in
          record {
            rules = rules;
            rows = read.rows;
            queried = read.queried;
            lineage = read.lineage;
            ids = read.ids;
            coverage = read.coverage;
            source = source;
            output = output;
            loaded = loaded;
            verified = read.verified;
            answered = read.answered;
            acknowledged = read.acknowledged;
            reconciled = read.reconciled;
            complete = read.complete;
            covered = covered read.complete.0;
            reported = read.reported;
            calculated = calculated;
            visible = visible;
          })

  when_checked-Gated :
      (args : Arguments) (services : Services) (r : Result (Unit {0})) (w : World)
      → (r ≡ ok tt → args.publish ≡ true → args.from_s3 ≡ true)
      → Gated
          (IsVerified args services w)
          args
          w.db
          (when_checked sha256 loads prefix errors args services r w).0
          (when_checked sha256 loads prefix errors args services r w).1.db
  unfolding when_checked
  when_checked-Gated args services (raise e) w k =
      raise-Gated (IsVerified args services w) args w.db e
  when_checked-Gated args services (ok u) w k =
      with_rules-Gated args services services.rules w refl (k refl)

  -- Whatever the services answer: without `--publish` a replay leaves the tables of the releases;
  -- the active release stays, or `--activate` was given and it is the one of the replay; and if it
  -- has changed, or the replay with `--publish` returns, then the archive was verified and covers
  -- every acknowledged receipt, all of them are classified, and ClickHouse has shown the snapshot
  -- that was calculated.
  pub replay_gate :
      (args : Arguments) (services : Services) (w : World)
      → (args.publish ≡ false → (replay sha256 loads prefix errors args services w).1.db ≡ w.db)
        × ((((replay sha256 loads prefix errors args services w).1.db.active_release
                ≡ w.db.active_release)
              ⊎ ((args.activates ≡ true)
                  × (((replay sha256 loads prefix errors args services w).1.db.active_release
                        ≡ some args.release)
                      × IsVerified args services w)))
            × ((report : Report)
                → (replay sha256 loads prefix errors args services w).0 ≡ ok report
                → args.publish ≡ true
                → IsVerified args services w))
  unfolding replay
  replay_gate args services w =
      when_checked-Gated args services (check_arguments args) w (published-from_s3 args)

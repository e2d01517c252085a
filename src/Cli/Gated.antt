-- ===== src/Cli/Gated.antt =====
-- What the end of a replay may do to the releases: the validation and the activation.
use mathlib.Core.Path.{subst}
use mathlib.Core.Bool.{true≢false}
use ad_pulse.Prelude.{
  String, ◌≡◌, refl, sym, ap, ◌∙◌, true, false, ◌&&◌, not, List, [], ◌∷◌, some, ◌==◌, string_eq,
  nat_eq, option_eq, length, Result, ok, raise, raise_if-eq-ok, ok-injective, arith, Bool-cases,
  Result-cases, inl, inr, ◌⊎◌, IsAmong,
}
use ad_pulse.Prelude.Dict.{lookup}
use ad_pulse.Oracle.Compare.{Snapshot, compare}
use ad_pulse.Oracle.Compare as Compare
use ad_pulse.Releases.{Db, mark_validated, activate, switch, can_activate, building_at, Activation}
use ad_pulse.Names.{is_blank}
use ad_pulse.Releases.Publish.{Published, wait_for_snapshot}
use ad_pulse.Cli.State.{Arguments, Services}
use ad_pulse.Cli.Release.{
  Report, validation_of, finish, after_validation, validate_with, after_publication,
}

-- One of the views has the facts of the snapshot and as many metrics.
abbrev pub IsVisible : Snapshot → List Snapshot → Type 0
IsVisible snapshot views =
    (view : Snapshot) × (IsAmong view views
      × (((compare snapshot view).passed ≡ true) × (length view.metrics ≡ length snapshot.metrics)))

wait_for_snapshot-IsVisible :
    (snapshot : Snapshot) (views : List Snapshot) {report : Compare.Report}
    → wait_for_snapshot snapshot views ≡ ok report
    → IsVisible snapshot views
unfolding wait_for_snapshot
wait_for_snapshot-IsVisible snapshot [] h = absurd (cc)
wait_for_snapshot-IsVisible snapshot (view ∷ views) h =
    elim (Bool-cases
      ((compare snapshot view).passed && length view.metrics == length snapshot.metrics)) [
        | inl t ↦ (view, (inl refl, (ground arith, ground arith)))
        | inr f ↦
            let (v, (m, q)) = wait_for_snapshot-IsVisible snapshot views (rw f at h) in
            (v, (inr m, q))
      ]

-- What is said of an end of the command with the tables from before it, if `V` is what a
-- publication has to have shown.
abbrev pub Gated : Type 0 → Arguments → Db → Result Report → Db → Type 0
Gated V args db r db' =
    (args.publish ≡ false → db' ≡ db)
    × (((db'.active_release ≡ db.active_release)
          ⊎ ((args.activates ≡ true) × ((db'.active_release ≡ some args.release) × V)))
        × ((report : Report) → r ≡ ok report → args.publish ≡ true → V))

pub raise-Gated : (V : Type 0) (args : Arguments) (db : Db) (e : _) → Gated V args db (raise e) db
raise-Gated V args db e = (λ h. refl, (inl refl, λ report h. absurd (cc)))

activate-active_release :
    (release reason : String) (db : Db) {p : _}
    → activate release reason db ≡ ok p
    → p.1.active_release ≡ some release
unfolding activate switch
activate-active_release release reason db h =
    let (_, r₁) = raise_if-eq-ok (is_blank reason) _ _ h in
    let (_, r₂) = raise_if-eq-ok (not (can_activate (lookup release db.releases))) _ _ r₁ in
    elim (Bool-cases (db.active_release == some release)) [
      | inl t ↦
          let same : db.active_release ≡ some release = ground arith in
          sym (ap (λ (p : Activation × Db). p.1.active_release) (ok-injective (rw t at r₂))) ∙ same
      | inr f ↦ sym (ap (λ (p : Activation × Db). p.1.active_release) (ok-injective (rw f at r₂)))
    ]

mark_validated-active_release :
    (release : String) (v : _) (db : Db) {db' : Db}
    → mark_validated release v db ≡ ok db'
    → db'.active_release ≡ db.active_release
unfolding mark_validated
mark_validated-active_release release v db h =
    let (_, r₁) =
      raise_if-eq-ok (not (v.passed && (v.archive_complete && v.sink_complete))) _ _ h in
    let (_, r₂) = raise_if-eq-ok (not (building_at (lookup release db.releases))) _ _ r₁ in
    sym (ap (λ (d : Db). d.active_release) (ok-injective r₂))

finish-Gated :
    (V : Type 0) (args : Arguments) (report : Report) (before db : Db)
    → V
    → args.publish ≡ true
    → db.active_release ≡ before.active_release
    → Gated V args before (finish args report db).0 (finish args report db).1
unfolding finish
finish-Gated V args report before db v p same = elim (Bool-cases args.activates) [
  | inl a ↦ elim (Result-cases (activate args.release "verified full archive replay" db)) [
    | inl (e, f) ↦
        rw (a, f) (λ h. absurd (true≢false (sym p ∙ h)), (inl same, λ report h. absurd (cc)))
    | inr (q, f) ↦
        rw (a, f)
          (
            λ h. absurd (true≢false (sym p ∙ h)),
            (inr (refl, (activate-active_release args.release _ db f, v)), λ report h _. v),
          )
  ]
  | inr n ↦ rw n (λ h. absurd (true≢false (sym p ∙ h)), (inl same, λ report h _. v))
]

validate_with-Gated :
    (V : Type 0) (args : Arguments) (report : Report) (r : Result Compare.Report) (before db : Db)
    → ((sink : Compare.Report) → r ≡ ok sink → V)
    → args.publish ≡ true
    → db.active_release ≡ before.active_release
    → Gated V args before (validate_with args report r db).0 (validate_with args report r db).1
unfolding validate_with after_validation
validate_with-Gated V args report (raise e) before db v p same =
    (λ h. absurd (true≢false (sym p ∙ h)), (inl same, λ report h. absurd (cc)))
validate_with-Gated V args report (ok sink) before db v p same =
    let next = record report { sink = some sink } in
    let r = mark_validated args.release (validation_of report sink) db in
    elim (Result-cases r) [
      | inl (e, f) ↦
          subst
            (λ (x : Result Db).
              Gated V args before (after_validation args next db x).0
                (after_validation args next db x).1)
            (sym f) (λ h. absurd (true≢false (sym p ∙ h)), (inl same, λ report h. absurd (cc)))
      | inr (db', f) ↦
          subst
            (λ (x : Result Db).
              Gated V args before (after_validation args next db x).0
                (after_validation args next db x).1)
            (sym f)
            (finish-Gated V args next before db' (v sink refl) p
              (mark_validated-active_release args.release (validation_of report sink) db f ∙ same))
    ]

pub after_publication-Gated :
    (V : Type 0) (args : Arguments) (services : Services) (report : Report) (published : Published)
    (before : Db)
    → ((topic : String)
        → published.result ≡ ok topic
        → IsVisible published.snapshot services.views
        → V)
    → args.publish ≡ true
    → published.db.active_release ≡ before.active_release
    → Gated V args before
        (after_publication args services report published).0
        (after_publication args services report published).1
unfolding after_publication
after_publication-Gated V args services report published before v p same =
    elim (Result-cases published.result) [
      | inl (e, f) ↦
          rw f (λ h. absurd (true≢false (sym p ∙ h)), (inl same, λ report h. absurd (cc)))
      | inr (topic, f) ↦ rw f (
          validate_with-Gated V args report (wait_for_snapshot published.snapshot services.views)
            before published.db
            (λ sink w. v topic f (wait_for_snapshot-IsVisible published.snapshot services.views w))
            p same)
    ]

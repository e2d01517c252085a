-- ===== src/Releases/Consistent.antt =====
-- The release tables stay consistent: one row is active, the pointer names it, and the audit trail
-- leads to it.

use mathlib.Core.Option
use ad_pulse.Prelude.{
  ℕ, String, ◌≡◌, refl, ◌↔◌, List, [], ◌∷◌, ◌++◌, Option, none, some, if◌then◌else◌, ◌==◌,
  string_eq, ok, arith, option_eq,
}
use ad_pulse.Prelude.Dict.{Dict, lookup, lookup-insert, lookup-update}
use ad_pulse.Json.{Value}
use ad_pulse.Releases.{
  Status, active, retired, ReleaseKind, Validation, Release, Audit, Db, empty_db, topic_of, new_row,
  register, validate_row, mark_validated, with_status, set_status, retire, Activation, activate,
}

abbrev pub status_of : Option Release → Option Status
status_of = Option.map (λ (r : Release). r.status)

-- Each entry of the trail starts where the one before it ended.
abbrev pub Leads : Option String → List Audit → Option String → Type 0
Leads start [] finish = start ≡ finish
Leads start (a ∷ l) finish = (a.previous ≡ start) × Leads (some a.next) l finish

pub record IsConsistent (db : Db) : Type 0 where
  pub pointer :
      (k : String) → (status_of (lookup k db.releases) ≡ some active) ↔ (db.active_release ≡ some k)
  pub trail : Leads none db.audit db.active_release

Leads-append :
    (start finish : Option String) (l : List Audit) (a : Audit)
    → Leads start l finish
    → a.previous ≡ finish
    → Leads start (l ++ a ∷ []) (some a.next)
Leads-append start finish [] a h e = ground arith
Leads-append start finish (b ∷ l) a h e = (h.0, Leads-append (some b.next) finish l a h.1 e)

pub empty-IsConsistent : IsConsistent empty_db
unfolding lookup
empty-IsConsistent = record { pointer = λ k. (λ h. cc, λ h. cc); trail = refl }

pub register-IsConsistent :
    (sha256 : String → String) (prefix release : String) (rules : Value) (kind : ReleaseKind)
    (manifest : Option String) (partitions : ℕ) (db : Db) {t : String} {db' : Db}
    → IsConsistent db
    → register sha256 prefix release rules kind manifest partitions db ≡ ok (t, db')
    → IsConsistent db'
unfolding register
register-IsConsistent sha256 prefix release rules kind manifest partitions db h e = record {
  pointer = λ k. ground (
    arith,
    h.pointer k,
    lookup-insert k release
        (new_row sha256 prefix (topic_of prefix release) rules kind manifest partitions)
        db.releases,
  );
  trail = ground (arith, h.trail);
}

pub mark_validated-IsConsistent :
    (release : String) (report : Validation) (db : Db) {db' : Db}
    → IsConsistent db
    → mark_validated release report db ≡ ok db'
    → IsConsistent db'
unfolding mark_validated
mark_validated-IsConsistent release report db h e = record {
  pointer =
      λ k. ground (arith, h.pointer k, lookup-update k release (validate_row report) db.releases);
  trail = ground (arith, h.trail);
}

pub lookup-set_status :
    (k : String) (s : Status) (release : String) (d : Dict String Release)
    → lookup k (set_status s release d)
      ≡ (if k == release then Option.map (with_status s) (lookup k d) else lookup k d)
unfolding set_status
lookup-set_status k s release d = lookup-update k release (with_status s) d

pub lookup-retire :
    (k : String) (old : Option String) (d : Dict String Release)
    → lookup k (retire old d)
      ≡ (if old == some k then Option.map (with_status retired) (lookup k d) else lookup k d)
unfolding retire
lookup-retire k none d = ground arith
lookup-retire k (some o) d = ground (arith, lookup-set_status k retired o d)

pub activate-IsConsistent :
    (release reason : String) (db : Db) {a : Activation} {db' : Db}
    → IsConsistent db
    → activate release reason db ≡ ok (a, db')
    → IsConsistent db'
unfolding activate
activate-IsConsistent release reason db h e = record {
  pointer = λ k. ground (
    arith,
    h.pointer k,
    lookup-set_status k active release (retire db.active_release db.releases),
    lookup-retire k db.active_release db.releases,
  );
  trail = ground (
    arith,
    h.trail,
    Leads-append none db.active_release db.audit
        (record { previous = db.active_release; next = release; reason = reason }) h.trail refl,
  );
}

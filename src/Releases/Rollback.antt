-- ===== src/Releases/Rollback.antt =====
-- What an activation changes, and that it can be undone.
use mathlib.Core.Option
use ad_pulse.Prelude.{
  none, refl, sym, ap, Bool, Bool-cases, inl, inr, String, ◌≡◌, ◌≢◌, true, false, not, [], ◌∷◌,
  ◌++◌, some, if◌then◌else◌, ◌==◌, string_eq, Option, option_eq, ok, arith,
}
use mathlib.Core.Path.{subst}
use ad_pulse.Prelude.Dict.{Dict, lookup}
use ad_pulse.Names.{is_blank}
use ad_pulse.Releases.{
  active, retired, Release, with_status, set_status, Status, Db, retire, Activation, switch,
  activate,
}
use ad_pulse.Releases.Consistent.{IsConsistent, lookup-set_status, lookup-retire, status_of}

-- A successful activation on consistent tables: the pointer names the release; its row is active,
-- the row that was active before is retired and every other status is as it was; an entry of the
-- trail is written exactly if the pointer moved.
pub activate_effects :
    (release reason : String) (db : Db) {a : Activation} {db' : Db}
    → IsConsistent db
    → activate release reason db ≡ ok (a, db')
    → (db'.active_release ≡ some release)
      × (a.previous ≡ db.active_release)
      × (a.changed ≡ not (db.active_release == some release))
      × ((k : String)
          → status_of (lookup k db'.releases) ≡ (
              if k == release
              then some active
              else if db.active_release == some k
              then some retired
              else status_of (lookup k db.releases)))
      × (db'.audit ≡ (
          if a.changed
          then db.audit
            ++ record { previous = db.active_release; next = release; reason = reason } ∷ []
          else db.audit))
unfolding activate
activate_effects release reason db h e = (
  ground arith,
  ground arith,
  ground arith,
  λ k. ground (
    arith,
    h.pointer k,
    h.pointer release,
    lookup-set_status k active release (retire db.active_release db.releases),
    lookup-retire k db.active_release db.releases,
    lookup-retire release db.active_release db.releases,
  ),
  ground arith,
)

-- The row of a release after `switch` has moved the pointer.
abbrev switched : Bool → Bool → Option Release → Option Release
switched is_new is_old row =
    let left = if is_old then Option.map (with_status retired) row else row in
    if is_new then Option.map (with_status active) left else left

lookup-switched :
    (old new k : String) (d : Dict String Release)
    → lookup k (set_status active new (retire (some old) d))
      ≡ switched (k == new) (k == old) (lookup k d)
lookup-switched old new k d =
    ground
      (arith, lookup-set_status k active new (retire (some old) d), lookup-retire k (some old) d)

row_back :
    (row : Option Release)
    → status_of row ≡ some active
    → switched true false (switched false true row) ≡ row
row_back none h = refl
row_back (some r) h =
    let is_active : r.status ≡ active = cc in
    ap (λ (s : Status). some (with_status s r)) (sym is_active)

row_retired :
    (row : Option Release)
    → switched false true (switched true false row) ≡ Option.map (with_status retired) row
row_retired none = refl
row_retired (some r) = refl

-- The row of a release, retired if it is the one.
abbrev pub with_retired : String → String → Option Release → Option Release
with_retired release k row = if k == release then Option.map (with_status retired) row else row

rows_back :
    (release former k : String) (d : Dict String Release)
    → former ≢ release
    → status_of (lookup former d) ≡ some active
    → lookup k (
        set_status active former
          (retire (some release) (set_status active release (retire (some former) d))))
      ≡ with_retired release k (lookup k d)
rows_back release former k d ne h =
    let second =
      lookup-switched release former k (set_status active release (retire (some former) d)) in
    let first = lookup-switched former release k d in
    elim (Bool-cases (k == release)) [
      | inl t ↦
          let other : (k == former) ≡ false = ground arith in
          rw (second, first, t, other) (row_retired (lookup k d))
      | inr n ↦ elim (Bool-cases (k == former)) [
        | inl f ↦
            let same : k ≡ former = ground arith in
            rw (second, first, n, f)
              (row_back (lookup k d)
                (subst (λ (x : String). status_of (lookup x d) ≡ some active) (sym same) h))
        | inr o ↦ rw (second, first, n, o) refl
      ]
    ]

-- An activation that took the place of another release can be undone: with any reason that is not
-- blank, activating the former release succeeds, and then the pointer and every row are as they
-- were, except that the status of the release which was withdrawn is retired, and the trail has
-- the two swaps.
pub rollback_lem :
    (release former reason reason' : String) (db : Db) {a : Activation} {db' : Db}
    → IsConsistent db
    → db.active_release ≡ some former
    → former ≢ release
    → activate release reason db ≡ ok (a, db')
    → is_blank reason' ≡ false
    → (activate former reason' db'
        ≡ ok (
          record { previous = some release; active_id = former; changed = true },
          switch former reason' db',
        ))
      × ((switch former reason' db').active_release ≡ db.active_release)
      × ((k : String)
          → lookup k (switch former reason' db').releases
            ≡ with_retired release k (lookup k db.releases))
      × ((switch former reason' db').audit
          ≡ (db.audit ++ record { previous = some former; next = release; reason = reason } ∷ [])
            ++ record { previous = some release; next = former; reason = reason' } ∷ [])
unfolding activate switch
rollback_lem release former reason reason' db {db' = db'} h here ne e fine =
    let moved = lookup-set_status former active release (retire db.active_release db.releases) in
    let left = lookup-retire former db.active_release db.releases in
    let again : activate former reason' db'
        ≡ ok (
          record { previous = some release; active_id = former; changed = true },
          switch former reason' db',
        ) =
      ground (arith, h.pointer former, moved, left) in
    let there = activate_effects release reason db h e in
    let swapped : db' ≡ switch release reason db = ground (arith, here) in
    (
      again,
      ground arith,
      λ k.
          subst
            (λ (x : Db).
              lookup k (switch former reason' x).releases
              ≡ with_retired release k (lookup k db.releases))
            (sym swapped)
            (subst
              (λ (o : Option String).
                lookup k (
                  set_status active former
                    (retire (some release) (set_status active release (retire o db.releases))))
                ≡ with_retired release k (lookup k db.releases))
              (sym here)
              (rows_back release former k db.releases ne (ground (arith, h.pointer former, here)))),
      subst
          (λ (x : Db).
            x.audit ++ record { previous = x.active_release; next = former; reason = reason' } ∷ []
            ≡ (db.audit ++ record { previous = some former; next = release; reason = reason } ∷ [])
              ++ record { previous = some release; next = former; reason = reason' } ∷ [])
          (sym swapped)
          (ap
            (λ (o : Option String).
              (db.audit ++ record { previous = o; next = release; reason = reason } ∷ [])
              ++ record { previous = some release; next = former; reason = reason' } ∷ [])
            here),
    )

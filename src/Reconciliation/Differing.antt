-- ===== src/Reconciliation/Differing.antt =====
-- The rows that differ, as a query of the table finds them.
use ad_pulse.Prelude.{
  String, ◌≡◌, refl, ap, ◌∙◌, ◌↔◌, true, [], ◌∷◌, none, ◌==◌, string_eq, pair_eq, option_eq, leb,
  length, arith, Bool-cases, inl, inr,
}
use mathlib.Core.List.{cons≢nil}
use ad_pulse.Prelude.Dict.{lookup, IsDict}
use ad_pulse.Reconciliation.{expected, actual, Table, differs, differing}
use ad_pulse.Reconciliation.Texts.{text_at}

differing-nil :
    (t : Table)
    → differing t ≡ []
    → (j : String × String) → text_at expected j t ≡ text_at actual j t
unfolding differing lookup
differing-nil [] h j = refl
differing-nil ((key, c) ∷ t) h j = elim (Bool-cases (differs c)) [
  | inl d ↦ absurd (cons≢nil (rw d at h))
  | inr s ↦ let rest = differing-nil t (rw s at h) j in ground (arith, rest)
]

same-differing :
    (t : Table)
    → IsDict t
    → ((j : String × String) → text_at expected j t ≡ text_at actual j t)
    → differing t ≡ []
unfolding differing lookup
same-differing [] d h = refl
same-differing ((key, c) ∷ t) d h =
    let rest = same-differing t d.1 (λ j. elim (Bool-cases (j == key)) [
      | inl e ↦
          let k : j ≡ key = ground arith in
          let gone : lookup j t ≡ none = ap (λ (i : String × String). lookup i t) k ∙ d.0 in
          rw gone refl
      | inr e ↦ let here = h j in rw e at here
    ]) in
    let here = h key in ground (arith, rest, here)

pub differing-nil_iff :
    (t : Table)
    → IsDict t
    → (leb (length (differing t)) 0 ≡ true)
      ↔ ((j : String × String) → text_at expected j t ≡ text_at actual j t)
differing-nil_iff t d = (λ h. differing-nil t (ground arith), λ h. rw (same-differing t d h) refl)

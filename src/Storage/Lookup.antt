-- ===== src/Storage/Lookup.antt =====
-- adpulse/storage.py, `lookup_parameters`: the batches of lookup identities in a bounded parameter.
use Prim.Native.String.{len, ◌++◌ as str_append}
use text.Mathlib.TextPositions.{len-append}
use mathlib.Core.List.{flatten, append_assoc}
use ad_pulse.Prelude.{
  ℕ, ◌+◌, ◌≤◌, String, ◌≡◌, refl, true, false, List, [], ◌∷◌, ◌++◌, map, if◌then◌else◌, ltb, Result,
  ok, raise, ◌>>=◌, value_error, arith, Bool-cases, inl, inr, OnOk, OnOk-elim, All,
}
use ad_pulse.Prelude.Distinct.{member, IsDistinct}
use ad_pulse.Json.{Value, value_eq, canonical}

-- `dict.fromkeys(keys)`: each key once, in the order of its first occurrence; `seen` has those
-- that stand before.
unfoldable pub unique_from : List Value → List Value → List Value
unique_from seen [] = []
unique_from seen (k ∷ l) =
    let rest = unique_from seen l in
    let more = unique_from (k ∷ seen) l in if member k seen then rest else k ∷ more

-- `bool(encoded)`, the length of the separator
abbrev pub separator : List String → ℕ
separator [] = 0
separator (_ ∷ _) = 1

abbrev pub join_commas : List String → String
join_commas [] = ""
join_commas (x ∷ []) = x
join_commas (x ∷ y ∷ l) = str_append x (str_append "," (join_commas (y ∷ l)))

-- What is yielded for a batch.
abbrev pub parameter : List String → String
parameter encoded = str_append "[" (str_append (join_commas encoded) "]")

-- The last `yield`.
abbrev last_batch : List String → List (List String)
last_batch [] = []
last_batch (x ∷ l) = (x ∷ l) ∷ []

unique_from-new :
    (k : Value) (seen l : List Value) → member k seen ≡ true → member k (unique_from seen l) ≡ false
unfolding unique_from member
unique_from-new k seen [] h = refl
unique_from-new k seen (j ∷ l) h =
    ground (arith, unique_from-new k seen l h, unique_from-new k (j ∷ seen) l)

unique_from-IsDistinct : (seen l : List Value) → IsDistinct (unique_from seen l)
unfolding unique_from
unique_from-IsDistinct seen [] = tt
unique_from-IsDistinct seen (k ∷ l) = elim (Bool-cases (member k seen)) [
  | inl old ↦ rw old (unique_from-IsDistinct seen l)
  | inr new ↦ rw new (
    unfold member in unique_from-new k (k ∷ seen) l (ground arith),
    unique_from-IsDistinct (k ∷ seen) l,
  )
]

member-unique_from :
    (k : Value) (seen l : List Value)
    → member k seen ≡ false
    → member k (unique_from seen l) ≡ member k l
unfolding unique_from member
member-unique_from k seen [] h = refl
member-unique_from k seen (j ∷ l) h =
    ground (arith, member-unique_from k seen l, member-unique_from k (j ∷ seen) l)

flatten-last_batch : (l : List String) → flatten (last_batch l) ≡ l ++ []
unfolding flatten
flatten-last_batch [] = refl
flatten-last_batch (x ∷ l) = refl

module _ (max_bytes : ℕ) where
  -- The loop, with `encoded` and `size`; the result is the batches that are yielded.
  unfoldable pub batches_from : List String → ℕ → List String → Result (List (List String))
  batches_from encoded size [] = ok (last_batch encoded)
  batches_from encoded size (value ∷ l) =
      let fits = batches_from (encoded ++ value ∷ []) (size + len value + separator encoded) l in
      let opens = batches_from (value ∷ []) (2 + len value) l in
      if ltb max_bytes (len value + 2)
      then raise (value_error "Single lookup identity exceeds parameter byte budget")
      else if ltb max_bytes (size + len value + separator encoded)
      then (do rest ← opens; ok (encoded ∷ rest))
      else fits

  unfoldable pub lookup_parameters : List Value → Result (List (List String))
  unfolding batches_from unique_from
  lookup_parameters keys = batches_from [] 2 (map canonical (unique_from [] keys))

  -- The bytes of the encoded values with the separators between them.
  abbrev joined : List String → ℕ
  joined [] = 0
  joined (x ∷ l) = len x + separator l + joined l

  len-join_commas : (l : List String) → len (join_commas l) ≡ joined l
  len-join_commas [] = refl
  len-join_commas (x ∷ []) = omega arith
  len-join_commas (x ∷ y ∷ l) =
      rw (len-append x) (rw (len-append ",") (omega (arith, len-join_commas (y ∷ l))))

  len-parameter : (l : List String) → len (parameter l) ≡ 2 + joined l
  len-parameter l =
      rw (len-append "[") (rw (len-append (join_commas l)) (omega (arith, len-join_commas l)))

  joined-append :
      (l : List String) (x : String) → joined (l ++ x ∷ []) ≡ joined l + len x + separator l
  joined-append [] x = omega arith
  joined-append (y ∷ []) x = omega arith
  joined-append (y ∷ z ∷ l) x = omega (arith, joined-append (z ∷ l) x)

  last_batch_fits :
      (l : List String)
      → 2 + joined l ≤ max_bytes
      → All (λ b. len (parameter b) ≤ max_bytes) (last_batch l)
  last_batch_fits [] h = tt
  last_batch_fits (x ∷ l) h = (rw len-parameter h, tt)

  abbrev Fits : List (List String) → Type 0
  Fits = All (λ b. len (parameter b) ≤ max_bytes)

  batches_fit :
      (encoded : List String) (size : ℕ) (l : List String)
      → size ≡ 2 + joined encoded
      → size ≤ max_bytes
      → OnOk Fits (batches_from encoded size l)
  unfolding batches_from
  batches_fit encoded size [] s h = last_batch_fits encoded (omega arith)
  batches_fit encoded size (value ∷ l) s h = ground (
    arith,
    joined-append encoded value,
    len-parameter encoded,
    batches_fit (encoded ++ value ∷ []) (size + len value + separator encoded) l,
    batches_fit (value ∷ []) (2 + len value) l,
  )

  batches_all :
      (encoded : List String) (size : ℕ) (l : List String)
      → OnOk (λ out. flatten out ≡ encoded ++ l) (batches_from encoded size l)
  unfolding batches_from flatten
  batches_all encoded size [] = flatten-last_batch encoded
  batches_all encoded size (value ∷ l) = ground (
    arith,
    append_assoc encoded (value ∷ []) l,
    batches_all (encoded ++ value ∷ []) (size + len value + separator encoded) l,
    batches_all (value ∷ []) (2 + len value) l,
  )

  -- When it returns, every parameter that is yielded has at most `max_bytes` bytes, and the batches
  -- hold, in order, the canonical texts of the distinct keys: each key once, none left out.
  pub lookup_parameters_lem :
      (keys : List Value) {out : List (List String)}
      → 2 ≤ max_bytes
      → lookup_parameters keys ≡ ok out
      → All (λ b. len (parameter b) ≤ max_bytes) out
        × (flatten out ≡ map canonical (unique_from [] keys))
        × IsDistinct (unique_from [] keys)
        × ((k : Value) → member k (unique_from [] keys) ≡ member k keys)
  unfolding lookup_parameters member
  lookup_parameters_lem keys room e =
      let texts : List String = map canonical (unique_from [] keys) in
      (
        OnOk-elim Fits (batches_from [] 2 texts) (batches_fit [] 2 texts refl room) e,
        OnOk-elim (λ o. flatten o ≡ texts) (batches_from [] 2 texts) (batches_all [] 2 texts) e,
        unique_from-IsDistinct [] keys,
        λ k. member-unique_from k [] keys refl,
      )

-- ===== src/Prelude/Errors.antt =====
-- Exceptions as values: the classes that the program raises or catches, with their messages.
use Prim.Native.Nat.{ℕ}
use Prim.Native.String.{String}
use mathlib.Core.Path.{◌≡◌, refl, ap, subst}
use mathlib.Core.Bool.{Bool, true, false}
use mathlib.Core.Logic.{◌⊎◌, inl, inr}
use mathlib.Core.Option.{Option, none, some}

-- `http_error` is FastAPI's `HTTPException` with its status and detail, `os_error` a failure of the
-- file system, `database_error` one of SQLite, and `snapshot_unavailable` and `page_error` are
-- `SnapshotUnavailable` (adpulse/inspection.py) and `PageQueryError` (adpulse/storage.py).
pub data Exception : Type 0 where
  value_error key_error runtime_error type_error timeout_error os_error database_error :
      String → Exception
  snapshot_unavailable page_error : String → Exception
  http_error : ℕ → String → Exception

pub data Result {ℓ} (A : Type ℓ) : Type ℓ where
  ok : A → Result A
  raise : Exception → Result A

-- `ok x >>= k` computes wherever it stands; a statement after one that raises is not run.
infixl 5 ◌>>=◌
infixl 5 ◌>>◌
abbrev pub ◌>>=◌ {ℓ κ} : {A : Type ℓ} {C : Type κ} → Result A → (A → Result C) → Result C
raise e >>= k = raise e
ok x >>= k = k x

abbrev pub ◌>>◌ {κ} : {C : Type κ} → Result (Unit {0}) → Result C → Result C
first >> second = first >>= λ _. second

-- `if b: raise e`
abbrev pub raise_if : Bool → Exception → Result (Unit {0})
raise_if true e = raise e
raise_if false e = ok tt

-- `d[k]`, where a missing key is a KeyError
abbrev pub or_raise {ℓ} : {A : Type ℓ} → Option A → Exception → Result A
or_raise none e = raise e
or_raise (some a) e = ok a

-- What has returned, if a sequence of two has.
pub >>=-eq-ok {ℓ κ} :
    {A : Type ℓ} {C : Type κ} (r : Result A) (k : A → Result C) {c : C}
    → (r >>= k) ≡ ok c
    → (x : A) × (r ≡ ok x) × (k x ≡ ok c)
>>=-eq-ok (raise e) k returned = cc
>>=-eq-ok (ok x) k returned = (x, refl, returned)

pub ok-injective {ℓ} : {A : Type ℓ} {a b : A} → ◌≡◌ {A = Result A} (ok a) (ok b) → a ≡ b
ok-injective h = cc

-- A guard that was passed.
pub raise_if-eq-ok {ℓ} :
    {A : Type ℓ} (b : Bool) (e : Exception) (m : Result A) {a : A}
    → (raise_if b e >> m) ≡ ok a
    → (b ≡ false) × (m ≡ ok a)
raise_if-eq-ok true e m h = cc
raise_if-eq-ok false e m h = (refl, h)

-- A look-up that found something.
pub or_raise-eq-ok :
    {A : Type 0} (o : Option A) (e : Exception) {a : A} → or_raise o e ≡ ok a → o ≡ some a
or_raise-eq-ok none e h = cc
or_raise-eq-ok (some b) e h = ap some (ok-injective h)

pub Result-cases {ℓ} :
    {A : Type ℓ} (r : Result A) → ((e : Exception) × (r ≡ raise e)) ⊎ ((a : A) × (r ≡ ok a))
Result-cases (ok a) = inr (a, refl)
Result-cases (raise e) = inl (e, refl)

-- What a result satisfies if it is no exception.
abbrev pub OnOk {ℓ κ} : {A : Type ℓ} → (A → Type κ) → Result A → Type κ
OnOk P (ok a) = P a
OnOk P (raise e) = Unit

pub OnOk-elim {ℓ κ} :
    {A : Type ℓ} (P : A → Type κ) (r : Result A) {a : A} → OnOk P r → r ≡ ok a → P a
OnOk-elim P (ok b) h e = subst P (ok-injective e) h
OnOk-elim P (raise x) h e = cc

pub OnOk-bind :
    {A B : Type 0} (P : B → Type 0) (r : Result A) (f : A → Result B)
    → ((a : A) → OnOk P (f a))
    → OnOk P (r >>= f)
OnOk-bind P (ok a) f h = h a
OnOk-bind P (raise e) f h = tt

pub OnOk-raise_if :
    {B : Type 0} (P : B → Type 0) (b : Bool) (e : Exception) (r : Result B)
    → OnOk P r
    → OnOk P (raise_if b e >> r)
OnOk-raise_if P true e r h = tt
OnOk-raise_if P false e r h = h

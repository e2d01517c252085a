-- ===== src/Prelude/Keys.antt =====
-- Types whose values the program compares by `==`: texts, numbers, and tuples of such.
use Prim.Native.Nat.{ℕ}
use Prim.Native.String.{String}
use mathlib.Core.Path.{◌≡◌, refl, sym, ◌∙◌}
use mathlib.Core.Bool.{Bool, true, false, false≢true}
use native.Mathlib.Decide.{ℕ_discrete}
use text.Mathlib.Text.{◌==◌ as str_eq}
use text.Mathlib.TextEquality.{eq_iff}
use mathlib.Core.Option.{Option, none, some}

pub record Eq {ℓ} (A : Type ℓ) : Type ℓ where
  pub dec : Discrete A

infix 50 ◌==◌
abbrev pub ◌==◌ {ℓ} : {A : Type ℓ} ⦃e : Eq A⦄ → A → A → Bool
◌==◌ ⦃e⦄ a b = elim (e.dec a b) [ yes _ ↦ true | no _ ↦ false ]

abbrev string_dec_of : (s t : String) (b : Bool) → str_eq s t ≡ b → Dec (s ≡ t)
string_dec_of s t true p = yes ((eq_iff s t).0 p)
string_dec_of s t false p = no (λ q. false≢true (sym p ∙ (eq_iff s t).1 q))

unfoldable pub String_discrete : Discrete String
String_discrete s t = string_dec_of s t (str_eq s t) refl

instance abbrev pub string_eq : Eq String
string_eq = record { dec = String_discrete }

instance abbrev pub nat_eq : Eq ℕ
nat_eq = record { dec = ℕ_discrete }

unfoldable pub option_dec {ℓ} : {A : Type ℓ} → Discrete A → Discrete (Option A)
option_dec f none none = yes refl
option_dec f none (some b) = no (λ p. cc)
option_dec f (some a) none = no (λ p. cc)
option_dec f (some a) (some b) = elim (f a b) [
  | yes p ↦ yes (λ i. some (p i))
  | no n ↦ no (λ q. n (cc))
]

instance abbrev pub option_eq {ℓ} : {A : Type ℓ} ⦃e : Eq A⦄ → Eq (Option A)
option_eq ⦃e⦄ = record { dec = option_dec e.dec }

unfoldable pub pair_dec {ℓ κ} :
    {A : Type ℓ} {B : Type κ} → Discrete A → Discrete B → Discrete (A × B)
pair_dec f g p q = elim (f p.0 q.0) [
  | yes h ↦ elim (g p.1 q.1) [ yes k ↦ yes (λ i. (h i, k i)) | no k ↦ no (λ r. k (λ i. (r i).1)) ]
  | no h ↦ no (λ r. h (λ i. (r i).0))
]

instance abbrev pub pair_eq {ℓ κ} : {A : Type ℓ} {B : Type κ} ⦃e : Eq A⦄ ⦃f : Eq B⦄ → Eq (A × B)
pair_eq ⦃e⦄ ⦃f⦄ = record { dec = pair_dec e.dec f.dec }

-- ===== src/Prelude/Tests.antt =====
-- Boolean tests, the conditional, and equality as an interface.
use Prim.Native.Nat.{ℕ, compare, Ordering}
use Prim.Native.String.{String}
use mathlib.Core.Path.{◌≡◌, refl}
use mathlib.Core.Logic.{◌↔◌, ◌⊎◌, inl, inr}
use mathlib.Core.Bool.{Bool, true, false, ◌&&◌, ◌||◌}
use mathlib.Core.Option.{Option, none, some}
use mathlib.Core.List.{List, [], ◌∷◌}
use native.Mathlib.Omega.{arith}
use text.Mathlib.Text.{◌==◌ as str_eq}
use text.Mathlib.TextEquality.{eq_iff}

abbrev pub ltb : ℕ → ℕ → Bool
ltb a b = elim (compare a b) [ Ordering.lt ↦ true | _ ↦ false ]

abbrev pub leb : ℕ → ℕ → Bool
leb a b = elim (compare a b) [ Ordering.gt ↦ false | _ ↦ true ]

infix 1 if◌then◌else◌
abbrev pub if◌then◌else◌ {ℓ} : {A : Type ℓ} → Bool → A → A → A
if true then x else y = x
if false then x else y = y

-- A property of a conditional, from its two branches.
pub if_ind {ℓ κ} :
    {A : Type ℓ} (P : A → Type κ) (b : Bool) {x y : A}
    → (b ≡ true → P x)
    → (b ≡ false → P y)
    → P (if b then x else y)
if_ind P true t f = t refl
if_ind P false t f = f refl

-- `==` of Python on the types that the models compare: a test that decides equality.
pub record Comparable {ℓ} (K : Type ℓ) : Type ℓ where
  pub equals : K → K → Bool
  pub equals_iff : (k j : K) → (equals k j ≡ true) ↔ (k ≡ j)

infix 50 ◌==◌
abbrev pub ◌==◌ {ℓ} : {K : Type ℓ} ⦃c : Comparable K⦄ (k j : K) → Bool
◌==◌ ⦃c⦄ k j = c.equals k j

abbrev pub nat_beq : ℕ → ℕ → Bool
nat_beq a b = elim (compare a b) [ Ordering.eq ↦ true | _ ↦ false ]

pub nat_beq_iff : (a b : ℕ) → (nat_beq a b ≡ true) ↔ (a ≡ b)
nat_beq_iff a b = ground arith

instance abbrev pub nat_eq : Comparable ℕ
nat_eq = record { equals = nat_beq; equals_iff = nat_beq_iff }

instance abbrev pub string_eq : Comparable String
string_eq = record { equals = str_eq; equals_iff = eq_iff }

-- A text is compared code point by code point.
unfoldable pub text_beq : List ℕ → List ℕ → Bool
text_beq [] [] = true
text_beq (a ∷ s) (b ∷ t) = nat_beq a b && text_beq s t
text_beq _ _ = false

pub text_beq_iff : (s t : List ℕ) → (text_beq s t ≡ true) ↔ (s ≡ t)
unfolding text_beq
text_beq_iff [] [] = (λ _. refl, λ _. refl)
text_beq_iff [] (b ∷ t) = (λ h. cc, λ h. cc)
text_beq_iff (a ∷ s) [] = (λ h. cc, λ h. cc)
text_beq_iff (a ∷ s) (b ∷ t) = ground (arith, text_beq_iff s t)

instance abbrev pub text_eq : Comparable (List ℕ)
text_eq = record { equals = text_beq; equals_iff = text_beq_iff }

module _ {ℓ} {K : Type ℓ} ⦃c : Comparable K⦄ where
  pub beq_refl : (k : K) → (k == k) ≡ true
  beq_refl k = (c.equals_iff k k).1 refl

-- To split on a computed value and keep the equation.
pub Bool-cases : (b : Bool) → (b ≡ true) ⊎ (b ≡ false)
Bool-cases true = inl refl
Bool-cases false = inr refl

pub Option-cases {ℓ} : {A : Type ℓ} (o : Option A) → (o ≡ none) ⊎ ((a : A) × (o ≡ some a))
Option-cases none = inl refl
Option-cases (some a) = inr (a, refl)

pub and_true : (a b : Bool) → (a && b) ≡ true → (a ≡ true) × (b ≡ true)
and_true a b h = ground arith

pub or_false : (a b : Bool) → (a || b) ≡ false → (a ≡ false) × (b ≡ false)
or_false a b h = ground arith

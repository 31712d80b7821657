-- ===== src/Prelude/Slices.antt =====
-- Slices of lists, `xs[a:b]`, and `sorted` with a test for its order.
use Prim.Native.Nat.{ℕ, zero, suc, ◌≤◌}
use mathlib.Core.Path.{◌≡◌, refl, ap}
use mathlib.Core.Bool.{Bool, true, false}
use mathlib.Core.Logic.{◌⊎◌, inl, inr}
use mathlib.Core.List.{List, [], ◌∷◌, ◌++◌, map}
use native.Mathlib.Omega.{arith}
use gitreins.Prelude.Tests.{if◌then◌else◌, if_ind}
use gitreins.Prelude.Lists.{length, take, drop, keep, All, take-append-drop}

module _ {ℓ} {A : Type ℓ} where
  abbrev pub slice : ℕ → ℕ → List A → List A
  slice a b xs = drop a (take b xs)

  pub take-take : (a b : ℕ) (xs : List A) → a ≤ b → take a (take b xs) ≡ take a xs
  take-take zero b xs h = refl
  take-take (suc a) zero xs h = absurd (omega arith)
  take-take (suc a) (suc b) [] h = refl
  take-take (suc a) (suc b) (x ∷ xs) h = ap (◌∷◌ x) (take-take a b xs (omega arith))

  pub take-append-slice : (a b : ℕ) (xs : List A) → a ≤ b → take a xs ++ slice a b xs ≡ take b xs
  take-append-slice a b xs h = rw (← take-take a b xs h) (take-append-drop a (take b xs))

  pub take-append_left : (n : ℕ) (xs ys : List A) → n ≤ length xs → take n (xs ++ ys) ≡ take n xs
  take-append_left zero xs ys h = refl
  take-append_left (suc n) [] ys h = absurd (omega arith)
  take-append_left (suc n) (x ∷ xs) ys h = ap (◌∷◌ x) (take-append_left n xs ys (omega arith))

  pub drop-append_left : (n : ℕ) (xs ys : List A) → length xs ≡ n → drop n (xs ++ ys) ≡ ys
  drop-append_left zero [] ys h = refl
  drop-append_left zero (x ∷ xs) ys h = absurd (omega arith)
  drop-append_left (suc n) [] ys h = absurd (omega arith)
  drop-append_left (suc n) (x ∷ xs) ys h = drop-append_left n xs ys (omega arith)

  pub take_all : (n : ℕ) (xs : List A) → length xs ≤ n → take n xs ≡ xs
  take_all zero [] h = refl
  take_all zero (x ∷ xs) h = absurd (omega arith)
  take_all (suc n) [] h = refl
  take_all (suc n) (x ∷ xs) h = ap (◌∷◌ x) (take_all n xs (omega arith))

module _ {ℓ} {A : Type ℓ} (P : A → Type 0) where
  abbrev pub Any : List A → Type 0
  Any [] = ⊥
  Any (x ∷ xs) = P x ⊎ Any xs

  pub Any-append_left : (xs ys : List A) → Any xs → Any (xs ++ ys)
  Any-append_left [] ys h = absurd h
  Any-append_left (x ∷ xs) ys (inl h) = inl h
  Any-append_left (x ∷ xs) ys (inr h) = inr (Any-append_left xs ys h)

  pub Any-append_right : (xs ys : List A) → Any ys → Any (xs ++ ys)
  Any-append_right [] ys h = h
  Any-append_right (x ∷ xs) ys h = inr (Any-append_right xs ys h)

  pub Any-exists : (xs : List A) → Any xs → (x : A) × P x
  Any-exists [] h = absurd h
  Any-exists (x ∷ xs) (inl h) = (x, h)
  Any-exists (x ∷ xs) (inr h) = Any-exists xs h

  pub Any-keep :
      (t : A → Bool) → ((x : A) → P x → t x ≡ true) → (xs : List A) → Any xs → Any (keep t xs)
  Any-keep t f [] h = absurd h
  Any-keep t f (x ∷ xs) (inl h) = rw (f x h) (inl h)
  Any-keep t f (x ∷ xs) (inr h) =
      if_ind Any (t x) (λ e. inr (Any-keep t f xs h)) (λ e. Any-keep t f xs h)

module _ {ℓ κ} {A : Type ℓ} (P : A → Type κ) where
  pub All-keep : (t : A → Bool) (xs : List A) → All P xs → All (λ x. (t x ≡ true) × P x) (keep t xs)
  All-keep t [] h = tt
  All-keep t (x ∷ xs) h =
      if_ind (All (λ x. (t x ≡ true) × P x)) (t x) (λ e. ((e, h.0), All-keep t xs h.1))
        (λ e. All-keep t xs h.1)

module _ {ℓ κ η} {A : Type ℓ} {B : Type κ} (P : B → Type η) (g : A → B) where
  pub All-map : (xs : List A) → All (λ x. P (g x)) xs → All P (map g xs)
  All-map [] h = tt
  All-map (x ∷ xs) h = (h.0, All-map xs h.1)

module _ {ℓ κ} {A : Type ℓ} {B : Type κ} (P : B → Type 0) (g : A → B) where
  pub Any-map : (xs : List A) → Any (λ x. P (g x)) xs → Any P (map g xs)
  Any-map [] h = absurd h
  Any-map (x ∷ xs) (inl h) = inl h
  Any-map (x ∷ xs) (inr h) = inr (Any-map xs h)

module _ {ℓ κ η} {A : Type ℓ} {P : A → Type κ} {Q : A → Type η} (f : (x : A) → P x → Q x) where
  pub All-mono : (xs : List A) → All P xs → All Q xs
  All-mono [] h = tt
  All-mono (x ∷ xs) h = (f x h.0, All-mono xs h.1)

module _ {ℓ} {A : Type ℓ} (P R : A → Type 0) where
  pub Any-mono : ((x : A) → P x → R x) → (xs : List A) → Any P xs → Any R xs
  Any-mono f [] h = h
  Any-mono f (x ∷ xs) (inl h) = inl (f x h)
  Any-mono f (x ∷ xs) (inr h) = inr (Any-mono f xs h)

  pub Any-All {κ} :
      (Q : A → Type κ)
      → ((x : A) → P x → Q x → R x)
      → (xs : List A) → Any P xs
      → All Q xs
      → Any R xs
  Any-All Q f [] h k = h
  Any-All Q f (x ∷ xs) (inl h) k = inl (f x h k.0)
  Any-All Q f (x ∷ xs) (inr h) k = inr (Any-All Q f xs h k.1)

-- `sorted(xs)`, where `before x y` says that `x` may stand before `y`. Equal items keep their order.
module _ {ℓ} {A : Type ℓ} (before : A → A → Bool) where
  abbrev pub insert_by : A → List A → List A
  insert_by x [] = x ∷ []
  insert_by x (y ∷ ys) = if before x y then x ∷ y ∷ ys else y ∷ insert_by x ys

  abbrev pub sort_by : List A → List A
  sort_by [] = []
  sort_by (x ∷ xs) = insert_by x (sort_by xs)

  -- An item that may stand before no other comes last.
  pub insert_by-last :
      (x : A) (ys : List A) → All (λ y. before x y ≡ false) ys → insert_by x ys ≡ ys ++ x ∷ []
  insert_by-last x [] h = refl
  insert_by-last x (y ∷ ys) h = rw h.0 (ap (◌∷◌ y) (insert_by-last x ys h.1))

  pub All-insert_by {κ} :
      (P : A → Type κ) (x : A) (ys : List A) → P x → All P ys → All P (insert_by x ys)
  All-insert_by P x [] p h = (p, tt)
  All-insert_by P x (y ∷ ys) p h =
      elim (before x y) as (λ b. All P (if b then x ∷ y ∷ ys else y ∷ insert_by x ys)) [
        | true ↦ (p, h)
        | false ↦ (h.0, All-insert_by P x ys p h.1)
      ]

  pub All-sort_by {κ} : (P : A → Type κ) (xs : List A) → All P xs → All P (sort_by xs)
  All-sort_by P [] h = tt
  All-sort_by P (x ∷ xs) h = All-insert_by P x (sort_by xs) h.0 (All-sort_by P xs h.1)

  pub Any-insert_by :
      (P : A → Type 0) (x : A) (ys : List A) → P x ⊎ Any P ys → Any P (insert_by x ys)
  Any-insert_by P x [] h = h
  Any-insert_by P x (y ∷ ys) h =
      if_ind (Any P) (before x y) (λ e. h)
        (λ e. elim h [
          | inl p ↦ inr (Any-insert_by P x ys (inl p))
          | inr q ↦ elim q [ inl p ↦ inl p | inr r ↦ inr (Any-insert_by P x ys (inr r)) ]
        ])

  pub Any-sort_by : (P : A → Type 0) (xs : List A) → Any P xs → Any P (sort_by xs)
  Any-sort_by P [] h = h
  Any-sort_by P (x ∷ xs) (inl h) = Any-insert_by P x (sort_by xs) (inl h)
  Any-sort_by P (x ∷ xs) (inr h) = Any-insert_by P x (sort_by xs) (inr (Any-sort_by P xs h))

  -- Each item may stand before all that follow it.
  abbrev pub IsOrdered : List A → Type 0
  IsOrdered [] = Unit
  IsOrdered (x ∷ xs) = All (λ y. before x y ≡ true) xs × IsOrdered xs

  pub IsOrdered-keep : (t : A → Bool) (xs : List A) → IsOrdered xs → IsOrdered (keep t xs)
  IsOrdered-keep t [] h = tt
  IsOrdered-keep t (x ∷ xs) h =
      if_ind IsOrdered (t x)
        (λ e. (
          All-mono (λ y p. p.1) (keep t xs) (All-keep (λ y. before x y ≡ true) t xs h.0),
          IsOrdered-keep t xs h.1,
        ))
        (λ e. IsOrdered-keep t xs h.1)

  module _ (total : (x y : A) → before x y ≡ false → before y x ≡ true)
      (trans : (x y z : A) → before x y ≡ true → before y z ≡ true → before x z ≡ true) where
    insert_by-IsOrdered : (x : A) (ys : List A) → IsOrdered ys → IsOrdered (insert_by x ys)
    insert_by-IsOrdered x [] h = (tt, tt)
    insert_by-IsOrdered x (y ∷ ys) h =
        if_ind IsOrdered (before x y) (λ e. ((e, All-mono (λ z p. trans x y z e p) ys h.0), h))
          (λ e. (
            All-insert_by (λ z. before y z ≡ true) x ys (total x y e) h.0,
            insert_by-IsOrdered x ys h.1,
          ))

    pub sort_by-IsOrdered : (xs : List A) → IsOrdered (sort_by xs)
    sort_by-IsOrdered [] = tt
    sort_by-IsOrdered (x ∷ xs) = insert_by-IsOrdered x (sort_by xs) (sort_by-IsOrdered xs)

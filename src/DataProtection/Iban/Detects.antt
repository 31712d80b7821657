-- ===== src/DataProtection/Iban/Detects.antt =====
-- Which misread account numbers the remainder finds: one wrong character.
use gitreins.Prelude.{
  ℕ, subst, not, ◌&&◌, zero, suc, ◌+◌, ◌*◌, ◌%◌, ◌<◌, ◌≡◌, ◌⊎◌, inl, inr, refl, sym, ◌∙◌, ap, true,
  List, [], ◌∷◌, ◌++◌, Option, some, none, ltb, leb, take, drop, length, arith, Bool-cases,
}
use gitreins.Prelude.Text.{Text, Unicode}
use mathlib.Core.List.{append_assoc}
use gitreins.DataProtection.Iban.{
  and_value, passes_of, value_digits, int_from, decimals, rearranged, remainder_is_one, compact_of,
  values_of, valid_iban,
}

int_from-inj :
    (digits : List ℕ) (a b : ℕ) → int_from a digits % 97 ≡ int_from b digits % 97 → a % 97 ≡ b % 97
unfolding int_from
int_from-inj [] a b h = h
int_from-inj (d ∷ digits) a b h = omega (arith, int_from-inj digits (a * 10 + d) (b * 10 + d) h)

int_from-append : (xs ys : List ℕ) (n : ℕ) → int_from n (xs ++ ys) ≡ int_from (int_from n xs) ys
unfolding int_from
int_from-append [] ys n = refl
int_from-append (x ∷ xs) ys n = int_from-append xs ys (n * 10 + x)

int_from-decimal_inj :
    (n x y : ℕ)
    → x < 36
    → y < 36
    → ltb x 10 ≡ ltb y 10
    → int_from n (value_digits x) % 97 ≡ int_from n (value_digits y) % 97
    → x ≡ y
unfolding int_from
int_from-decimal_inj n x y hx hy same h = ground arith

remainder_is_one-int_from :
    (values : List ℕ) → remainder_is_one values ≡ true → int_from 0 (decimals values) % 97 ≡ 1
unfolding remainder_is_one
remainder_is_one-int_from values h = ground arith

decimals-middle :
    (front back : List ℕ) (x n : ℕ)
    → int_from n (decimals (front ++ (x ∷ back)))
      ≡ int_from (int_from (int_from n (decimals front)) (value_digits x)) (decimals back)
unfolding decimals int_from
decimals-middle [] back x n = int_from-append (value_digits x) (decimals back) n
decimals-middle (v ∷ front) back x n =
    rw
      (
        int_from-append (value_digits v) (decimals (front ++ (x ∷ back))) n,
        int_from-append (value_digits v) (decimals front) n,
      )
      (decimals-middle front back x (int_from n (value_digits v)))

-- One value of another, of the same number of digits, changes the remainder.
remainder_is_one-one_value :
    (front back : List ℕ) (x y : ℕ)
    → x < 36
    → y < 36
    → ltb x 10 ≡ ltb y 10
    → remainder_is_one (front ++ (x ∷ back)) ≡ true
    → remainder_is_one (front ++ (y ∷ back)) ≡ true
    → x ≡ y
remainder_is_one-one_value front back x y hx hy same p q =
    let n = int_from 0 (decimals front) in
    let px = remainder_is_one-int_from (front ++ (x ∷ back)) p in
    let py = remainder_is_one-int_from (front ++ (y ∷ back)) q in
    int_from-decimal_inj n x y hx hy same (
      int_from-inj (decimals back) (int_from n (value_digits x)) (int_from n (value_digits y)) (
        ap (λ k. k % 97) (sym (decimals-middle front back x 0))
        ∙ px
        ∙ sym py
        ∙ ap (λ k. k % 97) (decimals-middle front back y 0)))

-- Where a place of a text stands when the first characters are cut off: among them, or behind.
Place : ℕ → Text → Text → Type 0
Place n front back =
    ((d : Text) × (t : Text) × (t' : Text) × ((c : ℕ)
        → (drop n (front ++ (c ∷ back)) ≡ d) × (take n (front ++ (c ∷ back)) ≡ t ++ (c ∷ t'))))
    ⊎ ((d : Text) × (d' : Text) × (t : Text) × ((c : ℕ)
          → (drop n (front ++ (c ∷ back)) ≡ d ++ (c ∷ d')) × (take n (front ++ (c ∷ back)) ≡ t)))

cut-Place : (n : ℕ) (front back : Text) → Place n front back
unfolding Place
cut-Place zero front back = inr (front, back, [], λ c. (refl, refl))
cut-Place (suc n) [] back = inl (drop n back, [], take n back, λ c. (refl, refl))
cut-Place (suc n) (g ∷ front) back = elim (cut-Place n front back) [
  | inl (d, t, t', at) ↦ inl (d, g ∷ t, t', λ c. ((at c).0, ap (λ (r : Text). g ∷ r) (at c).1))
  | inr (d, d', t, at) ↦ inr (d, d', g ∷ t, λ c. ((at c).0, ap (λ (r : Text). g ∷ r) (at c).1))
]

rearranged-Place :
    (front back : Text)
    → (before : Text) × (after : Text) × ((c : ℕ)
        → rearranged (front ++ (c ∷ back)) ≡ before ++ (c ∷ after))
unfolding Place rearranged
rearranged-Place front back = elim (cut-Place 4 front back) [
  | inl (d, t, t', at) ↦
      (d ++ t, t', λ c. rw ((at c).0, (at c).1) (sym (append_assoc d t (c ∷ t'))))
  | inr (d, d', t, at) ↦ (d, d' ++ t, λ c. rw ((at c).0, (at c).1) (append_assoc d (c ∷ d') t))
]

joined : Option (List ℕ) → Option ℕ → Option (List ℕ) → Option (List ℕ)
joined (some front) (some x) (some back) = some (front ++ (x ∷ back))
joined (some front) (some x) none = none
joined (some front) none back = none
joined none x back = none

module _ (u : Unicode) (int_36 : ℕ → Option ℕ) where
  and_value-joined :
      (v : Option ℕ) (front : Option (List ℕ)) (x : Option ℕ) (back : Option (List ℕ))
      → and_value u int_36 v (joined front x back) ≡ joined (and_value u int_36 v front) x back
  unfolding and_value joined
  and_value-joined none front x back = refl
  and_value-joined (some v) none x back = refl
  and_value-joined (some v) (some front) none back = refl
  and_value-joined (some v) (some front) (some x) none = refl
  and_value-joined (some v) (some front) (some x) (some back) = refl

  and_value-joined_nil :
      (x : Option ℕ) (back : Option (List ℕ)) → and_value u int_36 x back ≡ joined (some []) x back
  unfolding and_value joined
  and_value-joined_nil none back = refl
  and_value-joined_nil (some x) none = refl
  and_value-joined_nil (some x) (some back) = refl

  values_of-joined :
      (before after : Text) (c : ℕ)
      → values_of u int_36 (before ++ (c ∷ after))
        ≡ joined (values_of u int_36 before) (int_36 c) (values_of u int_36 after)
  unfolding values_of
  values_of-joined [] after c = and_value-joined_nil (int_36 c) (values_of u int_36 after)
  values_of-joined (b ∷ before) after c =
      ap (and_value u int_36 (int_36 b)) (values_of-joined before after c)
      ∙ and_value-joined (int_36 b) (values_of u int_36 before) (int_36 c)
          (values_of u int_36 after)

  joined_values :
      (front back : Option (List ℕ)) (x y : ℕ)
      → x < 36
      → y < 36
      → ltb x 10 ≡ ltb y 10
      → passes_of u int_36 (joined front (some x) back) ≡ some true
      → passes_of u int_36 (joined front (some y) back) ≡ some true
      → x ≡ y
  unfolding passes_of joined
  joined_values (some front) (some back) x y hx hy same p q =
      remainder_is_one-one_value front back x y hx hy same (cc p) (cc q)
  joined_values (some front) none x y hx hy same p q = cc p
  joined_values none back x y hx hy same p q = cc p

  valid_iban-passes :
      (value compact : Text)
      → compact_of u int_36 value ≡ compact
      → valid_iban u int_36 value ≡ some true
      → passes_of u int_36 (values_of u int_36 (rearranged compact)) ≡ some true
  unfolding valid_iban
  valid_iban-passes value compact is h =
      let n = length (compact_of u int_36 value) in
      subst (λ t. passes_of u int_36 (values_of u int_36 (rearranged t)) ≡ some true) is
        (elim (Bool-cases (not (leb 15 n && leb n 34))) [
          | inl out ↦ absurd (cc (rw out at h))
          | inr within ↦ rw within at h
        ])

  passes-joined :
      (value front back before after : Text) (c x : ℕ)
      → compact_of u int_36 value ≡ front ++ (c ∷ back)
      → rearranged (front ++ (c ∷ back)) ≡ before ++ (c ∷ after)
      → int_36 c ≡ some x
      → valid_iban u int_36 value ≡ some true
      → passes_of u int_36 (joined (values_of u int_36 before) (some x) (values_of u int_36 after))
        ≡ some true
  passes-joined value front back before after c x is at of_c p =
      subst
        (λ o.
          passes_of u int_36 (joined (values_of u int_36 before) o (values_of u int_36 after))
          ≡ some true)
        of_c
        (sym
            (ap (passes_of u int_36) (ap (values_of u int_36) at ∙ values_of-joined before after c))
          ∙ valid_iban-passes value (front ++ (c ∷ back)) is p)

  -- Where two account numbers that pass differ, in their compact form, in one character at most,
  -- and the two characters there stand both for one decimal digit or both for two, the two stand
  -- for the same value.
  pub valid_iban-one_character :
      (v w front back : Text) (c e x y : ℕ)
      → compact_of u int_36 v ≡ front ++ (c ∷ back)
      → compact_of u int_36 w ≡ front ++ (e ∷ back)
      → int_36 c ≡ some x
      → int_36 e ≡ some y
      → x < 36
      → y < 36
      → ltb x 10 ≡ ltb y 10
      → valid_iban u int_36 v ≡ some true
      → valid_iban u int_36 w ≡ some true
      → x ≡ y
  valid_iban-one_character v w front back c e x y at_v at_w of_c of_e hx hy same p q =
      let (before, after, at) = rearranged-Place front back in
      joined_values (values_of u int_36 before) (values_of u int_36 after) x y hx hy same
        (passes-joined v front back before after c x at_v (at c) of_c p)
        (passes-joined w front back before after e y at_w (at e) of_e q)

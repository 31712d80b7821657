-- ===== src/DataProtection/Luhn/Detects.antt =====
-- Which misread numbers the checksum finds: one wrong digit, two neighbours in the wrong order.
use gitreins.Prelude.{
  ℕ, suc, ◌+◌, ◌%◌, ◌<◌, ◌≡◌, ◌⊎◌, refl, Bool, true, not, List, [], ◌∷◌, ◌++◌, nat_beq, length,
  length-append,
}
use gitreins.DataProtection.Luhn.{counted, luhn_loop, luhn_digits}
use native.Mathlib.Omega.{arith}

luhn_loop-add :
    (digits : List ℕ) (parity index checksum : ℕ)
    → luhn_loop parity index checksum digits ≡ checksum + luhn_loop parity index 0 digits
unfolding luhn_loop
luhn_loop-add [] parity index checksum = omega arith
luhn_loop-add (x ∷ xs) parity index checksum =
    let c = counted (nat_beq (index % 2) parity) x in
    omega (
      arith,
      luhn_loop-add xs parity (index + 1) (checksum + c),
      luhn_loop-add xs parity (index + 1) (0 + c),
    )

luhn_loop-append :
    (xs ys : List ℕ) (parity index checksum : ℕ)
    → luhn_loop parity index checksum (xs ++ ys)
      ≡ luhn_loop parity (index + length xs) (luhn_loop parity index checksum xs) ys
unfolding luhn_loop
luhn_loop-append [] ys parity index checksum = let e : index + 0 ≡ index = omega arith in rw e refl
luhn_loop-append (x ∷ xs) ys parity index checksum =
    let e : index + suc (length xs) ≡ index + 1 + length xs = omega arith in
    rw e (
      luhn_loop-append xs ys parity (index + 1) (checksum + counted (nat_beq (index % 2) parity) x))

-- What a part of the number adds: the digits before, the part, and the digits after.
luhn_loop-middle :
    (front middle back : List ℕ) (parity : ℕ)
    → luhn_loop parity 0 0 (front ++ (middle ++ back))
      ≡ luhn_loop parity 0 0 front
        + luhn_loop parity (length front) 0 middle
        + luhn_loop parity (length front + length middle) 0 back
luhn_loop-middle front middle back parity =
    let n = length front in
    let start : 0 + n ≡ n = omega arith in
    rw (luhn_loop-append front (middle ++ back) parity 0 0, start)
      (omega (
        arith,
        luhn_loop-add (middle ++ back) parity n (luhn_loop parity 0 0 front),
        luhn_loop-append middle back parity n 0,
        luhn_loop-add back parity (n + length middle) (luhn_loop parity n 0 middle),
      ))

luhn_digits-checksum :
    (digits : List ℕ)
    → luhn_digits digits ≡ true
    → luhn_loop (length digits % 2) 0 0 digits % 10 ≡ 0
unfolding luhn_digits
luhn_digits-checksum digits h = ground arith

length-middle :
    (front middle back : List ℕ)
    → length (front ++ (middle ++ back)) ≡ length front + length middle + length back
length-middle front middle back =
    omega (arith, length-append front (middle ++ back), length-append middle back)

-- Two numbers that pass, alike but for parts of one length: the parts add the same, modulo ten.
same_part :
    (front one other back : List ℕ)
    → length one ≡ length other
    → luhn_digits (front ++ (one ++ back)) ≡ true
    → luhn_digits (front ++ (other ++ back)) ≡ true
    → (parity : ℕ) × (parity < 2)
      × (luhn_loop parity (length front) 0 one % 10 ≡ luhn_loop parity (length front) 0 other % 10)
same_part front one other back same p q =
    let parity = length (front ++ (one ++ back)) % 2 in
    let alike : length (front ++ (other ++ back)) % 2 ≡ parity =
      omega (arith, length-middle front one back, length-middle front other back) in
    let first = luhn_digits-checksum (front ++ (one ++ back)) p in
    let second : luhn_loop parity 0 0 (front ++ (other ++ back)) % 10 ≡ 0 =
      rw (← alike) (luhn_digits-checksum (front ++ (other ++ back)) q) in
    let tail : luhn_loop parity (length front + length one) 0 back
        ≡ luhn_loop parity (length front + length other) 0 back =
      rw same refl in
    (
      parity,
      omega arith,
      omega
          (arith, luhn_loop-middle front one back parity, luhn_loop-middle front other back parity),
    )

one_part :
    (parity index x : ℕ)
    → luhn_loop parity index 0 (x ∷ []) ≡ counted (nat_beq (index % 2) parity) x
unfolding luhn_loop
one_part parity index x = omega arith

next_parity :
    (parity index : ℕ)
    → parity < 2
    → nat_beq ((index + 1) % 2) parity ≡ not (nat_beq (index % 2) parity)
next_parity parity index h = ground arith

two_parts :
    (parity index x y : ℕ)
    → parity < 2
    → luhn_loop parity index 0 (x ∷ y ∷ [])
      ≡ counted (nat_beq (index % 2) parity) x + counted (not (nat_beq (index % 2) parity)) y
unfolding luhn_loop
two_parts parity index x y h = rw (next_parity parity index h) (omega arith)

counted_inj : (b : Bool) (x y : ℕ) → x < 10 → y < 10 → counted b x % 10 ≡ counted b y % 10 → x ≡ y
counted_inj b x y hx hy e = ground arith

counted_swap :
    (b : Bool) (x y : ℕ)
    → x < 10
    → y < 10
    → (counted b x + counted (not b) y) % 10 ≡ (counted b y + counted (not b) x) % 10
    → (x ≡ y) ⊎ ((x % 9 ≡ 0) × (y % 9 ≡ 0))
counted_swap b x y hx hy e = ground arith

-- A number that differs from one that passes in one digit does not pass.
pub luhn_digits-one_digit :
    (front back : List ℕ) (x y : ℕ)
    → x < 10
    → y < 10
    → luhn_digits (front ++ (x ∷ back)) ≡ true
    → luhn_digits (front ++ (y ∷ back)) ≡ true
    → x ≡ y
luhn_digits-one_digit front back x y hx hy p q =
    let (parity, small, e) = same_part front (x ∷ []) (y ∷ []) back refl p q in
    counted_inj (nat_beq (length front % 2) parity) x y hx hy
      (omega (arith, one_part parity (length front) x, one_part parity (length front) y))

-- Where two neighbouring digits can stand in either order in a number that passes, they are equal
-- or each is 0 or 9.
pub luhn_digits-swapped :
    (front back : List ℕ) (x y : ℕ)
    → x < 10
    → y < 10
    → luhn_digits (front ++ (x ∷ y ∷ back)) ≡ true
    → luhn_digits (front ++ (y ∷ x ∷ back)) ≡ true
    → (x ≡ y) ⊎ ((x % 9 ≡ 0) × (y % 9 ≡ 0))
luhn_digits-swapped front back x y hx hy p q =
    let (parity, small, e) = same_part front (x ∷ y ∷ []) (y ∷ x ∷ []) back refl p q in
    counted_swap (nat_beq (length front % 2) parity) x y hx hy (
      omega (
        arith,
        two_parts parity (length front) x y small,
        two_parts parity (length front) y x small,
      ))

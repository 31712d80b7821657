-- ===== src/DataProtection/Luhn/Reference.antt =====
-- The checksum as the standard states it: from the right, every second digit is doubled.
use gitreins.Prelude.{
  ℕ, Bool, true, false, if◌then◌else◌, ◌*◌, ◌/◌, ◌<◌, All, All-append, suc, ◌+◌, ◌%◌, ◌≡◌, ◌∙◌, ap,
  refl, ◌&&◌, List, [], ◌∷◌, ◌++◌, leb, nat_beq, length, length-append,
}
use gitreins.DataProtection.Luhn.{counted, luhn_loop, luhn_digits}
use mathlib.Core.List.{reverse, reverse-append}
use native.Mathlib.Omega.{arith}

-- The sum of the digits of a number of two digits
abbrev pub digit_sum : ℕ → ℕ
digit_sum n = n / 10 + n % 10

-- The digits, the last one first, the place of the first being `place`: a digit at an odd place
-- counts for the sum of the digits of its double, another for itself.
abbrev pub right_sum : ℕ → List ℕ → ℕ
right_sum place [] = 0
right_sum place (digit ∷ digits) =
    (if nat_beq (place % 2) 1 then digit_sum (digit * 2) else digit) + right_sum (place + 1) digits

-- The same sum with what the loop counts.
abbrev counted_sum : ℕ → List ℕ → ℕ
counted_sum place [] = 0
counted_sum place (digit ∷ digits) =
    counted (nat_beq (place % 2) 1) digit + counted_sum (place + 1) digits

counted_lem :
    (odd : Bool) (digit : ℕ)
    → digit < 10
    → counted odd digit ≡ (if odd then digit_sum (digit * 2) else digit)
counted_lem true digit h = ground arith
counted_lem false digit h = refl

counted_sum-right_sum :
    (digits : List ℕ) (place : ℕ)
    → All (λ digit. digit < 10) digits
    → counted_sum place digits ≡ right_sum place digits
counted_sum-right_sum [] place h = refl
counted_sum-right_sum (x ∷ xs) place h =
    rw (counted_lem (nat_beq (place % 2) 1) x h.0, counted_sum-right_sum xs (place + 1) h.1) refl

counted_sum-append :
    (xs : List ℕ) (place digit : ℕ)
    → counted_sum place (xs ++ digit ∷ [])
      ≡ counted_sum place xs + counted (nat_beq ((place + length xs) % 2) 1) digit
counted_sum-append [] place digit = let e : place + 0 ≡ place = omega arith in rw e (omega arith)
counted_sum-append (x ∷ xs) place digit =
    let e : place + suc (length xs) ≡ place + 1 + length xs = omega arith in
    rw e (omega (arith, counted_sum-append xs (place + 1) digit))

reverse-cons : (x : ℕ) (xs : List ℕ) → reverse (x ∷ xs) ≡ reverse xs ++ x ∷ []
reverse-cons x xs = reverse-append (x ∷ []) xs

length-reverse : (xs : List ℕ) → length (reverse xs) ≡ length xs
length-reverse [] = refl
length-reverse (x ∷ xs) =
    ap length (reverse-cons x xs)
    ∙ omega (arith, length-append (reverse xs) (x ∷ []), length-reverse xs)

-- An index has the parity of the length exactly when its place from the right is odd.
same_parity :
    (index n parity : ℕ)
    → (index + suc n) % 2 ≡ parity
    → nat_beq (index % 2) parity ≡ nat_beq ((0 + n) % 2) 1
same_parity index n parity h = ground arith

luhn_loop-eq-counted_sum :
    (digits : List ℕ) (parity index checksum : ℕ)
    → (index + length digits) % 2 ≡ parity
    → luhn_loop parity index checksum digits ≡ checksum + counted_sum 0 (reverse digits)
unfolding luhn_loop
luhn_loop-eq-counted_sum [] parity index checksum h = omega arith
luhn_loop-eq-counted_sum (x ∷ xs) parity index checksum h =
    rw (reverse-cons x xs, counted_sum-append (reverse xs) 0 x, length-reverse xs)
      (rw (← same_parity index (length xs) parity h) (
        omega (
          arith,
          luhn_loop-eq-counted_sum xs parity (index + 1)
              (checksum + counted (nat_beq (index % 2) parity) x) (omega arith),
        )))

All-reverse : (xs : List ℕ) → All (λ digit. digit < 10) xs → All (λ digit. digit < 10) (reverse xs)
All-reverse [] h = tt
All-reverse (x ∷ xs) h =
    rw (reverse-cons x xs)
      (All-append (λ digit. digit < 10) (reverse xs) (x ∷ []) (All-reverse xs h.1) (h.0, tt))

-- Of decimal digits, `_luhn` accepts exactly those that are at least 13 and whose sum from the
-- right is a multiple of ten, where every second digit counts for the sum of the digits of its
-- double.
pub luhn_digits-eq-right_sum :
    (digits : List ℕ)
    → All (λ digit. digit < 10) digits
    → luhn_digits digits ≡ (leb 13 (length digits) && nat_beq (right_sum 0 (reverse digits) % 10) 0)
unfolding luhn_digits
luhn_digits-eq-right_sum digits h =
    rw
      (
        ← counted_sum-right_sum (reverse digits) 0 (All-reverse digits h),
        luhn_loop-eq-counted_sum digits (length digits % 2) 0 0 (omega arith),
      )
      (ground arith)

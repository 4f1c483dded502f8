-- ===== src/Prelude/Text/Decimal.antt =====
-- Decimal numbers: `strconv.Atoi` and the verb `%d` at a number that is not negative.
use Prim.Native.Nat.{ℕ, zero, suc, ◌+◌, ◌-◌, ◌*◌, ◌/◌, ◌%◌, ◌^◌, ◌≤◌, ◌<◌}
use mathlib.Core.Path.{◌≡◌, refl, ◌∙◌}
use mathlib.Core.Bool.{◌&&◌}
use mathlib.Core.Logic.{inl, inr, ◌≢◌}
use mathlib.Core.Option.{Option, none, some}
use mathlib.Core.List.{List, [], ◌∷◌, ◌++◌, concat-ne-nil}
use native.Mathlib.Omega.{arith}
use jobs_scraper.Prelude.Tests.{ltb, leb, ◌==◌, if◌then◌else◌, Bool-cases}
use jobs_scraper.Prelude.Lists.{All, All-append}
use jobs_scraper.Prelude.Int.{ℤ, pos, negate}

-- The digits of `s` read behind the number `n`; `none` at any other character.
unfoldable pub read_digits : ℕ → List ℕ → Option ℕ
read_digits n [] = some n
read_digits n (c ∷ s) =
    let rest = read_digits (n * 10 + (c - b'0')) s in
    if leb b'0' c && leb c b'9' then rest else none

read_unsigned : List ℕ → Option ℕ
unfolding read_digits
read_unsigned [] = none
read_unsigned (c ∷ s) = read_digits 0 (c ∷ s)

-- `int` has 64 bits.
abbrev pub max_int : ℕ
max_int = 2 ^ 63 - 1

at_most : ℕ → (ℕ → ℤ) → Option ℕ → Option ℤ
at_most bound sign none = none
at_most bound sign (some n) = if leb n bound then some (sign n) else none

-- `strconv.Atoi`; `none` stands for its errors, syntax and range alike.
unfoldable pub atoi : List ℕ → Option ℤ
unfolding read_unsigned at_most
atoi [] = none
atoi (c ∷ s) =
    if c == b'-'
    then at_most (max_int + 1) negate (read_unsigned s)
    else if c == b'+'
    then at_most max_int pos (read_unsigned s)
    else at_most max_int pos (read_unsigned (c ∷ s))

-- The fuel bounds the number of digits.
digits : ℕ → ℕ → List ℕ
digits zero n = []
digits (suc f) n =
    let more = digits f (n / 10) in
    if ltb n 10 then (b'0' + n) ∷ [] else more ++ (b'0' + n % 10) ∷ []

-- `%d`
unfoldable pub itoa : ℕ → List ℕ
unfolding digits
itoa n = digits (suc n) n

read_digits-snoc :
    (s : List ℕ) (n m d : ℕ)
    → read_digits n s ≡ some m
    → d < 10
    → read_digits n (s ++ (b'0' + d) ∷ []) ≡ some (m * 10 + d)
unfolding read_digits
read_digits-snoc [] n m d h lt = ground arith
read_digits-snoc (c ∷ s) n m d h lt = ground (arith, read_digits-snoc s (n * 10 + (c - b'0')) m d)

read_digits-digits : (f n : ℕ) → n < f → read_digits 0 (digits f n) ≡ some n
unfolding digits
read_digits-digits zero n h = elim h [ ]
read_digits-digits (suc f) n h = elim (Bool-cases (ltb n 10)) [
  | inl small ↦ rw small (unfold read_digits in ground arith)
  | inr large ↦ rw large (
      read_digits-snoc (digits f (n / 10)) 0 (n / 10) (n % 10)
        (read_digits-digits f (n / 10) (ground arith)) (omega arith)
      ∙ ground arith)
]

-- An ASCII digit.
abbrev pub IsDigit : ℕ → Type 0
IsDigit c = (b'0' ≤ c) × (c ≤ b'9')

digits-IsDigit : (f n : ℕ) → All IsDigit (digits f n)
unfolding digits
digits-IsDigit zero n = tt
digits-IsDigit (suc f) n = elim (Bool-cases (ltb n 10)) [
  | inl small ↦ rw small ((omega arith, ground arith), tt)
  | inr large ↦ rw large (
      All-append IsDigit (digits f (n / 10)) _ (digits-IsDigit f (n / 10))
        ((omega arith, omega arith), tt))
]

pub itoa-IsDigit : (n : ℕ) → All IsDigit (itoa n)
unfolding itoa
itoa-IsDigit n = digits-IsDigit (suc n) n

digits-ne-nil : (f n : ℕ) → digits (suc f) n ≢ []
unfolding digits
digits-ne-nil f n = elim (Bool-cases (ltb n 10)) [
  | inl small ↦ rw small (λ h. cc)
  | inr large ↦ rw large (concat-ne-nil (b'0' + n % 10) (digits f (n / 10)))
]

pub itoa-ne-nil : (n : ℕ) → itoa n ≢ []
unfolding itoa
itoa-ne-nil n = digits-ne-nil n n

atoi_of_digits :
    (s : List ℕ) (n : ℕ)
    → s ≢ []
    → All IsDigit s
    → read_digits 0 s ≡ some n
    → n ≤ max_int
    → atoi s ≡ some (pos n)
unfolding atoi
atoi_of_digits [] n h d r fits = absurd (h refl)
atoi_of_digits (c ∷ s) n h d r fits = ground (arith, d.0)

-- A number that fits is read back from its print.
pub atoi-itoa : (n : ℕ) → n ≤ max_int → atoi (itoa n) ≡ some (pos n)
unfolding itoa
atoi-itoa n =
    atoi_of_digits (digits (suc n) n) n (digits-ne-nil n n) (digits-IsDigit (suc n) n)
      (read_digits-digits (suc n) n (omega arith))

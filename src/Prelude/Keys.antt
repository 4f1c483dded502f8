-- ===== src/Prelude/Keys.antt =====
-- Types whose values the program compares, and sets and maps keyed by them. A Go set
-- `map[K]bool` is the list of the keys put into it, a Go map `map[K]V` an association list.
use Prim.Native.Nat.{ℕ, ◌+◌, ◌≤◌, ◌<◌}
use mathlib.Core.Path.{◌≡◌, refl, subst}
use mathlib.Core.Logic.{◌↔◌, inl, inr}
use mathlib.Core.Bool.{Bool, true, false, ◌&&◌, ◌||◌}
use mathlib.Core.Option.{Option, none, some}
use mathlib.Core.List.{List, [], ◌∷◌, ◌++◌}
use native.Mathlib.Omega.{arith}
use jobs_scraper.Prelude.Tests.{◌==◌ as nat_beq, ==_iff, if◌then◌else◌, Bool-cases}
use jobs_scraper.Prelude.Int.{ℤ, eqb_ℤ, eqb_ℤ_iff}
use jobs_scraper.Prelude.Lists.{All, keep}

-- A Boolean test of equality that agrees with the path type.
pub record Eq {ℓ} (K : Type ℓ) : Type ℓ where
  pub test : K → K → Bool
  pub agrees : (j k : K) → (test j k ≡ true) ↔ (j ≡ k)

infix 50 ◌==◌
abbrev pub ◌==◌ {ℓ} : {K : Type ℓ} ⦃keys : Eq K⦄ → K → K → Bool
◌==◌ ⦃keys⦄ = keys.test

instance abbrev pub int_eq : Eq ℤ
int_eq = record { test = eqb_ℤ; agrees = eqb_ℤ_iff }

-- Native numbers, and so characters.
instance abbrev pub nat_eq : Eq ℕ
nat_eq = record { test = nat_beq; agrees = ==_iff }

abbrev pub list_beq {ℓ} : {A : Type ℓ} ⦃e : Eq A⦄ → List A → List A → Bool
list_beq [] [] = true
list_beq [] (y ∷ ys) = false
list_beq (x ∷ xs) [] = false
list_beq (x ∷ xs) (y ∷ ys) = (x == y) && list_beq xs ys

module _ {ℓ} {A : Type ℓ} ⦃e : Eq A⦄ where
  list_beq→eq : (xs ys : List A) → list_beq xs ys ≡ true → xs ≡ ys
  list_beq→eq [] [] h = refl
  list_beq→eq [] (y ∷ ys) h = ground arith
  list_beq→eq (x ∷ xs) [] h = ground arith
  list_beq→eq (x ∷ xs) (y ∷ ys) h = ground (arith, e.agrees x y, list_beq→eq xs ys)

  list_beq_self : (xs : List A) → list_beq xs xs ≡ true
  list_beq_self [] = refl
  list_beq_self (x ∷ xs) = ground (arith, e.agrees x x, list_beq_self xs)

  pub list_beq_iff : (xs ys : List A) → (list_beq xs ys ≡ true) ↔ (xs ≡ ys)
  list_beq_iff xs ys = (list_beq→eq xs ys, λ p. rw p (list_beq_self ys))

instance abbrev pub list_eq {ℓ} : {A : Type ℓ} ⦃e : Eq A⦄ → Eq (List A)
list_eq = record { test = list_beq; agrees = list_beq_iff }

module _ {ℓ} {A : Type ℓ} ⦃e : Eq A⦄ where
  -- `seen[a]`
  abbrev pub member : A → List A → Bool
  member a [] = false
  member a (x ∷ xs) = a == x || member a xs

  -- No key stands twice.
  abbrev pub Distinct : List A → Type 0
  Distinct [] = Unit {0}
  Distinct (x ∷ xs) = (member x xs ≡ false) × Distinct xs

  -- Every value of the first list stands in the second.
  abbrev pub Within : List A → List A → Type 0
  Within [] ys = Unit {0}
  Within (x ∷ xs) ys = (member x ys ≡ true) × Within xs ys

  pub eq_self : (a : A) → (a == a) ≡ true
  eq_self a = (e.agrees a a).1 refl

  pub member_self : (a : A) (xs : List A) → member a (a ∷ xs) ≡ true
  member_self a xs = rw (eq_self a) refl

  pub member-append : (a : A) (xs ys : List A) → member a (xs ++ ys) ≡ (member a xs || member a ys)
  member-append a [] ys = refl
  member-append a (x ∷ xs) ys = ground (arith, member-append a xs ys)

  pub Distinct-snoc :
      (xs : List A) (a : A) → Distinct xs → member a xs ≡ false → Distinct (xs ++ a ∷ [])
  Distinct-snoc [] a d h = (refl, tt)
  Distinct-snoc (x ∷ xs) a d h =
      ground
        (arith, member-append x xs (a ∷ []), e.agrees a x, e.agrees x a, Distinct-snoc xs a d.1)

module _ {ℓ} {A : Type ℓ} ⦃e : Eq A⦄ where
  -- How often a value stands in a list.
  abbrev pub count : A → List A → ℕ
  count a [] = 0
  count a (x ∷ xs) = (if a == x then 1 else 0) + count a xs

  -- 1 for a member of a set, 0 for any other value.
  abbrev pub mark : A → List A → ℕ
  mark a xs = if member a xs then 1 else 0

  pub count-append :
      (k : A) (front back : List A) → count k (front ++ back) ≡ count k front + count k back
  count-append k [] back = omega arith
  count-append k (j ∷ front) back = omega (arith, count-append k front back)

  pub count-keep : (a : A) (p : A → Bool) (xs : List A) → count a (keep p xs) ≤ count a xs
  count-keep a p [] = omega arith
  count-keep a p (x ∷ xs) = ground (arith, count-keep a p xs)

  pub member-of_count : (a : A) (xs : List A) → 0 < count a xs → member a xs ≡ true
  member-of_count a [] h = absurd (omega arith)
  member-of_count a (x ∷ xs) h = ground (arith, member-of_count a xs)

  -- A new key is marked once more by its insertion, and no other key is.
  pub mark-cons :
      (x a : A) (xs : List A)
      → member a xs ≡ false
      → mark x (a ∷ xs) ≡ (if x == a then 1 else 0) + mark x xs
  mark-cons x a xs h = elim (Bool-cases (x == a)) [
    | inl same ↦
        let fresh : member x xs ≡ false = rw ((e.agrees x a).0 same) h in rw (same, fresh) refl
    | inr other ↦ rw other (omega arith)
  ]

  -- Values that are all new to `a ∷ seen` do not hold `a`.
  pub not_member-new :
      (a : A) (xs seen : List A) → All (λ x. member x (a ∷ seen) ≡ false) xs → member a xs ≡ false
  not_member-new a [] seen h = refl
  not_member-new a (x ∷ xs) seen h =
      ground (arith, e.agrees a x, e.agrees x a, not_member-new a xs seen h.1)

  -- Values that are new to `a ∷ seen` are new to `seen`.
  pub new-tail :
      (a : A) (xs seen : List A)
      → All (λ x. member x (a ∷ seen) ≡ false) xs
      → All (λ x. member x seen ≡ false) xs
  new-tail a [] seen h = tt
  new-tail a (x ∷ xs) seen h = (ground arith, new-tail a xs seen h.1)

  pub Within-of :
      (xs ys : List A) → ((x : A) → member x xs ≡ true → member x ys ≡ true) → Within xs ys
  Within-of [] ys f = tt
  Within-of (x ∷ xs) ys f = (f x (member_self x xs), Within-of xs ys (λ y h. f y (ground arith)))

  pub Within-self : (xs : List A) → Within xs xs
  Within-self xs = Within-of xs xs (λ x h. h)

  -- What holds of every element holds of a member.
  pub All-member {κ} : (P : A → Type κ) (a : A) (xs : List A) → All P xs → member a xs ≡ true → P a
  All-member P a [] h m = absurd (ground arith)
  All-member P a (x ∷ xs) h m = elim (Bool-cases (a == x)) [
    | inl same ↦ rw ((e.agrees a x).0 same) h.0
    | inr other ↦ All-member P a xs h.1 (rw other at m)
  ]

module _ {ℓ κ} {K : Type ℓ} {V : Type κ} ⦃e : Eq K⦄ where
  -- `m[k]`, with `none` where Go's second result is false.
  abbrev pub lookup : K → List (K × V) → Option V
  lookup wanted [] = none
  lookup wanted ((key, value) ∷ rest) = if key == wanted then some value else lookup wanted rest

  -- `m[k] = v`
  abbrev pub insert : K → V → List (K × V) → List (K × V)
  insert put value [] = (put, value) ∷ []
  insert put value ((key, old) ∷ rest) =
      if key == put then (put, value) ∷ rest else (key, old) ∷ insert put value rest

  pub lookup-insert :
      (put wanted : K) (value : V) (entries : List (K × V))
      → lookup wanted (insert put value entries)
        ≡ (if put == wanted then some value else lookup wanted entries)
  lookup-insert put wanted value [] = refl
  lookup-insert put wanted value ((key, old) ∷ rest) = ground (
    arith,
    e.agrees put wanted,
    e.agrees key put,
    e.agrees key wanted,
    lookup-insert put wanted value rest,
  )

  pub All-insert {ι} :
      (P : K × V → Type ι) (k : K) (v : V) (m : List (K × V))
      → P (k, v)
      → All P m
      → All P (insert k v m)
  All-insert P k v [] h a = (h, tt)
  All-insert P k v ((j, w) ∷ m) h a = elim (Bool-cases (j == k)) [
    | inl same ↦ rw same (h, a.1)
    | inr other ↦ rw other (a.0, All-insert P k v m h a.1)
  ]

  -- What holds of every entry holds of what a key finds.
  pub All-lookup {ι} :
      (P : K × V → Type ι) (k : K) (m : List (K × V)) {v : V}
      → All P m
      → lookup k m ≡ some v
      → P (k, v)
  All-lookup P k [] a h = absurd (ground arith)
  All-lookup P k ((j, w) ∷ m) {v} a h = elim (Bool-cases (j == k)) [
    | inl same ↦
        let key : j ≡ k = (e.agrees j k).0 same in
        let found : ◌≡◌ {A = Option V} (some w) (some v) = rw same at h in
        let value : w ≡ v = cc in subst (λ x. P (k, x)) value (subst (λ x. P (x, w)) key a.0)
    | inr other ↦ All-lookup P k m a.1 (rw other at h)
  ]

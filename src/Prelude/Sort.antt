-- ===== src/Prelude/Sort.antt =====
-- `slices.SortStableFunc` with the larger key first, and what a stable sort promises.
use Prim.Native.Nat.{ℕ, zero, suc, ◌≤◌}
use mathlib.Core.Path.{◌≡◌, refl, ◌∙◌, ap}
use mathlib.Core.List.{List, [], ◌∷◌, map}
use mathlib.Core.Logic.{inl, inr}
use native.Mathlib.Omega.{arith}
use jobs_scraper.Prelude.Tests.{leb, ◌==◌, if◌then◌else◌, Bool-cases}
use jobs_scraper.Prelude.Lists.{All, All-drop, keep, length, take, drop}
use jobs_scraper.Prelude.Keys.{Eq, count}

module _ {ℓ} {A : Type ℓ} (key : A → ℕ) where
  -- In front of the first element whose key is no larger.
  unfoldable pub place : A → List A → List A
  place x [] = x ∷ []
  place x (y ∷ ys) = let on = place x ys in if leb (key y) (key x) then x ∷ y ∷ ys else y ∷ on

  unfoldable pub sort_newest : List A → List A
  unfolding place
  sort_newest [] = []
  sort_newest (x ∷ xs) = place x (sort_newest xs)

  -- Each element's key is at least every later one's.
  abbrev pub IsNewestFirst : List A → Type ℓ
  IsNewestFirst [] = Unit
  IsNewestFirst (x ∷ xs) = All (λ y. key y ≤ key x) xs × IsNewestFirst xs

module _ {ℓ} {A : Type ℓ} (key : A → ℕ) where
  All-place {κ} : (P : A → Type κ) (x : A) (xs : List A) → P x → All P xs → All P (place key x xs)
  unfolding place
  All-place P x [] h k = (h, tt)
  All-place P x (y ∷ ys) h k = elim (Bool-cases (leb (key y) (key x))) [
    | inl first ↦ rw first (h, k)
    | inr later ↦ rw later (k.0, All-place P x ys h k.1)
  ]

  pub All-sort_newest {κ} : (P : A → Type κ) (xs : List A) → All P xs → All P (sort_newest key xs)
  unfolding sort_newest
  All-sort_newest P [] h = tt
  All-sort_newest P (x ∷ xs) h = All-place P x _ h.0 (All-sort_newest P xs h.1)

  below_trans :
      (x y : A) (ys : List A)
      → key y ≤ key x
      → All (λ z. key z ≤ key y) ys
      → All (λ z. key z ≤ key x) ys
  below_trans x y [] h k = tt
  below_trans x y (z ∷ zs) h k = (omega arith, below_trans x y zs h k.1)

  place-IsNewestFirst :
      (x : A) (xs : List A) → IsNewestFirst key xs → IsNewestFirst key (place key x xs)
  unfolding place
  place-IsNewestFirst x [] h = (tt, tt)
  place-IsNewestFirst x (y ∷ ys) h = elim (Bool-cases (leb (key y) (key x))) [
    | inl first ↦ rw first ((ground arith, below_trans x y ys (ground arith) h.0), h)
    | inr later ↦
        rw later
          (All-place (λ z. key z ≤ key y) x ys (ground arith) h.0, place-IsNewestFirst x ys h.1)
  ]

  pub sort_newest-IsNewestFirst : (xs : List A) → IsNewestFirst key (sort_newest key xs)
  unfolding sort_newest
  sort_newest-IsNewestFirst [] = tt
  sort_newest-IsNewestFirst (x ∷ xs) =
      place-IsNewestFirst x (sort_newest key xs) (sort_newest-IsNewestFirst xs)

  -- A test that needs the key alone keeps the order of what it keeps.
  keep-place :
      (n : ℕ) (x : A) (xs : List A)
      → keep (λ y. key y == n) (place key x xs) ≡ keep (λ y. key y == n) (x ∷ xs)
  unfolding place
  keep-place n x [] = refl
  keep-place n x (y ∷ ys) = ground (arith, keep-place n x ys)

  -- Elements with the same key keep their order, and none is lost or added.
  pub sort_newest-stable :
      (n : ℕ) (xs : List A)
      → keep (λ y. key y == n) (sort_newest key xs) ≡ keep (λ y. key y == n) xs
  unfolding sort_newest
  sort_newest-stable n [] = refl
  sort_newest-stable n (x ∷ xs) =
      keep-place n x (sort_newest key xs) ∙ ground (arith, sort_newest-stable n xs)

  length-place : (x : A) (xs : List A) → length (place key x xs) ≡ suc (length xs)
  unfolding place
  length-place x [] = refl
  length-place x (y ∷ ys) = ground (arith, length-place x ys)

  pub length-sort_newest : (xs : List A) → length (sort_newest key xs) ≡ length xs
  unfolding sort_newest
  length-sort_newest [] = refl
  length-sort_newest (x ∷ xs) = length-place x (sort_newest key xs) ∙ ap suc (length-sort_newest xs)

  -- What is cut off a list with the newest first is no newer than what stays.
  pub drop-le-take :
      (n : ℕ) (xs : List A)
      → IsNewestFirst key xs
      → All (λ y. All (λ x. key y ≤ key x) (take n xs)) (drop n xs)
  drop-le-take zero xs h = none_taken xs
    where
      none_taken : (ys : List A) → All (λ y. All (λ x. key y ≤ key x) []) ys
      none_taken [] = tt
      none_taken (y ∷ ys) = (tt, none_taken ys)
  drop-le-take (suc n) [] h = tt
  drop-le-take (suc n) (x ∷ xs) h =
      both (drop n xs) (drop-le-take n xs h.1) (All-drop (λ y. key y ≤ key x) n xs h.0)
    where
      both :
          (ys : List A)
          → All (λ y. All (λ z. key y ≤ key z) (take n xs)) ys
          → All (λ y. key y ≤ key x) ys
          → All (λ y. All (λ z. key y ≤ key z) (x ∷ take n xs)) ys
      both [] g k = tt
      both (y ∷ ys) g k = ((k.0, g.0), both ys g.1 k.1)

module _ {ℓ κ} {A : Type ℓ} {B : Type κ} ⦃e : Eq B⦄ (key : A → ℕ) (f : A → B) (x : B) where
  count-place : (a : A) (xs : List A) → count x (map f (place key a xs)) ≡ count x (map f (a ∷ xs))
  unfolding place
  count-place a [] = refl
  count-place a (b ∷ bs) = ground (arith, count-place a bs)

  -- Sorting loses and adds no element, however the elements are told apart.
  pub count-sort_newest : (xs : List A) → count x (map f (sort_newest key xs)) ≡ count x (map f xs)
  unfolding sort_newest
  count-sort_newest [] = refl
  count-sort_newest (a ∷ xs) =
      count-place a (sort_newest key xs) ∙ omega (arith, count-sort_newest xs)

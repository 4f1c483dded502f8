-- ===== src/Search/Tags.antt =====
-- Counting the listed tags of a job against asking for each of them.
use jobs_scraper.Prelude.{
  suc, ◌+◌, ◌≡◌, ◌∙◌, refl, sym, ap, inl, inr, Bool, true, false, Bool-cases, ◌&&◌, List, [], ◌∷◌,
  keep, length, length-keep, arith, ◌==◌ as nat_beq,
}
use jobs_scraper.Prelude.Keys.{Eq, ◌==◌, member, mark, Distinct}

module _ {A : Type 0} ⦃e : Eq A⦄ where
  -- Every one of the wanted values is there.
  abbrev pub has_all : List A → List A → Bool
  has_all there [] = true
  has_all there (w ∷ wanted) = member w there && has_all there wanted

  keep-none : (there : List A) → length (keep (λ t. member t []) there) ≡ 0
  keep-none [] = refl
  keep-none (t ∷ there) = keep-none there

  keep-one_absent :
      (w : A) (there : List A) → member w there ≡ false → length (keep (λ t. t == w) there) ≡ 0
  keep-one_absent w [] h = refl
  keep-one_absent w (t ∷ there) h =
      ground (arith, e.agrees w t, e.agrees t w, keep-one_absent w there)

  keep-one :
      (w : A) (there : List A) → Distinct there → length (keep (λ t. t == w) there) ≡ mark w there
  keep-one w [] d = refl
  keep-one w (t ∷ there) d = elim (Bool-cases (t == w)) [
    | inl same ↦
        let other : w == t ≡ true = (e.agrees w t).1 (sym ((e.agrees t w).0 same)) in
        let absent : member w there ≡ false =
          ap (λ x. member x there) (sym ((e.agrees t w).0 same)) ∙ d.0 in
        rw (same, other) (ap (λ n. suc n) (keep-one_absent w there absent))
    | inr other ↦ rw other (ground (arith, e.agrees w t, e.agrees t w, keep-one w there d.1))
  ]

  keep-cons :
      (w : A) (wanted there : List A)
      → member w wanted ≡ false
      → length (keep (λ t. member t (w ∷ wanted)) there)
        ≡ length (keep (λ t. t == w) there) + length (keep (λ t. member t wanted) there)
  keep-cons w wanted [] h = refl
  keep-cons w wanted (t ∷ there) h = elim (Bool-cases (t == w)) [
    | inl same ↦
        let absent : member t wanted ≡ false =
          ap (λ x. member x wanted) ((e.agrees t w).0 same) ∙ h in
        rw (same, absent) (omega (arith, keep-cons w wanted there h))
    | inr other ↦ elim (Bool-cases (member t wanted)) [
      | inl listed ↦ rw (other, listed) (omega (arith, keep-cons w wanted there h))
      | inr unlisted ↦ rw (other, unlisted) (keep-cons w wanted there h)
    ]
  ]

  -- As many of the one list stand in the other as of the other in the one.
  keep-swap :
      (wanted there : List A)
      → Distinct wanted
      → Distinct there
      → length (keep (λ t. member t wanted) there) ≡ length (keep (λ w. member w there) wanted)
  keep-swap [] there d f = keep-none there
  keep-swap (w ∷ wanted) there d f = elim (Bool-cases (member w there)) [
    | inl found ↦
        let one : length (keep (λ t. t == w) there) ≡ 1 = keep-one w there f ∙ rw found refl in
        rw found (omega (arith, keep-cons w wanted there d.0, one, keep-swap wanted there d.1 f))
    | inr missing ↦
        let one : length (keep (λ t. t == w) there) ≡ 0 = keep-one w there f ∙ rw missing refl in
        rw missing (omega (arith, keep-cons w wanted there d.0, one, keep-swap wanted there d.1 f))
  ]

  kept_all :
      (there wanted : List A)
      → nat_beq (length (keep (λ w. member w there) wanted)) (length wanted) ≡ has_all there wanted
  kept_all there [] = refl
  kept_all there (w ∷ wanted) = elim (Bool-cases (member w there)) [
    | inl found ↦ rw found (ground (arith, kept_all there wanted))
    | inr missing ↦ rw missing (ground (arith, length-keep (λ x. member x there) wanted))
  ]

  pub counted-has_all :
      (wanted there : List A)
      → Distinct wanted
      → Distinct there
      → nat_beq (length (keep (λ t. member t wanted) there)) (length wanted) ≡ has_all there wanted
  counted-has_all wanted there d f =
      ap (λ n. nat_beq n (length wanted)) (keep-swap wanted there d f) ∙ kept_all there wanted

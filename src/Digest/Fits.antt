-- ===== src/Digest/Fits.antt =====
-- Which jobs are a good fit.
use jobs_scraper.Prelude.{
  ◌≡◌, ◌⊎◌, ◌∙◌, refl, sym, subst, inl, inr, true, false, Bool-cases, Option, none, some, List, [],
  ◌∷◌, keep, All, arith,
}
use jobs_scraper.Digest.{Scores, Candidate, better, best_score, fits, good_fit_jobs}

module _ (f : Scores) where
  -- A candidate with a given score.
  abbrev pub Has : f.Score → List (Candidate f) → Type 0
  Has best [] = ⊥
  Has best (c ∷ candidates) = (c.match_score ≡ some best) ⊎ Has best candidates

  better-one :
      (best : f.Score) (o : Option f.Score)
      → (better f best o ≡ best) ⊎ (o ≡ some (better f best o))
  better-one best none = inl refl
  better-one best (some s) = elim (Bool-cases (f.above s best)) [
    | inl higher ↦ rw higher (inr refl)
    | inr lower ↦ rw lower (inl refl)
  ]

  best_score-Has :
      (candidates : List (Candidate f)) (best : f.Score)
      → (best_score f candidates best ≡ best) ⊎ Has (best_score f candidates best) candidates
  unfolding best_score
  best_score-Has [] best = inl refl
  best_score-Has (c ∷ candidates) best =
      let next = better f best c.match_score in
      elim (best_score-Has candidates next) [
        | inr later ↦ inr (inr later)
        | inl kept ↦ elim (better-one best c.match_score) [
          | inl same ↦ inl (kept ∙ same)
          | inr here ↦ inr (inl (here ∙ subst (λ s. some next ≡ some s) (sym kept) refl))
        ]
      ]

  keep-Has :
      (best : f.Score) (candidates : List (Candidate f))
      → f.is_fit best best ≡ true
      → Has best candidates
      → Has best (keep (λ c. fits f best c.match_score) candidates)
  keep-Has best [] h has = has
  keep-Has best (c ∷ candidates) h (inl here) =
      let fitting : fits f best c.match_score ≡ true = rw here h in rw fitting (inl here)
  keep-Has best (c ∷ candidates) h (inr later) = elim (Bool-cases (fits f best c.match_score)) [
    | inl fitting ↦ rw fitting (inr (keep-Has best candidates h later))
    | inr other ↦ rw other (keep-Has best candidates h later)
  ]

  kept_fit :
      (best : f.Score) (candidates : List (Candidate f))
      → All
          (λ c. fits f best c.match_score ≡ true)
          (keep (λ c. fits f best c.match_score) candidates)
  kept_fit best [] = tt
  kept_fit best (c ∷ candidates) = elim (Bool-cases (fits f best c.match_score)) [
    | inl fitting ↦ rw fitting (fitting, kept_fit best candidates)
    | inr other ↦ rw other (kept_fit best candidates)
  ]

  -- No job's score is above the given one.
  abbrev pub IsAtMost : f.Score → Option f.Score → Type 0
  IsAtMost best none = Unit
  IsAtMost best (some s) = f.above s best ≡ false

-- A step of the loop keeps the higher of two scores.
better-max :
    (f : Scores) (best : f.Score) (o : Option f.Score)
    → ((s : f.Score) → f.above s s ≡ false)
    → ((s t : f.Score) → f.above s t ≡ true → f.above t s ≡ false)
    → (f.above best (better f best o) ≡ false) × IsAtMost f (better f best o) o
better-max f best none same_law turn_law = (same_law best, tt)
better-max f best (some s) same_law turn_law = elim (Bool-cases (f.above s best)) [
  | inl higher ↦ rw higher (turn_law s best higher, same_law s)
  | inr lower ↦ rw lower (same_law best, lower)
]

IsAtMost-later :
    (f : Scores) (near far : f.Score) (o : Option f.Score)
    → ((r s t : f.Score) → f.above r s ≡ false → f.above s t ≡ false → f.above r t ≡ false)
    → f.above near far ≡ false
    → IsAtMost f near o
    → IsAtMost f far o
IsAtMost-later f near far none chain_law up h = tt
IsAtMost-later f near far (some s) chain_law up h = chain_law s near far h up

best_score-max :
    (f : Scores) (candidates : List (Candidate f)) (best : f.Score)
    → ((s : f.Score) → f.above s s ≡ false)
    → ((s t : f.Score) → f.above s t ≡ true → f.above t s ≡ false)
    → ((r s t : f.Score) → f.above r s ≡ false → f.above s t ≡ false → f.above r t ≡ false)
    → (f.above best (best_score f candidates best) ≡ false)
      × All (λ c. IsAtMost f (best_score f candidates best) c.match_score) candidates
unfolding best_score
best_score-max f [] best same_law turn_law chain_law = (same_law best, tt)
best_score-max f (c ∷ candidates) best same_law turn_law chain_law =
    let next = better f best c.match_score in
    let last = best_score f candidates next in
    let step = better-max f best c.match_score same_law turn_law in
    let rest = best_score-max f candidates next same_law turn_law chain_law in
    (
      chain_law best next last step.0 rest.0,
      (IsAtMost-later f next last c.match_score chain_law rest.0 step.1, rest.1),
    )

good_fit_jobs-best :
    (f : Scores) (candidates : List (Candidate f))
    → f.is_nothing f.nothing ≡ true
    → ((s : f.Score) → f.is_nothing s ≡ false → f.is_fit s s ≡ true)
    → let best = best_score f candidates f.nothing in
      ((f.is_nothing best ≡ true) × (good_fit_jobs f candidates ≡ []))
      ⊎ (Has f best (good_fit_jobs f candidates)
          × All (λ c. fits f best c.match_score ≡ true) (good_fit_jobs f candidates))
unfolding good_fit_jobs
good_fit_jobs-best f candidates zero_law fit_law =
    let best = best_score f candidates f.nothing in
    elim (Bool-cases (f.is_nothing best)) [
      | inl nothing ↦ inl (nothing, rw (nothing, good_fit_jobs) refl)
      | inr something ↦ elim (best_score-Has f candidates f.nothing) [
        | inl start ↦
            absurd
              (differ (sym (subst (λ s. f.is_nothing s ≡ true) (sym start) zero_law) ∙ something))
        | inr has ↦
            rw (something, good_fit_jobs)
              (inr (
                keep-Has f best candidates (fit_law best something) has,
                kept_fit f best candidates,
              ))
      ]
    ]
  where
    differ : true ≡ false → ⊥
    differ e = ground arith

-- Let zero be not above zero, a score above zero fit itself as the best, and the comparison of
-- scores be an order: no score is above itself, of two scores not both are above the other, and what
-- is not above a score that is not above a third is not above the third. Then no candidate's score is
-- above the best score, and either the best score is not above zero and no job is a good fit, or the
-- good fits hold a job with the best score and only jobs whose score is at least the ratio of the best.
pub good_fit_jobs-Has :
    (f : Scores) (candidates : List (Candidate f))
    → f.is_nothing f.nothing ≡ true
    → ((s : f.Score) → f.is_nothing s ≡ false → f.is_fit s s ≡ true)
    → ((s : f.Score) → f.above s s ≡ false)
    → ((s t : f.Score) → f.above s t ≡ true → f.above t s ≡ false)
    → ((r s t : f.Score) → f.above r s ≡ false → f.above s t ≡ false → f.above r t ≡ false)
    → let best = best_score f candidates f.nothing in
      All (λ c. IsAtMost f best c.match_score) candidates
      × (((f.is_nothing best ≡ true) × (good_fit_jobs f candidates ≡ []))
          ⊎ (Has f best (good_fit_jobs f candidates)
              × All (λ c. fits f best c.match_score ≡ true) (good_fit_jobs f candidates)))
good_fit_jobs-Has f candidates zero_law fit_law same_law turn_law chain_law = (
  (best_score-max f candidates f.nothing same_law turn_law chain_law).1,
  good_fit_jobs-best f candidates zero_law fit_law,
)

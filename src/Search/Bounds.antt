-- ===== src/Search/Bounds.antt =====
-- What the setters of a search promise: bounds on the parameters, and errors that name one.
use jobs_scraper.Prelude.{
  ◌≡◌, ◌≢◌, ◌⊎◌, refl, inl, inr, Bool, false, Bool-cases, Option, none, some, [], All,
}
use jobs_scraper.Prelude.Int.{ℤ, pos, ◌≤ℤ◌}
use jobs_scraper.Prelude.Keys.{nat_eq, list_eq}
use jobs_scraper.Prelude.Text.{Text}
use jobs_scraper.Search.{
  max_search_limit, JobSearchParams, Parsed, parsed, refused, Query, numeric, and_then,
}

-- Accepted parameters lie in `P`; a refusal names a parameter of the query and its value.
abbrev pub Gives : Query → (JobSearchParams → Type 0) → Parsed → Type 0
Gives query P (parsed p) = P p
Gives query P (refused name raw) = (raw ≡ query name) × (raw ≢ [])

pub Gives-and_then :
    (query : Query) (P Q : JobSearchParams → Type 0) (r : Parsed) (next : JobSearchParams → Parsed)
    → ((p : JobSearchParams) → P p → Gives query Q (next p))
    → Gives query P r
    → Gives query Q (and_then r next)
Gives-and_then query P Q (parsed p) next f h = f p h
Gives-and_then query P Q (refused name raw) next f h = h

pub Gives-numeric :
    (query : Query) (P : JobSearchParams → Type 0) (name : Text) (bad : ℤ → Bool)
    (store : ℤ → JobSearchParams) (n : Option ℤ)
    → query name ≢ []
    → ((k : ℤ) → bad k ≡ false → P (store k))
    → Gives query P (numeric name (query name) bad store n)
Gives-numeric query P name bad store none h f = (refl, h)
Gives-numeric query P name bad store (some n) h f = elim (Bool-cases (bad n)) [
  | inl b ↦ rw b (refl, h)
  | inr b ↦ rw b (f n b)
]

-- The bounds that every accepted search keeps: a limit of 1 to 50, an offset and a salary that are
-- not negative, a largest salary that is unset or no smaller, and tags that are not empty.
abbrev pub IsSound : JobSearchParams → Type 0
IsSound p =
    ((pos 1 ≤ℤ p.limit) × (p.limit ≤ℤ pos max_search_limit))
    × ((pos 0 ≤ℤ p.offset)
        × ((pos 0 ≤ℤ p.min_salary)
            × (((p.max_salary ≡ pos 0) ⊎ (p.min_salary ≤ℤ p.max_salary))
                × All (λ t. t ≢ []) p.tags)))

-- Before a largest salary is read.
abbrev pub IsOpen : JobSearchParams → Type 0
IsOpen p = IsSound p × (p.max_salary ≡ pos 0)

-- ===== src/Crawl/Seeds.antt =====
-- The crawl of all seeds (FetchJobs and crawlSeedSafely in backend/crawler/crawler.go). The seeds run
-- at the same time and report one by one under a lock: the list of results is in that order.
use jobs_scraper.Prelude.{
  ℕ, suc, ◌+◌, ◌≤◌, ◌≡◌, ◌∙◌, refl, sym, Bool, true, false, ◌&&◌, Option, none, some, List, [], ◌∷◌,
  ◌++◌, append_assoc, append-nil, length, ltb, if◌then◌else◌, ◌==◌ as nat_beq, arith,
}
use jobs_scraper.Jobs.{Job}
use jobs_scraper.Crawl.Steps.{Outcome, refused, crawled}

-- `crawlSeedSafely`, of an outcome or a panic, `none`: the jobs, or `none` for an error.
unfoldable pub crawl_seed_safely : Option Outcome → Option (List Job)
crawl_seed_safely none = none
crawl_seed_safely (some (refused e)) = none
crawl_seed_safely (some (crawled s)) = some s.found

abbrev pub report : Option (List Job) → List Job × ℕ → List Job × ℕ
report none (result, errs) = (result, suc errs)
report (some seed_jobs) (result, errs) = (result ++ seed_jobs, errs)

unfoldable pub collect : List (Option Outcome) → List Job × ℕ → List Job × ℕ
collect [] totals = totals
collect (o ∷ outcomes) totals = collect outcomes (report (crawl_seed_safely o) totals)

-- One outcome for each seed; `none` is the joined error.
unfoldable pub fetch_jobs : List (Option Outcome) → Option (List Job)
fetch_jobs outcomes =
    let totals = collect outcomes ([], 0) in
    if ltb 0 (length outcomes) && nat_beq totals.1 (length outcomes) then none else some totals.0

abbrev pub all_failed : List (Option Outcome) → Bool
all_failed [] = true
all_failed (some (crawled s) ∷ outcomes) = false
all_failed (some (refused e) ∷ outcomes) = all_failed outcomes
all_failed (none ∷ outcomes) = all_failed outcomes

abbrev pub all_found : List (Option Outcome) → List Job
all_found [] = []
all_found (some (crawled s) ∷ outcomes) = s.found ++ all_found outcomes
all_found (some (refused e) ∷ outcomes) = all_found outcomes
all_found (none ∷ outcomes) = all_found outcomes

-- The failures among some outcomes.
abbrev failures : List (Option Outcome) → ℕ
failures [] = 0
failures (some (crawled s) ∷ outcomes) = failures outcomes
failures (some (refused e) ∷ outcomes) = suc (failures outcomes)
failures (none ∷ outcomes) = suc (failures outcomes)

collect-found :
    (outcomes : List (Option Outcome)) (result : List Job) (errs : ℕ)
    → (collect outcomes (result, errs)).0 ≡ result ++ all_found outcomes
unfolding collect crawl_seed_safely
collect-found [] result errs = sym (append-nil result)
collect-found (none ∷ outcomes) result errs = collect-found outcomes result (suc errs)
collect-found (some (refused e) ∷ outcomes) result errs = collect-found outcomes result (suc errs)
collect-found (some (crawled s) ∷ outcomes) result errs =
    collect-found outcomes (result ++ s.found) errs
    ∙ append_assoc result s.found (all_found outcomes)

collect-failures :
    (outcomes : List (Option Outcome)) (result : List Job) (errs : ℕ)
    → (collect outcomes (result, errs)).1 ≡ errs + failures outcomes
unfolding collect crawl_seed_safely
collect-failures [] result errs = omega arith
collect-failures (none ∷ outcomes) result errs =
    collect-failures outcomes result (suc errs) ∙ omega arith
collect-failures (some (refused e) ∷ outcomes) result errs =
    collect-failures outcomes result (suc errs) ∙ omega arith
collect-failures (some (crawled s) ∷ outcomes) result errs =
    collect-failures outcomes (result ++ s.found) errs

failures_le : (outcomes : List (Option Outcome)) → failures outcomes ≤ length outcomes
failures_le [] = omega arith
failures_le (none ∷ outcomes) = omega (arith, failures_le outcomes)
failures_le (some (refused e) ∷ outcomes) = omega (arith, failures_le outcomes)
failures_le (some (crawled s) ∷ outcomes) = omega (arith, failures_le outcomes)

failures-all_failed :
    (outcomes : List (Option Outcome))
    → nat_beq (failures outcomes) (length outcomes) ≡ all_failed outcomes
failures-all_failed [] = refl
failures-all_failed (none ∷ outcomes) = ground (arith, failures-all_failed outcomes)
failures-all_failed (some (refused e) ∷ outcomes) = ground (arith, failures-all_failed outcomes)
failures-all_failed (some (crawled s) ∷ outcomes) = ground (arith, failures_le outcomes)

-- The crawl of all seeds fails exactly if there are seeds and every one of them failed, by an error
-- or a panic. Otherwise it returns all the jobs found by the others, in the order of their reports.
pub fetch_jobs-all_found :
    (outcomes : List (Option Outcome))
    → fetch_jobs outcomes
      ≡ (if ltb 0 (length outcomes) && all_failed outcomes then none else some (all_found outcomes))
unfolding fetch_jobs
fetch_jobs-all_found outcomes = ground (
  arith,
  collect-found outcomes [] 0,
  collect-failures outcomes [] 0,
  failures-all_failed outcomes,
)

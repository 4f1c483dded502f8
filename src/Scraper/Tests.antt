-- ===== src/Scraper/Tests.antt =====
-- Cycles over small sources.
use jobs_scraper.Prelude.{
  ℕ, ◌+◌, ◌/◌, ◌%◌, ◌≡◌, ◌≤◌, ◌⊎◌, refl, true, false, Option, none, List, [], ◌∷◌, ◌++◌, map,
  length, All,
}
use jobs_scraper.Prelude.Int.{ℤ}
use jobs_scraper.Prelude.Keys.{count, mark}
use jobs_scraper.Prelude.Sort.{sort_newest}
use jobs_scraper.Prelude.Text.{Text, codes}
use jobs_scraper.Jobs.{Job, Time, unknown}
use jobs_scraper.Scraper.{
  SourceResult, fetched, failed, panicked, dedupe_key_eq, key_for, fill_salary, merge_batch,
  merge_all, fetch_all, cap_newest_jobs, run_scraper, job_max_age,
}
use jobs_scraper.Scraper.Merge.{fetch_all-count, sent_keys}
use jobs_scraper.Scraper.Cycle.{cap_newest_jobs-newest, run_scraper-IsFit, IsFit}

abbrev posting : Text → Time → Job
posting title posted_at = record {
  title = title;
  company = codes "Acme";
  location = [];
  workplace_type = unknown;
  tags = [];
  salary_min = none;
  salary_max = none;
  posted_at = posted_at;
  url = title;
  description = [];
}

-- Months of ten instants, and no salary in any text.
abbrev calendar : Time → ℕ × ℕ
calendar t = (t / 100, t / 10 % 10)

abbrev no_salary : Text → Option ℤ × Option ℤ
no_salary t = (none, none)

abbrev sources : List SourceResult
sources =
    fetched (posting (codes "clerk") 3 ∷ posting (codes "clerk") 4 ∷ [])
    ∷ failed
    ∷ panicked
    ∷ fetched (posting (codes "clerk") 5 ∷ posting (codes "clerk") 15 ∷ [])
    ∷ []

one_each_month :
    fetch_all calendar no_salary sources
    ≡ posting (codes "clerk") 3 ∷ posting (codes "clerk") 15 ∷ []
unfolding fetch_all merge_all merge_batch fill_salary
one_each_month = refl

newest_two :
    cap_newest_jobs (posting (codes "a") 1 ∷ posting (codes "b") 3 ∷ posting (codes "c") 2 ∷ []) 2
    ≡ posting (codes "b") 3 ∷ posting (codes "c") 2 ∷ []
unfolding cap_newest_jobs sort_newest
newest_two = refl

fetch_all-count_example :
    count
      (key_for calendar no_salary (posting (codes "clerk") 4))
      (map (key_for calendar no_salary) (fetch_all calendar no_salary sources))
    ≡ mark
        (key_for calendar no_salary (posting (codes "clerk") 4))
        (sent_keys calendar no_salary sources)
fetch_all-count_example =
    fetch_all-count calendar no_salary sources
      (key_for calendar no_salary (posting (codes "clerk") 4))

abbrev three : List Job
three = posting (codes "a") 1 ∷ posting (codes "b") 3 ∷ posting (codes "c") 2 ∷ []

cap_newest_jobs-newest_example :
    ((length three ≤ 2) × (cap_newest_jobs three 2 ≡ three))
    ⊎ ((length (cap_newest_jobs three 2) ≡ 2)
        × ((dropped : List Job) × (cap_newest_jobs three 2 ++ dropped
              ≡ sort_newest (λ j. j.posted_at) three)
            × All (λ d. All (λ k. d.posted_at ≤ k.posted_at) (cap_newest_jobs three 2)) dropped))
cap_newest_jobs-newest_example = cap_newest_jobs-newest three 2

run_scraper-IsFit_example :
    All
      (IsFit (key_for calendar no_salary) (10 + job_max_age))
      (run_scraper calendar no_salary sources false (10 + job_max_age) true)
run_scraper-IsFit_example =
    run_scraper-IsFit calendar no_salary sources false (10 + job_max_age) true

-- ===== src/Scraper.antt =====
-- One scrape cycle (backend/scraper/scraper.go): the sources' batches merged without duplicates,
-- expired jobs dropped, the newest kept up to a cap, and the calls to the database around the write.
pub mod Merge
pub mod Cycle
mod Tests
use jobs_scraper.Prelude.{
  ℕ, ◌+◌, ◌-◌, ◌*◌, ◌≡◌, ◌↔◌, Bool, true, false, not, ◌&&◌, ◌||◌, Option, none, some, List, [], ◌∷◌,
  ◌++◌, map, length, take, keep, leb, ltb, if◌then◌else◌, arith, ◌==◌ as nat_beq,
}
use jobs_scraper.Prelude.Int.{ℤ}
use jobs_scraper.Prelude.Keys.{Eq, ◌==◌, nat_eq, list_eq, list_beq, list_beq_iff, member}
use jobs_scraper.Prelude.Sort.{sort_newest}
use jobs_scraper.Prelude.Text.{Text}
use jobs_scraper.Jobs.{Job, Time}

-- `JobMaxAge`, in nanoseconds, and `MaxJobs`.
abbrev pub job_max_age : ℕ
job_max_age = 30 * 24 * 3_600_000_000_000

abbrev pub max_jobs : ℕ
max_jobs = 5000

unfoldable pub drop_expired_jobs : List Job → Time → List Job
drop_expired_jobs fetched cutoff =
    keep (λ job. nat_beq job.posted_at 0 || not (ltb job.posted_at cutoff)) fetched

unfoldable pub cap_newest_jobs : List Job → ℕ → List Job
cap_newest_jobs fetched max =
    if leb (length fetched) max then fetched else take max (sort_newest (λ j. j.posted_at) fetched)

pub record DedupeKey : Type 0 where
  pub company : Text
  pub title : Text
  pub location : Text
  pub year : ℕ
  pub month : ℕ

abbrev pub key_beq : DedupeKey → DedupeKey → Bool
key_beq a b =
    list_beq a.company b.company
    && (list_beq a.title b.title
        && (list_beq a.location b.location && (nat_beq a.year b.year && nat_beq a.month b.month)))

pub key_beq_iff : (a b : DedupeKey) → (key_beq a b ≡ true) ↔ (a ≡ b)
key_beq_iff a b = (
  (λ h. ground (
    arith,
    list_beq_iff a.company b.company,
    list_beq_iff a.title b.title,
    list_beq_iff a.location b.location,
  )),
  λ p. ground (
    arith,
    list_beq_iff a.company b.company,
    list_beq_iff a.title b.title,
    list_beq_iff a.location b.location,
  ),
)

instance abbrev pub dedupe_key_eq : Eq DedupeKey
dedupe_key_eq = record { test = key_beq; agrees = key_beq_iff }

-- How a source's fetch ends.
pub data SourceResult : Type 0 where
  fetched : List Job → SourceResult
  failed : SourceResult
  panicked : SourceResult

-- The calls that a cycle makes of the database.
pub data Call : Type 0 where
  delete_expired : Call
  write : List Job → Call
  embed : Call

-- The year and month of an instant, and the salary range that `ParseSalaryText` reads from a
-- description.
module _ (calendar : Time → ℕ × ℕ) (parse_salary : Text → Option ℤ × Option ℤ) where
  abbrev pub key_for : Job → DedupeKey
  key_for job = record {
    company = job.company;
    title = job.title;
    location = job.location;
    year = (calendar job.posted_at).0;
    month = (calendar job.posted_at).1;
  }

  with_range : Option ℤ → Option ℤ → Option ℤ × Option ℤ → Job → Job
  with_range none none (low, high) job = record job { salary_min = low; salary_max = high }
  with_range _ _ range job = job

  -- A job with no salary takes the one in its description.
  unfoldable pub fill_salary : Job → Job
  unfolding with_range
  fill_salary job = with_range job.salary_min job.salary_max (parse_salary job.description) job

  unfoldable pub merge_batch : List Job → List DedupeKey → List Job → List DedupeKey × List Job
  merge_batch [] seen out = (seen, out)
  merge_batch (job ∷ batch) seen out = elim (member (key_for job) seen) [
    | true ↦ merge_batch batch seen out
    | false ↦ merge_batch batch (key_for job ∷ seen) (out ++ fill_salary job ∷ [])
  ]

  -- The batches in the order in which the sources finish; the rest send nothing.
  unfoldable pub merge_all : List SourceResult → List DedupeKey → List Job → List Job
  merge_all [] seen out = out
  merge_all (fetched batch ∷ results) seen out =
      merge_all results (merge_batch batch seen out).0 (merge_batch batch seen out).1
  merge_all (failed ∷ results) seen out = merge_all results seen out
  merge_all (panicked ∷ results) seen out = merge_all results seen out

  unfoldable pub fetch_all : List SourceResult → List Job
  fetch_all results = merge_all results [] []

  abbrev pub to_write : List SourceResult → Time → List Job
  to_write results now =
      cap_newest_jobs (drop_expired_jobs (fetch_all results) (now - job_max_age)) max_jobs

  -- `cancelled` is the context's error after the fetch, `written` whether the write succeeds.
  unfoldable pub run_scraper : List SourceResult → Bool → Time → Bool → List Call
  run_scraper results cancelled now written =
      if cancelled
      then []
      else if not written
      then delete_expired ∷ write (to_write results now) ∷ []
      else delete_expired ∷ write (to_write results now) ∷ delete_expired ∷ embed ∷ []

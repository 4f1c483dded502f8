-- ===== src/Write/Tests.antt =====
-- Writes of small batches.
use jobs_scraper.Prelude.{
  ◌+◌, ◌≡◌, ◌≤◌, ◌<◌, refl, none, some, List, [], ◌∷◌, map, length, ltb, if◌then◌else◌, All,
}
use jobs_scraper.Prelude.Int.{pos, negsuc}
use jobs_scraper.Prelude.Keys.{nat_eq, list_eq, count, mark}
use jobs_scraper.Prelude.Text.{Text, codes}
use jobs_scraper.Jobs.{Job, unknown}
use jobs_scraper.Write.{
  dedupe_from, dedupe_jobs_by_url, salary_ptr, posted_column, unique_tags, unique_tags_from,
  tags_of_job, write_jobs, write_chunks, chunks_from, committed, rolled_back, write_jobs_chunk_size,
  max_posted_at_skew,
}
use jobs_scraper.Write.Dedupe.{dedupe_jobs_by_url-last, first_with, last_with, url_of}
use jobs_scraper.Write.Chunks.{write_jobs-chunks_of, chunks_of, accepts_all, concat}

abbrev posting : Text → Text → Job
posting url title = record {
  title = title;
  company = codes "Acme";
  location = [];
  workplace_type = unknown;
  tags = codes "go" ∷ codes "sql" ∷ codes "go" ∷ [];
  salary_min = none;
  salary_max = none;
  posted_at = 5;
  url = url;
  description = [];
}

abbrev batch : List Job
batch =
    posting (codes "a") (codes "old")
    ∷ posting (codes "b") (codes "other")
    ∷ posting (codes "a") (codes "new")
    ∷ []

last_kept :
    dedupe_jobs_by_url batch
    ≡ posting (codes "a") (codes "new") ∷ posting (codes "b") (codes "other") ∷ []
unfolding dedupe_jobs_by_url dedupe_from
last_kept = refl

salaries :
    (salary_ptr (some (pos 999)) ≡ none)
    × ((salary_ptr (some (pos 1000)) ≡ some (pos 1000)) × (salary_ptr (some (negsuc 0)) ≡ none))
unfolding salary_ptr
salaries = (refl, (refl, refl))

future_unknown :
    (posted_column 10 0 ≡ none)
    × ((posted_column 10 9 ≡ some 9) × (posted_column 10 (10 + max_posted_at_skew) ≡ none))
unfolding posted_column
future_unknown = (refl, (refl, refl))

tags_once : unique_tags batch ≡ codes "go" ∷ codes "sql" ∷ []
unfolding unique_tags unique_tags_from tags_of_job
tags_once = refl

refused_write : write_jobs (λ chunk. ltb (length chunk) 2) batch ≡ rolled_back
unfolding write_jobs write_chunks chunks_from dedupe_jobs_by_url dedupe_from
refused_write = refl

dedupe_jobs_by_url-last_example :
    (count (codes "a") (map url_of (dedupe_jobs_by_url batch))
      ≡ mark (codes "a") (map url_of batch))
    × (first_with url_of (codes "a") (dedupe_jobs_by_url batch)
        ≡ last_with url_of (codes "a") batch)
dedupe_jobs_by_url-last_example = dedupe_jobs_by_url-last batch (codes "a")

write_jobs-chunks_of_example :
    let chunks = chunks_of (dedupe_jobs_by_url batch) in
    (write_jobs (λ chunk. ltb (length chunk) 2) batch ≡ (
      if accepts_all (λ chunk. ltb (length chunk) 2) chunks then committed chunks else rolled_back))
    × ((concat chunks ≡ dedupe_jobs_by_url batch)
        × All (λ chunk. (0 < length chunk) × (length chunk ≤ write_jobs_chunk_size)) chunks)
write_jobs-chunks_of_example = write_jobs-chunks_of (λ chunk. ltb (length chunk) 2) batch

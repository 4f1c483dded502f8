-- ===== src/Write.antt =====
-- Writing jobs to the database (backend/database/write.go): one job for each URL, in chunks, each
-- row with its salary and post date checked.
pub mod Dedupe
pub mod Chunks
mod Tests
use jobs_scraper.Prelude.{
  ℕ, zero, suc, ◌+◌, ◌-◌, ◌^◌, ◌≡◌, Bool, true, false, not, ◌&&◌, ◌||◌, Option, none, some, List,
  [], ◌∷◌, ◌++◌, length, set, take, drop, min, leb, ltb, if◌then◌else◌, ◌==◌ as nat_beq,
}
use jobs_scraper.Prelude.Int.{ℤ, pos, negsuc, ltb_ℤ}
use jobs_scraper.Prelude.Keys.{nat_eq, list_eq, lookup, insert, member}
use jobs_scraper.Prelude.Text.{Text}
use jobs_scraper.Jobs.{Job, Time, min_salary}

-- `writeJobsChunkSize`
abbrev pub write_jobs_chunk_size : ℕ
write_jobs_chunk_size = 500

-- `maxPostedAtSkew`, a day in nanoseconds.
abbrev pub max_posted_at_skew : ℕ
max_posted_at_skew = 86_400_000_000_000

abbrev pub max_int32 : ℕ
max_int32 = 2 ^ 31 - 1

-- The loop of `dedupeJobsByURL`.
unfoldable pub dedupe_from : List Job → List (Text × ℕ) → List Job → List Job
dedupe_from [] index deduped = deduped
dedupe_from (job ∷ batch) index deduped = elim (lookup job.url index) [
  | none ↦ dedupe_from batch (insert job.url (length deduped) index) (deduped ++ job ∷ [])
  | some i ↦ dedupe_from batch index (set deduped i job)
]

unfoldable pub dedupe_jobs_by_url : List Job → List Job
dedupe_jobs_by_url batch = dedupe_from batch [] []

unfoldable pub salary_ptr : Option ℤ → Option ℤ
salary_ptr none = none
salary_ptr (some v) = if ltb_ℤ v (pos min_salary) || ltb_ℤ (pos max_int32) v then none else some v

-- The post date that `upsertJobs` stores at the time `now`.
unfoldable pub posted_column : Time → Time → Option Time
posted_column now posted_at =
    if not (nat_beq posted_at 0) && ltb posted_at (now + max_posted_at_skew)
    then some posted_at
    else none

-- The chunks of `writeJobs`, from the position `start`, on fuel for their number.
unfoldable pub chunks_from : ℕ → ℕ → List Job → List (List Job)
chunks_from zero start batch = []
chunks_from (suc fuel) start batch =
    let rest = chunks_from fuel (start + write_jobs_chunk_size) batch in
    if ltb start (length batch)
    then take (min (start + write_jobs_chunk_size) (length batch) - start) (drop start batch) ∷ rest
    else []

-- The tags that `replaceJobTags` upserts: each once, in the order of their first use.
unfoldable pub tags_of_job : List Text → List Text → List Text → List Text × List Text
tags_of_job [] seen unique = (seen, unique)
tags_of_job (tag ∷ tags) seen unique = elim (member tag seen) [
  | true ↦ tags_of_job tags seen unique
  | false ↦ tags_of_job tags (tag ∷ seen) (unique ++ tag ∷ [])
]

unfoldable pub unique_tags_from : List Job → List Text → List Text → List Text
unique_tags_from [] seen unique = unique
unique_tags_from (job ∷ chunk) seen unique =
    unique_tags_from chunk (tags_of_job job.tags seen unique).0 (tags_of_job job.tags seen unique).1

unfoldable pub unique_tags : List Job → List Text
unique_tags chunk = unique_tags_from chunk [] []

-- What a statement does to the transaction: it succeeds, or its error ends the write.
pub data Written : Type 0 where
  committed : List (List Job) → Written
  rolled_back : Written

-- `writeJobs` over a database that accepts or refuses each chunk.
unfoldable pub write_chunks : (List Job → Bool) → List (List Job) → List (List Job) → Written
write_chunks accepts [] done = committed done
write_chunks accepts (chunk ∷ chunks) done =
    let rest = write_chunks accepts chunks (done ++ chunk ∷ []) in
    if accepts chunk then rest else rolled_back

unfoldable pub write_jobs : (List Job → Bool) → List Job → Written
write_jobs accepts batch =
    let deduped = dedupe_jobs_by_url batch in
    write_chunks accepts (chunks_from (suc (length deduped)) 0 deduped) []

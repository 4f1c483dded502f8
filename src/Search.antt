-- ===== src/Search.antt =====
-- The query parameters of a job search (backend/server/jobs.go), read by setters in a row into the
-- parameters of backend/database/indexer.go.
pub mod Bounds
pub mod Choices
pub mod Numbers
pub mod Params
pub mod Where
pub mod Pushed
pub mod Tags
pub mod Filter
mod Tests
use jobs_scraper.Prelude.{
  ℕ, ◌+◌, ◌-◌, ◌*◌, ◌≡◌, Bool, true, false, not, ◌||◌, Option, none, some, List, [], ◌∷◌, ◌++◌, map,
  keep, if◌then◌else◌,
}
use jobs_scraper.Prelude.Int.{ℤ, pos, negsuc, ltb_ℤ, min_ℤ}
use jobs_scraper.Prelude.Keys.{◌==◌, nat_eq, list_eq, lookup}
use jobs_scraper.Prelude.Text.{Text, Unicode, codes, trim_space, split, atoi}
use jobs_scraper.Jobs.{WorkplaceType, unknown, parse_workplace_type, Time}

-- The zero value is the empty text.
pub data SortOrder : Type 0 where
  unsorted sort_relevance sort_date : SortOrder

pub data JobTypeFilter : Type 0 where
  any_type intern part_time full_time : JobTypeFilter

abbrev pub default_search_limit : ℕ
default_search_limit = 20

abbrev pub max_search_limit : ℕ
max_search_limit = 50

-- The fields that the query sets; the handler adds the profile and its resume.
pub record JobSearchParams : Type 0 where
  pub search_query : Text
  pub posted_after : Option Time
  pub tags : List Text
  pub workplace_type : WorkplaceType
  pub job_type : JobTypeFilter
  pub min_salary : ℤ
  pub max_salary : ℤ
  pub sort : SortOrder
  pub limit : ℤ
  pub offset : ℤ

-- What a setter returns: the parameters, or the error `invalid <name> "<raw>"`.
pub data Parsed : Type 0 where
  parsed : JobSearchParams → Parsed
  refused : Text → Text → Parsed

-- `query.Get`, with the empty text where a parameter is missing.
abbrev pub Query : Type 0
Query = Text → Text

abbrev pub nanoseconds_per_hour : ℕ
nanoseconds_per_hour = 3_600_000_000_000

abbrev pub date_posted_lookback : List (Text × ℕ)
date_posted_lookback =
    (codes "24h", 24 * nanoseconds_per_hour)
    ∷ (codes "3d", 3 * 24 * nanoseconds_per_hour)
    ∷ (codes "week", 7 * 24 * nanoseconds_per_hour)
    ∷ (codes "month", 30 * 24 * nanoseconds_per_hour)
    ∷ []

unfoldable pub set_workplace_type_param : Unicode → Query → JobSearchParams → Parsed
set_workplace_type_param u query p =
    let raw = query (codes "workplace_type") in
    let read = parse_workplace_type u raw in
    if raw == []
    then parsed p
    else if not read.1
    then refused (codes "workplace_type") raw
    else parsed (record p { workplace_type = read.0 })

unfoldable pub set_job_type_param : Query → JobSearchParams → Parsed
set_job_type_param query p =
    let raw = query (codes "job_type") in
    if raw == []
    then parsed p
    else if raw == codes "intern"
    then parsed (record p { job_type = intern })
    else if raw == codes "part_time"
    then parsed (record p { job_type = part_time })
    else if raw == codes "full_time"
    then parsed (record p { job_type = full_time })
    else refused (codes "job_type") raw

-- A number that passes a test, or the error.
abbrev pub numeric : Text → Text → (ℤ → Bool) → (ℤ → JobSearchParams) → Option ℤ → Parsed
numeric name raw bad store none = refused name raw
numeric name raw bad store (some n) = if bad n then refused name raw else parsed (store n)

unfoldable pub set_min_salary : Query → JobSearchParams → Parsed
set_min_salary query p =
    let raw = query (codes "min_salary") in
    if raw == []
    then parsed p
    else numeric (codes "min_salary") raw (λ n. ltb_ℤ n (pos 0)) (λ n. record p { min_salary = n })
        (atoi raw)

unfoldable pub set_max_salary : Query → JobSearchParams → Parsed
set_max_salary query p =
    let raw = query (codes "max_salary") in
    if raw == []
    then parsed p
    else numeric (codes "max_salary") raw (λ n. ltb_ℤ n p.min_salary)
        (λ n. record p { max_salary = n }) (atoi raw)

-- The next setter runs on the parameters, an error ends the row.
abbrev pub and_then : Parsed → (JobSearchParams → Parsed) → Parsed
and_then (parsed p) next = next p
and_then (refused name raw) next = refused name raw

unfoldable pub set_salary_range_params : Query → JobSearchParams → Parsed
set_salary_range_params query p = and_then (set_min_salary query p) (set_max_salary query)

look_back : Time → Text → JobSearchParams → Option ℕ → Parsed
look_back now raw p none = refused (codes "date_posted") raw
look_back now raw p (some lookback) = parsed (record p { posted_after = some (now - lookback) })

unfoldable pub set_date_posted_param : Time → Query → JobSearchParams → Parsed
unfolding look_back
set_date_posted_param now query p =
    let raw = query (codes "date_posted") in
    if raw == [] then parsed p else look_back now raw p (lookup raw date_posted_lookback)

unfoldable pub set_tags_param : Query → JobSearchParams → Parsed
set_tags_param query p =
    let raw = query (codes "tags") in
    if raw == []
    then parsed p
    else parsed
        (record p { tags = p.tags ++ keep (λ t. not (t == [])) (map trim_space (split raw b',')) })

unfoldable pub set_sort_param : Query → JobSearchParams → Parsed
set_sort_param query p =
    let raw = query (codes "sort") in
    if raw == []
    then parsed p
    else if raw == codes "date"
    then parsed (record p { sort = sort_date })
    else if raw == codes "relevance"
    then parsed (record p { sort = sort_relevance })
    else refused (codes "sort") raw

unfoldable pub set_limit_param : Query → JobSearchParams → Parsed
set_limit_param query p =
    let raw = query (codes "limit") in
    if raw == []
    then parsed p
    else numeric (codes "limit") raw (λ n. not (ltb_ℤ (pos 0) n))
        (λ n. record p { limit = min_ℤ n (pos max_search_limit) }) (atoi raw)

unfoldable pub set_offset_param : Query → JobSearchParams → Parsed
set_offset_param query p =
    let raw = query (codes "offset") in
    if raw == []
    then parsed p
    else numeric (codes "offset") raw (λ n. ltb_ℤ n (pos 0)) (λ n. record p { offset = n })
        (atoi raw)

unfoldable pub run_setters : List (JobSearchParams → Parsed) → JobSearchParams → Parsed
run_setters [] p = parsed p
run_setters (set ∷ setters) p = and_then (set p) (run_setters setters)

unfoldable pub start_params : Query → JobSearchParams
start_params query = record {
  search_query = trim_space (query (codes "q"));
  posted_after = none;
  tags = [];
  workplace_type = unknown;
  job_type = any_type;
  min_salary = pos 0;
  max_salary = pos 0;
  sort = unsorted;
  limit = pos default_search_limit;
  offset = pos 0;
}

unfoldable pub parse_job_search_params : Unicode → Time → Query → Parsed
parse_job_search_params u now query =
    run_setters
      (set_workplace_type_param u query
        ∷ set_job_type_param query
        ∷ set_salary_range_params query
        ∷ set_date_posted_param now query
        ∷ set_tags_param query
        ∷ set_sort_param query
        ∷ set_limit_param query
        ∷ set_offset_param query
        ∷ [])
      (start_params query)

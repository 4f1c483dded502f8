-- ===== src/Search/Tests.antt =====
-- Queries of a search.
use jobs_scraper.Prelude.{◌≡◌, refl, Bool, true, false, none, some, List, [], ◌∷◌, if◌then◌else◌}
use jobs_scraper.Prelude.Int.{pos}
use jobs_scraper.Prelude.Keys.{◌==◌, nat_eq, list_eq}
use jobs_scraper.Prelude.Text.{Text, codes, ascii_only, atoi}
use jobs_scraper.Jobs.{parse_workplace_type, remote}
use jobs_scraper.Search.{
  JobSearchParams, Query, parsed, refused, intern, sort_date, set_workplace_type_param,
  set_job_type_param, set_min_salary, set_max_salary, set_salary_range_params,
  set_date_posted_param, set_tags_param, set_sort_param, set_limit_param, set_offset_param,
  run_setters, start_params, parse_job_search_params,
}
use jobs_scraper.Search.Where.{JobRow, selects, build_job_search_where, holds}
use jobs_scraper.Search.Filter.{fits, build_job_search_where-fits}
use jobs_scraper.Search.Bounds.{Gives, IsSound}
use jobs_scraper.Search.Params.{parse_job_search_params-IsSound}

-- A query with a text for some of its parameters.
abbrev asks : List (Text × Text) → Query
asks [] name = []
asks ((key, value) ∷ rest) name = if key == name then value else asks rest name

abbrev many : Query
many = asks (
    (codes "q", codes " go ")
    ∷ (codes "job_type", codes "intern")
    ∷ (codes "tags", codes "go, ,sql")
    ∷ (codes "limit", codes "99")
    ∷ (codes "min_salary", codes "50000")
    ∷ (codes "sort", codes "date")
    ∷ (codes "workplace_type", codes "Remote")
    ∷ (codes "date_posted", codes "24h")
    ∷ [])

reads_all :
    parse_job_search_params ascii_only 86_400_000_000_007 many
    ≡ parsed (record {
      search_query = codes "go";
      posted_after = some 7;
      tags = codes "go" ∷ codes "sql" ∷ [];
      workplace_type = remote;
      job_type = intern;
      min_salary = pos 50000;
      max_salary = pos 0;
      sort = sort_date;
      limit = pos 50;
      offset = pos 0;
    })
unfolding parse_job_search_params run_setters start_params set_workplace_type_param
    set_job_type_param set_salary_range_params set_min_salary set_max_salary set_date_posted_param
    set_tags_param set_sort_param set_limit_param set_offset_param parse_workplace_type atoi
reads_all = refl

refuses_range :
    parse_job_search_params ascii_only 0
      (asks ((codes "min_salary", codes "5") ∷ (codes "max_salary", codes "4") ∷ []))
    ≡ refused (codes "max_salary") (codes "4")
unfolding parse_job_search_params run_setters start_params set_workplace_type_param
    set_job_type_param set_salary_range_params set_min_salary set_max_salary set_date_posted_param
    set_tags_param set_sort_param set_limit_param set_offset_param parse_workplace_type atoi
refuses_range = refl

parse_job_search_params-IsSound_example :
    Gives many IsSound (parse_job_search_params ascii_only 86_400_000_000_007 many)
parse_job_search_params-IsSound_example =
    parse_job_search_params-IsSound ascii_only 86_400_000_000_007 many

abbrev matches_nothing : Text → JobRow → Bool
matches_nothing query row = false

abbrev stored : JobRow
stored = record {
  age = 9;
  workplace_type = remote;
  is_intern = true;
  is_part_time = false;
  is_full_time = false;
  salary_min = some (pos 40000);
  salary_max = some (pos 60000);
  posted_at = some 9;
  first_seen_at = 9;
  tags = codes "go" ∷ codes "sql" ∷ [];
}

abbrev asked : List Text → JobSearchParams
asked tags = record {
  search_query = [];
  posted_after = some 7;
  tags = tags;
  workplace_type = remote;
  job_type = intern;
  min_salary = pos 50000;
  max_salary = pos 0;
  sort = sort_date;
  limit = pos 50;
  offset = pos 0;
}

selected :
    selects matches_nothing (build_job_search_where 3 none (asked (codes "go" ∷ []))) stored ≡ true
unfolding build_job_search_where holds
selected = refl

-- A tag that is asked for twice is not found.
repeated_tag :
    selects matches_nothing
      (build_job_search_where 3 none (asked (codes "go" ∷ codes "go" ∷ [])))
      stored
    ≡ false
unfolding build_job_search_where holds
repeated_tag = refl

build_job_search_where-fits_example :
    selects matches_nothing
      (build_job_search_where 3 none (asked (codes "sql" ∷ codes "go" ∷ [])))
      stored
    ≡ fits matches_nothing stored 3 none (asked (codes "sql" ∷ codes "go" ∷ []))
build_job_search_where-fits_example =
    build_job_search_where-fits matches_nothing stored 3 none
      (asked (codes "sql" ∷ codes "go" ∷ [])) (refl, (refl, tt)) (refl, (refl, tt))

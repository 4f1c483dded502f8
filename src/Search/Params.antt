-- ===== src/Search/Params.antt =====
-- What a search accepts, and what its errors name.
use jobs_scraper.Prelude.{refl, inl, arith}
use jobs_scraper.Prelude.Keys.{nat_eq, list_eq}
use jobs_scraper.Prelude.Text.{Unicode}
use jobs_scraper.Jobs.{Time}
use jobs_scraper.Search.{
  Query, set_salary_range_params, run_setters, start_params, parse_job_search_params,
}
use jobs_scraper.Search.Bounds.{Gives, Gives-and_then, IsSound, IsOpen}
use jobs_scraper.Search.Choices.{
  set_workplace_type_param-Gives, set_job_type_param-Gives, set_date_posted_param-Gives,
  set_tags_param-Gives, set_sort_param-Gives,
}
use jobs_scraper.Search.Numbers.{
  set_min_salary-Gives, set_max_salary-Gives, set_limit_param-Gives, set_offset_param-Gives,
}

start_params-IsOpen : (query : Query) → IsOpen (start_params query)
unfolding start_params
start_params-IsOpen query =
    (((omega arith, omega arith), (omega arith, (omega arith, (inl refl, tt)))), refl)

-- Reading the query of a search ends in one of two ways: with parameters within their bounds (a
-- limit of 1 to 50, an offset and a smallest salary that are not negative, a largest salary that is
-- unset or no smaller than the smallest, and no empty tag), or with an error that names a
-- parameter of the query with the value it has there, which is not empty.
pub parse_job_search_params-IsSound :
    (u : Unicode) (now : Time) (query : Query)
    → Gives query IsSound (parse_job_search_params u now query)
unfolding parse_job_search_params run_setters set_salary_range_params
parse_job_search_params-IsSound u now query =
    let first =
      set_workplace_type_param-Gives query u (start_params query) (start_params-IsOpen query) in
    Gives-and_then query IsOpen IsSound _ _
      (λ p1 h1.
        Gives-and_then query IsOpen IsSound _ _
          (λ p2 h2.
            Gives-and_then query IsSound IsSound _ _
              (λ p3 h3.
                Gives-and_then query IsSound IsSound _ _
                  (λ p4 h4.
                    Gives-and_then query IsSound IsSound _ _
                      (λ p5 h5.
                        Gives-and_then query IsSound IsSound _ _
                          (λ p6 h6.
                            Gives-and_then query IsSound IsSound _ _
                              (λ p7 h7.
                                Gives-and_then query IsSound IsSound _ _ (λ p8 h8. h8)
                                  (set_offset_param-Gives query p7 h7))
                              (set_limit_param-Gives query p6 h6))
                          (set_sort_param-Gives query p5 h5))
                      (set_tags_param-Gives query p4 h4))
                  (set_date_posted_param-Gives query now p3 h3))
              (Gives-and_then query IsOpen IsSound _ _ (set_max_salary-Gives query)
                (set_min_salary-Gives query p2 h2)))
          (set_job_type_param-Gives query p1 h1))
      first

-- ===== src/Search/Choices.antt =====
-- The setters that read a choice or a list.
use jobs_scraper.Prelude.{
  ◌≢◌, refl, inl, inr, Bool-cases, not, Option-cases, List, [], ◌∷◌, map, keep, All, All-append,
}
use jobs_scraper.Prelude.Keys.{◌==◌, nat_eq, list_eq, lookup}
use jobs_scraper.Prelude.Text.{filled, Text, Unicode, codes, trim_space, split}
use jobs_scraper.Jobs.{parse_workplace_type, Time}
use jobs_scraper.Search.{
  JobSearchParams, Query, date_posted_lookback, set_workplace_type_param, set_job_type_param,
  look_back, set_date_posted_param, set_tags_param, set_sort_param,
}
use jobs_scraper.Search.Bounds.{Gives, IsSound, IsOpen}

module _ (query : Query) where
  pub set_workplace_type_param-Gives :
      (u : Unicode) (p : JobSearchParams)
      → IsOpen p
      → Gives query IsOpen (set_workplace_type_param u query p)
  unfolding set_workplace_type_param
  set_workplace_type_param-Gives u p h =
      let raw = query (codes "workplace_type") in
      elim (Bool-cases (raw == [])) [
        | inl empty ↦ rw (empty, set_workplace_type_param) h
        | inr given ↦ elim (Bool-cases ((parse_workplace_type u raw).1)) [
          | inl known ↦ rw (given, known, set_workplace_type_param) h
          | inr other ↦ rw (given, other, set_workplace_type_param) (refl, filled raw given)
        ]
      ]

  pub set_job_type_param-Gives :
      (p : JobSearchParams) → IsOpen p → Gives query IsOpen (set_job_type_param query p)
  unfolding set_job_type_param
  set_job_type_param-Gives p h =
      let raw = query (codes "job_type") in
      elim (Bool-cases (raw == [])) [
        | inl empty ↦ rw (empty, set_job_type_param) h
        | inr given ↦ elim (Bool-cases (raw == codes "intern")) [
          | inl a ↦ rw (given, a, set_job_type_param) h
          | inr a ↦ elim (Bool-cases (raw == codes "part_time")) [
            | inl b ↦ rw (given, a, b, set_job_type_param) h
            | inr b ↦ elim (Bool-cases (raw == codes "full_time")) [
              | inl c ↦ rw (given, a, b, c, set_job_type_param) h
              | inr c ↦ rw (given, a, b, c, set_job_type_param) (refl, filled raw given)
            ]
          ]
        ]
      ]

  pub set_date_posted_param-Gives :
      (now : Time) (p : JobSearchParams)
      → IsSound p
      → Gives query IsSound (set_date_posted_param now query p)
  unfolding set_date_posted_param
  set_date_posted_param-Gives now p h =
      let raw = query (codes "date_posted") in
      elim (Bool-cases (raw == [])) [
        | inl empty ↦ rw (empty, set_date_posted_param) h
        | inr given ↦ elim (Option-cases (lookup raw date_posted_lookback)) [
          | inl other ↦
              rw (given, other, set_date_posted_param)
                (unfold look_back in (refl, filled raw given))
          | inr (back, known) ↦ rw (given, known, set_date_posted_param) (unfold look_back in h)
        ]
      ]

  kept_tags : (ts : List Text) → All (λ t. t ≢ []) (keep (λ t. not (t == [])) ts)
  kept_tags [] = tt
  kept_tags (t ∷ ts) = elim (Bool-cases (t == [])) [
    | inl empty ↦ rw empty (kept_tags ts)
    | inr given ↦ rw given (filled t given, kept_tags ts)
  ]

  pub set_tags_param-Gives :
      (p : JobSearchParams) → IsSound p → Gives query IsSound (set_tags_param query p)
  unfolding set_tags_param
  set_tags_param-Gives p h =
      let raw = query (codes "tags") in
      elim (Bool-cases (raw == [])) [
        | inl empty ↦ rw (empty, set_tags_param) h
        | inr given ↦
            rw (given, set_tags_param)
              (
                h.0,
                (
                  h.1.0,
                  (
                    h.1.1.0,
                    (
                      h.1.1.1.0,
                      All-append (λ t. t ≢ []) p.tags
                          (keep (λ t. not (t == [])) (map trim_space (split raw b','))) h.1.1.1.1
                          (kept_tags (map trim_space (split raw b','))),
                    ),
                  ),
                ),
              )
      ]

  pub set_sort_param-Gives :
      (p : JobSearchParams) → IsSound p → Gives query IsSound (set_sort_param query p)
  unfolding set_sort_param
  set_sort_param-Gives p h =
      let raw = query (codes "sort") in
      elim (Bool-cases (raw == [])) [
        | inl empty ↦ rw (empty, set_sort_param) h
        | inr given ↦ elim (Bool-cases (raw == codes "date")) [
          | inl a ↦ rw (given, a, set_sort_param) h
          | inr a ↦ elim (Bool-cases (raw == codes "relevance")) [
            | inl b ↦ rw (given, a, b, set_sort_param) h
            | inr b ↦ rw (given, a, b, set_sort_param) (refl, filled raw given)
          ]
        ]
      ]

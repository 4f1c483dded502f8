-- ===== src/Search/Numbers.antt =====
-- The setters that read a number.
use jobs_scraper.Prelude.{◌≡◌, inl, inr, false, Bool-cases, not, [], arith}
use jobs_scraper.Prelude.Int.{ℤ, pos, ltb_ℤ, min_ℤ, ◌≤ℤ◌}
use jobs_scraper.Prelude.Keys.{◌==◌, nat_eq, list_eq}
use jobs_scraper.Prelude.Text.{filled, codes, atoi}
use jobs_scraper.Search.{
  max_search_limit, JobSearchParams, Query, set_min_salary, set_max_salary, set_limit_param,
  set_offset_param,
}
use jobs_scraper.Search.Bounds.{Gives, Gives-numeric, IsSound, IsOpen}

module _ (query : Query) where
  pub set_min_salary-Gives :
      (p : JobSearchParams) → IsOpen p → Gives query IsOpen (set_min_salary query p)
  unfolding set_min_salary
  set_min_salary-Gives p h =
      let raw = query (codes "min_salary") in
      elim (Bool-cases (raw == [])) [
        | inl empty ↦ rw (empty, set_min_salary) h
        | inr given ↦
            rw (given, set_min_salary)
              (Gives-numeric query IsOpen (codes "min_salary") (λ n. ltb_ℤ n (pos 0))
                (λ n. record p { min_salary = n }) (atoi raw) (filled raw given)
                (λ k good. ((h.0.0, (h.0.1.0, (not_below k good, (inl h.1, h.0.1.1.1.1)))), h.1)))
      ]
    where
      not_below : (k : ℤ) → ltb_ℤ k (pos 0) ≡ false → pos 0 ≤ℤ k
      not_below k good = ground arith

  pub set_max_salary-Gives :
      (p : JobSearchParams) → IsOpen p → Gives query IsSound (set_max_salary query p)
  unfolding set_max_salary
  set_max_salary-Gives p h =
      let raw = query (codes "max_salary") in
      elim (Bool-cases (raw == [])) [
        | inl empty ↦ rw (empty, set_max_salary) h.0
        | inr given ↦
            rw (given, set_max_salary)
              (Gives-numeric query IsSound (codes "max_salary") (λ n. ltb_ℤ n p.min_salary)
                (λ n. record p { max_salary = n }) (atoi raw) (filled raw given)
                (λ k good. (h.0.0, (h.0.1.0, (h.0.1.1.0, (inr (ground arith), h.0.1.1.1.1))))))
      ]

  limited :
      (k : ℤ)
      → not (ltb_ℤ (pos 0) k) ≡ false
      → (pos 1 ≤ℤ min_ℤ k (pos max_search_limit))
        × (min_ℤ k (pos max_search_limit) ≤ℤ pos max_search_limit)
  limited k good = ground arith

  pub set_limit_param-Gives :
      (p : JobSearchParams) → IsSound p → Gives query IsSound (set_limit_param query p)
  unfolding set_limit_param
  set_limit_param-Gives p h =
      let raw = query (codes "limit") in
      elim (Bool-cases (raw == [])) [
        | inl empty ↦ rw (empty, set_limit_param) h
        | inr given ↦
            rw (given, set_limit_param)
              (Gives-numeric query IsSound (codes "limit") (λ n. not (ltb_ℤ (pos 0) n))
                (λ n. record p { limit = min_ℤ n (pos max_search_limit) }) (atoi raw)
                (filled raw given) (λ k good. (limited k good, h.1)))
      ]

  pub set_offset_param-Gives :
      (p : JobSearchParams) → IsSound p → Gives query IsSound (set_offset_param query p)
  unfolding set_offset_param
  set_offset_param-Gives p h =
      let raw = query (codes "offset") in
      elim (Bool-cases (raw == [])) [
        | inl empty ↦ rw (empty, set_offset_param) h
        | inr given ↦
            rw (given, set_offset_param)
              (Gives-numeric query IsSound (codes "offset") (λ n. ltb_ℤ n (pos 0))
                (λ n. record p { offset = n }) (atoi raw) (filled raw given)
                (λ k good. (h.0, (ground arith, h.1.1))))
      ]

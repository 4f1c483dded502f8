-- ===== src/Search/Filter.antt =====
-- The statement's conditions with its arguments, against what the parameters ask for.
use jobs_scraper.Prelude.{
  ℕ, suc, ◌≡◌, ◌∙◌, refl, sym, ap, Bool, true, ◌&&◌, Option, some, List, [], ◌∷◌, ◌++◌, map,
  append_assoc, append-nil, length, length-append, leb, ltb, arith, ◌==◌ as nat_beq,
}
use jobs_scraper.Prelude.Keys.{nat_eq, list_eq, Distinct}
use jobs_scraper.Prelude.Text.{Text}
use jobs_scraper.Jobs.{Time}
use jobs_scraper.Search.{JobSearchParams}
use jobs_scraper.Search.Tags.{has_all, counted-has_all}
use jobs_scraper.Search.Where.{
  Argument, a_time, a_text, age_from, salary_max_from, salary_min_to, posted_after, seen_after,
  has_tags, Where, numbers_from, push_any_tags, build_job_search_where, JobRow, argument, at_least,
  at_most, later_than, text_list, tag_count, holds, all_hold, selects,
}
use jobs_scraper.Search.Pushed.{
  fits_workplace, fits_type, fits_time, fits_amount, fits_tags, argument-pushed, fits_query,
  all_hold-snoc, Means, push-Means, same-Means, query-Means, workplace-Means, type-Means,
  positive-Means, time-Means,
}

module _ (matches : Text → JobRow → Bool) (row : JobRow) where
  -- The numbers of the tags lead back to the tags.
  tags-read :
      (tags : List Text) (xs more args : List Argument) (k : ℕ)
      → args ≡ (xs ++ map (λ t. a_text t) tags) ++ more
      → k ≡ length xs
      → text_list (map (λ j. argument args j) (numbers_from (suc k) tags)) ≡ tags
  tags-read [] xs more args k e same = refl
  tags-read (t ∷ tags) xs more args k e same =
      let front = xs ++ a_text t ∷ [] in
      let regrouped : args ≡ (front ++ map (λ u. a_text u) tags) ++ more =
        e
        ∙ ap (λ ys. ys ++ more)
            (sym (append_assoc xs (a_text t ∷ []) (map (λ u. a_text u) tags))) in
      let first : argument args (suc k) ≡ some (a_text t) =
        rw (e, same)
          (ap (λ ys. argument ys (suc (length xs)))
              (append_assoc xs (a_text t ∷ map (λ u. a_text u) tags) more
                ∙ sym (append_assoc xs (a_text t ∷ []) (map (λ u. a_text u) tags ++ more)))
            ∙ argument-pushed xs (a_text t) (map (λ u. a_text u) tags ++ more)) in
      let next : suc k ≡ length front = omega (arith, same, length-append {0} xs (a_text t ∷ [])) in
      let rest = tags-read tags front more args (suc k) regrouped next in
      rw first (ap (λ us. t ∷ us) rest)

  tags-Means :
      (tags : List Text) (w : Where) (spec : Bool)
      → Means matches row w spec
      → Means matches row (push_any_tags tags w) (spec && fits_tags tags row)
  unfolding holds
  tags-Means [] w spec h more = same-Means matches row w spec h more
  tags-Means (tag ∷ tags) w spec h more =
      let all = tag ∷ tags in
      let args = (w.args ++ map (λ t. a_text t) all) ++ more in
      let before : all_hold matches args row w.conditions ≡ spec =
        ap (λ xs. all_hold matches xs row w.conditions)
          (append_assoc w.args (map (λ t. a_text t) all) more)
        ∙ h (map (λ t. a_text t) all ++ more) in
      let read = tags-read all w.args more args (length w.args) refl refl in
      let c = has_tags (numbers_from (suc (length w.args)) all) (length all) in
      all_hold-snoc matches row args w.conditions c
      ∙ (ap (λ b. b && holds matches args row c) before
          ∙ ap (λ ts. spec && nat_beq (tag_count ts row) (length all)) read)

  -- What the parameters ask of a job besides its tags: young enough, its text, workplace and type,
  -- a salary range that meets the one asked for, and its times.
  abbrev pub fits_untagged : Time → Option Time → JobSearchParams → Bool
  fits_untagged cutoff seen p =
      ((((((leb cutoff row.age && fits_query matches row p.search_query)
                && fits_workplace p.workplace_type row)
              && fits_type p.job_type row)
            && fits_amount p.min_salary (λ x. at_least row.salary_max x))
          && fits_amount p.max_salary (λ x. at_most row.salary_min x))
        && fits_time p.posted_after (λ t. later_than row.posted_at t))
      && fits_time seen (λ t. ltb t row.first_seen_at)

  -- And each of the tags that are asked for.
  abbrev pub fits : Time → Option Time → JobSearchParams → Bool
  fits cutoff seen p = fits_untagged cutoff seen p && has_all row.tags p.tags

  build_job_search_where-counted :
      (cutoff : Time) (seen : Option Time) (p : JobSearchParams)
      → selects matches (build_job_search_where cutoff seen p) row
        ≡ (fits_untagged cutoff seen p && fits_tags p.tags row)
  unfolding build_job_search_where holds
  build_job_search_where-counted cutoff seen p =
      let start : Where = record { conditions = []; args = [] } in
      let m0 : Means matches row start true = λ more. refl in
      let m1 =
        push-Means matches row (a_time cutoff) (λ k. age_from k) start true (leb cutoff row.age)
          (λ args k e. rw e refl) m0 in
      let m2 = query-Means matches row p _ _ m1 in
      let m3 = workplace-Means matches row p.workplace_type _ _ m2 in
      let m4 = type-Means matches row p.job_type _ _ m3 in
      let m5 =
        positive-Means matches row p.min_salary (λ k. salary_max_from k)
          (λ x. at_least row.salary_max x) _ _ (λ args k e. rw e refl) m4 in
      let m6 =
        positive-Means matches row p.max_salary (λ k. salary_min_to k)
          (λ x. at_most row.salary_min x) _ _ (λ args k e. rw e refl) m5 in
      let m7 =
        time-Means matches row p.posted_after (λ k. posted_after k)
          (λ t. later_than row.posted_at t) _ _ (λ t args k e. rw e refl) m6 in
      let m8 =
        time-Means matches row seen (λ k. seen_after k) (λ t. ltb t row.first_seen_at) _ _
          (λ t args k e. rw e refl) m7 in
      let m9 = tags-Means p.tags _ _ m8 in
      let w = build_job_search_where cutoff seen p in
      ap (λ args. all_hold matches args row w.conditions) (sym (append-nil w.args)) ∙ m9 []

  fits_tags-has_all :
      (tags : List Text)
      → Distinct tags
      → Distinct row.tags
      → fits_tags tags row ≡ has_all row.tags tags
  fits_tags-has_all [] d f = refl
  fits_tags-has_all (tag ∷ tags) d f = counted-has_all (tag ∷ tags) row.tags d f

  -- If no tag is asked for twice, and the job has no tag twice, the conditions that are built for the
  -- parameters of a search, each with the arguments that its numbers name, select the job exactly if
  -- it fits the parameters: it has every tag that is asked for, and meets the other tests that
  -- are asked for.
  pub build_job_search_where-fits :
      (cutoff : Time) (seen : Option Time) (p : JobSearchParams)
      → Distinct p.tags
      → Distinct row.tags
      → selects matches (build_job_search_where cutoff seen p) row ≡ fits cutoff seen p
  build_job_search_where-fits cutoff seen p d f =
      build_job_search_where-counted cutoff seen p
      ∙ ap (λ b. fits_untagged cutoff seen p && b) (fits_tags-has_all p.tags d f)

-- ===== src/Relevance.antt =====
-- The query that a resume ranks jobs by (backend/relevance/query.go).
pub mod Terms
mod Tests
use jobs_scraper.Prelude.{
  ℕ, ◌+◌, ◌≡◌, Bool, true, false, not, ◌||◌, List, [], ◌∷◌, ◌++◌, map, keep, length, leb,
  if◌then◌else◌,
}
use jobs_scraper.Prelude.Keys.{◌==◌, nat_eq, list_eq, member}
use jobs_scraper.Prelude.Text.{Text, Unicode, codes, trim_space, to_lower, join}
use jobs_scraper.Tailoring.{EducationEntry, WorkExperienceEntry, ProjectEntry, ExtractedResume}

abbrev pub max_resume_query_terms : ℕ
max_resume_query_terms = 40

abbrev pub append_all : List (List Text) → List Text
append_all [] = []
append_all (xs ∷ xss) = xs ++ append_all xss

-- The loop that keeps each term once, up to the limit.
unfoldable pub unique_from : Unicode → List Text → List Text → List Text → List Text
unique_from u [] seen unique = unique
unique_from u (term ∷ terms) seen unique =
    let key = to_lower u term in
    let skip = unique_from u terms seen unique in
    let longer = unique ++ term ∷ [] in
    let rest = unique_from u terms (key ∷ seen) longer in
    if (key == []) || member key seen
    then skip
    else if leb max_resume_query_terms (length longer)
    then longer
    else rest

-- `split_pattern` is `termSplitPattern.Split`.
module _ (split_pattern : Text → List Text) where
  unfoldable pub split_terms : Text → List Text
  split_terms s = keep (λ part. not (part == [])) (map trim_space (split_pattern s))

  unfoldable pub resume_terms : ExtractedResume → List Text
  resume_terms r =
      append_all (map split_terms r.skills)
      ++ (keep (λ major. not (major == [])) (map (λ edu. edu.major) r.education)
          ++ (keep (λ title. not (title == [])) (map (λ we. we.job_title) r.work_experience)
              ++ append_all (map (λ p. split_terms (join p.technologies (codes ","))) r.projects)))

  unfoldable pub query_terms : Unicode → ExtractedResume → List Text
  query_terms u r = unique_from u (resume_terms r) [] []

  unfoldable pub search_query : Unicode → ExtractedResume → Text
  search_query u r = join (query_terms u r) (codes " OR ")
